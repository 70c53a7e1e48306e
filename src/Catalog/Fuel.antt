-- ===== src/Catalog/Fuel.antt =====
-- How far the calls of `visit` in `_validate_service_dependencies` go
-- (backend/app/operations_services.py).
use Prim.Native.String.{String}
use text.Mathlib.Text.{◌==◌ as str_eq}
use text.Mathlib.TextEquality.{eq_iff}
use deployguardai.Prelude.{
  ℕ, zero, suc, ◌+◌, ◌≡◌, ◌≤◌, ◌<◌, refl, sym, ◌∙◌, subst, true, false, ◌||◌, none, some, List, [],
  ◌∷◌, arith, inl, inr, Bool-cases, Option-cases, returns, raises, Outcome-cases, raises-ne-returns,
  if◌then◌else◌, first, length,
}
use deployguardai.Prelude.Texts.{contains}
use deployguardai.Catalog.Graph.{
  DependencyGraph, out_of_fuel, has_key_id, keys, dependencies_of, values_of, visit_all, visit_node,
}
use deployguardai.Catalog.Cycles.{IsOrdered, Grows, visit_node-Visits, contains-cons}

-- The services that are neither on the path nor done.
abbrev pub fresh : (path done services : List String) → ℕ
fresh path done [] = 0
fresh path done (k ∷ ks) =
    (if contains path k || contains done k then 0 else 1) + fresh path done ks

fresh-cons_le :
    (v : String) (path done ks : List String) → fresh (v ∷ path) done ks ≤ fresh path done ks
fresh-cons_le v path done [] = omega arith
fresh-cons_le v path done (k ∷ ks) = ground (arith, fresh-cons_le v path done ks)

fresh-cons :
    (v : String) (path done ks : List String)
    → contains ks v ≡ true
    → contains path v ≡ false
    → contains done v ≡ false
    → fresh (v ∷ path) done ks < fresh path done ks
fresh-cons v path done [] h p d = cc
fresh-cons v path done (k ∷ ks) h p d = elim (Bool-cases (str_eq v k)) [
  | inr away ↦ let ih = fresh-cons v path done ks (rw away at h) p d in ground (arith, ih)
  | inl here ↦
      let e : v ≡ k = (eq_iff v k).0 here in
      let own : str_eq k v ≡ true = (eq_iff k v).1 (sym e) in
      let p' = subst (λ z. contains path z ≡ false) e p in
      let d' = subst (λ z. contains done z ≡ false) e d in
      rw (own, p', d') (omega (arith, fresh-cons_le v path done ks))
]

fresh-Grows :
    (path done done' ks : List String) → Grows done done' → fresh path done' ks ≤ fresh path done ks
fresh-Grows path done done' [] grows = omega arith
fresh-Grows path done done' (k ∷ ks) grows =
    ground (arith, fresh-Grows path done done' ks grows, grows k)

pub key-contains :
    (v : String) (g : DependencyGraph) {e : String × List String}
    → first (has_key_id v) g ≡ some e
    → contains (keys g) v ≡ true
unfolding first
key-contains v [] h = cc
key-contains v (x ∷ g) {e} h = elim (Bool-cases (str_eq x.0 v)) [
  | inl here ↦
      (let own : str_eq v x.0 ≡ true = (eq_iff v x.0).1 (sym ((eq_iff x.0 v).0 here)) in
        rw own refl)
  | inr away ↦ contains-cons x.0 v (keys g) (key-contains v g {e = e} (rw away at h))
]

pub fresh-length : (ks : List String) → fresh [] [] ks ≡ length ks
fresh-length [] = refl
fresh-length (k ∷ ks) = omega (arith, fresh-length ks)

module _ (g : DependencyGraph) where
  pub visit_all_has_fuel :
      (n : ℕ) (path vs done : List String)
      → ((v : String) (done : List String)
          → IsOrdered g done
          → fresh path done (keys g) < n
          → visit_node n g path v done ≡ raises out_of_fuel
          → ⊥)
      → IsOrdered g done
      → fresh path done (keys g) < n
      → visit_all (visit_node n g path) vs done ≡ raises out_of_fuel
      → ⊥
  unfolding visit_all
  visit_all_has_fuel n path [] done keep o f h = raises-ne-returns (sym h)
  visit_all_has_fuel n path (v ∷ vs) done keep o f h =
      elim (Outcome-cases (visit_node n g path v done)) [
        | inl (e, h') ↦ keep v done o f (h' ∙ rw h' at h)
        | inr (d, h') ↦
            let kept = visit_node-Visits g n path v done d o h' in
            visit_all_has_fuel n path vs d keep kept.ordered
              (omega (arith, f, fresh-Grows path done d (keys g) kept.grows)) (rw h' at h)
      ]

  leaf_returns :
      (n : ℕ) (path : List String) (v : String) (done : List String)
      → first (has_key_id v) g ≡ none
      → visit_all (visit_node n g path) (dependencies_of g v) done ≡ returns done
  unfolding visit_all dependencies_of
  leaf_returns n path v done e =
      subst (λ o. visit_all (visit_node n g path) (values_of o) done ≡ returns done) (sym e) refl

  pub visit_node_has_fuel :
      (n : ℕ) (path : List String) (v : String) (done : List String)
      → IsOrdered g done
      → fresh path done (keys g) < n
      → visit_node n g path v done ≡ raises out_of_fuel
      → ⊥
  unfolding visit_node
  visit_node_has_fuel zero path v done o f h = omega (arith, f)
  visit_node_has_fuel (suc n) path v done o f h = elim (Bool-cases (contains done v)) [
    | inl old ↦ raises-ne-returns (sym (rw old at h))
    | inr new ↦ elim (Bool-cases (contains path v)) [
      | inl loop ↦ (let h' = rw (new, loop) at h in ground arith)
      | inr free ↦
          let h' = rw (new, free) at h in
          elim (Outcome-cases (visit_all (visit_node n g (v ∷ path)) (dependencies_of g v) done)) [
            | inr (d, e) ↦ raises-ne-returns (sym (rw e at h'))
            | inl (x, e) ↦ elim (Option-cases (first (has_key_id v) g)) [
              | inl no_key ↦ raises-ne-returns (sym e ∙ leaf_returns n (v ∷ path) v done no_key)
              | inr (entry, key) ↦
                  visit_all_has_fuel n (v ∷ path) (dependencies_of g v) done
                    (visit_node_has_fuel n (v ∷ path)) o
                    (omega
                      (arith, f, fresh-cons v path done (keys g) (key-contains v g key) free new))
                    (e ∙ rw e at h')
            ]
          ]
    ]
  ]
