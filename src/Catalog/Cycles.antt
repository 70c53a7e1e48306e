-- ===== src/Catalog/Cycles.antt =====
-- Lemmas on the search for cycles of `_validate_service_dependencies`
-- (backend/app/operations_services.py).
use Prim.Native.String.{String}
use text.Mathlib.Text.{◌==◌ as str_eq}
use text.Mathlib.TextEquality.{eq_iff}
use deployguardai.Prelude.{
  ℕ, zero, suc, ◌≡◌, ◌≤◌, ◌<◌, refl, sym, ◌∙◌, subst, true, List, [], ◌∷◌, arith, inl, inr,
  Bool-cases, returns, raises, Outcome-cases, bind-returns, returns-injective, raises-ne-returns,
  if◌then◌else◌, length, All, All-weaken,
}
use deployguardai.Prelude.Texts.{contains}
use deployguardai.Catalog.Graph.{
  DependencyGraph, Visited, service_dependency_cycle, dependencies_of, visit_all, visit_node,
}

-- A chain of dependencies.
pub data Depends (g : DependencyGraph) : String → String → Type 0 where
  directly : (v w : String) → contains (dependencies_of g v) w ≡ true → Depends g v w
  through :
      (v w x : String) → contains (dependencies_of g v) w ≡ true → Depends g w x → Depends g v x

-- Every service comes before those that it depends on, which all are there.
abbrev pub IsOrdered : DependencyGraph → List String → Type 0
IsOrdered g [] = Unit
IsOrdered g (v ∷ vs) = All (λ d. contains vs d ≡ true) (dependencies_of g v) × IsOrdered g vs

abbrev pub Grows : (xs ys : List String) → Type 0
Grows xs ys = (x : String) → contains xs x ≡ true → contains ys x ≡ true

-- What a visit that returns leaves of `done`.
pub record Visits (g : DependencyGraph) (vs done done' : List String) : Type 0 where
  pub ordered : IsOrdered g done'
  pub there : All (λ v. contains done' v ≡ true) vs
  pub grows : Grows done done'

contains_self : (v : String) (vs : List String) → contains (v ∷ vs) v ≡ true
contains_self v vs = rw ((eq_iff v v).1 refl) refl

pub contains-cons :
    (x v : String) (vs : List String) → contains vs v ≡ true → contains (x ∷ vs) v ≡ true
contains-cons x v vs h = ground (arith, h)

module _ (g : DependencyGraph) where
  pub visit_all-Visits :
      (f : String → List String → Visited)
      → ((v : String) (done done' : List String)
          → IsOrdered g done
          → f v done ≡ returns done'
          → Visits g (v ∷ []) done done')
      → (vs done done' : List String) → IsOrdered g done
      → visit_all f vs done ≡ returns done'
      → Visits g vs done done'
  unfolding visit_all
  visit_all-Visits f keep [] done done' o h =
      subst (Visits g [] done) (returns-injective h)
        (record { ordered = o; there = tt; grows = λ x k. k })
  visit_all-Visits f keep (v ∷ vs) done done' o h =
      let (d1, e, h') = bind-returns (f v done) _ h in
      let first_one = keep v done d1 o e in
      let rest = visit_all-Visits f keep vs d1 done' first_one.ordered h' in
      record {
        ordered = rest.ordered;
        there = (rest.grows v first_one.there.0, rest.there);
        grows = λ x k. rest.grows x (first_one.grows x k);
      }

  pub visit_node-Visits :
      (n : ℕ) (path : List String) (v : String) (done done' : List String)
      → IsOrdered g done
      → visit_node n g path v done ≡ returns done'
      → Visits g (v ∷ []) done done'
  unfolding visit_node
  visit_node-Visits zero path v done done' o h = absurd (raises-ne-returns h)
  visit_node-Visits (suc n) path v done done' o h = elim (Bool-cases (contains done v)) [
    | inl old ↦
        subst (Visits g (v ∷ []) done) (returns-injective (rw old at h))
          (record { ordered = o; there = (old, tt); grows = λ x k. k })
    | inr new ↦ elim (Bool-cases (contains path v)) [
      | inl loop ↦ absurd (raises-ne-returns (rw (new, loop) at h))
      | inr free ↦
          let (d1, e, h') =
            bind-returns (visit_all (visit_node n g (v ∷ path)) (dependencies_of g v) done)
              (λ d. returns (v ∷ d)) (rw (new, free) at h) in
          let below =
            visit_all-Visits (visit_node n g (v ∷ path)) (visit_node-Visits n (v ∷ path))
              (dependencies_of g v) done d1 o e in
          subst (Visits g (v ∷ []) done) (returns-injective h') (record {
            ordered = (below.there, below.ordered);
            there = (contains_self v d1, tt);
            grows = λ x k. contains-cons v x d1 (below.grows x k);
          })
    ]
  ]

  -- How far from the end of an ordered list a service stands.
  rank : String → List String → ℕ
  rank v [] = 0
  rank v (x ∷ xs) = if contains xs v then rank v xs else suc (length xs)

  rank-le : (v : String) (xs : List String) → rank v xs ≤ length xs
  unfolding rank
  rank-le v [] = omega arith
  rank-le v (x ∷ xs) = ground (arith, rank-le v xs)

  All-contains :
      (xs vs : List String) (d : String)
      → All (λ x. contains vs x ≡ true) xs
      → contains xs d ≡ true
      → contains vs d ≡ true
  All-contains [] vs d a h = cc
  All-contains (x ∷ xs) vs d (p, a) h = elim (Bool-cases (str_eq d x)) [
    | inl e ↦ subst (λ z. contains vs z ≡ true) (sym ((eq_iff d x).0 e)) p
    | inr e ↦ All-contains xs vs d a (rw e at h)
  ]

  -- A dependency stands later.
  ordered-rank :
      (done : List String) (v d : String)
      → IsOrdered g done
      → contains done v ≡ true
      → contains (dependencies_of g v) d ≡ true
      → (rank d done < rank v done) × (contains done d ≡ true)
  unfolding rank
  ordered-rank [] v d o h k = cc
  ordered-rank (x ∷ xs) v d (a, o) h k = elim (Bool-cases (contains xs v)) [
    | inl later ↦
        let (r, c) = ordered-rank xs v d o later k in
        let less : rank d (x ∷ xs) < rank v (x ∷ xs) = rw (later, c) r in
        (less, contains-cons x d xs c)
    | inr own ↦
        let e : v ≡ x = (eq_iff v x).0 (ground (arith, h, own)) in
        let c =
          All-contains (dependencies_of g x) xs d a
            (subst (λ z. contains (dependencies_of g z) d ≡ true) e k) in
        let less : rank d (x ∷ xs) < rank v (x ∷ xs) = rw (own, c) (omega (arith, rank-le d xs)) in
        (less, contains-cons x d xs c)
  ]

  chain-rank :
      (done : List String) (v w : String)
      → IsOrdered g done
      → contains done v ≡ true
      → Depends g v w
      → rank w done < rank v done
  chain-rank done _ _ o h (directly v w k) = (ordered-rank done v w o h k).0
  chain-rank done _ _ o h (through v w x k rest) =
      let (r, c) = ordered-rank done v w o h k in omega (arith, r, chain-rank done w x o c rest)

  -- An order of all services rules cycles out.
  pub ordered-acyclic :
      (done : List String) (v : String)
      → IsOrdered g done
      → contains done v ≡ true
      → Depends g v v
      → ⊥
  ordered-acyclic done v o h c = omega (arith, chain-rank done v v o h c)

  Depends-snoc :
      (a v w : String) → Depends g a v → contains (dependencies_of g v) w ≡ true → Depends g a w
  Depends-snoc _ _ w (directly a v k) h = through a v w k (directly v w h)
  Depends-snoc _ _ w (through a b v k rest) h = through a b w k (Depends-snoc b v w rest h)

  abbrev pub Loops : Type 0
  Loops = (v : String) × Depends g v v

  pub All-found :
      (P : String → Type 0) (vs : List String) (v : String) → All P vs → contains vs v ≡ true → P v
  All-found P [] v a h = cc
  All-found P (x ∷ xs) v (p, a) h = elim (Bool-cases (str_eq v x)) [
    | inl e ↦ subst P (sym ((eq_iff v x).0 e)) p
    | inr e ↦ All-found P xs v a (rw e at h)
  ]

  pub All-self : (vs : List String) → All (λ d. contains vs d ≡ true) vs
  All-self [] = tt
  All-self (x ∷ xs) =
      (contains_self x xs, All-weaken _ _ xs (λ d h. contains-cons x d xs h) (All-self xs))

  pub visit_all-Loops :
      (f : String → List String → Visited) (vs done : List String)
      → All (λ v. (done : List String) → f v done ≡ raises service_dependency_cycle → Loops) vs
      → visit_all f vs done ≡ raises service_dependency_cycle
      → Loops
  unfolding visit_all
  visit_all-Loops f [] done keep h = absurd (raises-ne-returns (sym h))
  visit_all-Loops f (v ∷ vs) done (k, keep) h = elim (Outcome-cases (f v done)) [
    | inl (e, h') ↦ k done (h' ∙ rw h' at h)
    | inr (d, h') ↦ visit_all-Loops f vs d keep (rw h' at h)
  ]

  -- Where a visit finds a cycle, there is one.
  pub visit_node-Loops :
      (n : ℕ) (path : List String) (v : String) (done : List String)
      → All (λ a. Depends g a v) path
      → visit_node n g path v done ≡ raises service_dependency_cycle
      → Loops
  unfolding visit_node
  visit_node-Loops zero path v done a h = ground arith
  visit_node-Loops (suc n) path v done a h = elim (Bool-cases (contains done v)) [
    | inl old ↦ absurd (raises-ne-returns (sym (rw old at h)))
    | inr new ↦ elim (Bool-cases (contains path v)) [
      | inl loop ↦ (v, All-found (λ x. Depends g x v) path v a loop)
      | inr free ↦
          let h' = rw (new, free) at h in
          elim (Outcome-cases (visit_all (visit_node n g (v ∷ path)) (dependencies_of g v) done)) [
            | inr (d, e) ↦ absurd (raises-ne-returns (sym (rw e at h')))
            | inl (x, e) ↦
                visit_all-Loops (visit_node n g (v ∷ path)) (dependencies_of g v) done
                  (All-weaken _ _ (dependencies_of g v)
                    (λ d k done.
                      visit_node-Loops n (v ∷ path) d done
                        (directly v d k, All-weaken _ _ path (λ b c. Depends-snoc b v d c k) a))
                    (All-self (dependencies_of g v)))
                  (e ∙ rw e at h')
          ]
    ]
  ]
