-- ===== src/Catalog/Kept.antt =====
-- New and changed services, and the cycles among the services of every workspace
-- (backend/app/operations_services.py).
use Prim.Native.String.{String}
use text.Mathlib.Text.{◌==◌ as str_eq}
use text.Mathlib.TextEquality.{eq_iff}
use mathlib.Core.Bool.{true≢false}
use deployguardai.Prelude.{
  ℕ, ◌≡◌, refl, sym, ◌∙◌, ap, subst, Bool, true, false, ◌&&◌, Option, none, some, List, [], ◌∷◌,
  ◌++◌, arith, inl, inr, Bool-cases, Option-cases, Outcome-cases, Outcome, Done, returns, raises,
  bind-returns, seq-returns, returns-injective, raises-ne-returns, raise_if, first, first-witness,
  is_some, or_else, update_where,
}
use deployguardai.Workspace.Store.{admin, User}
use deployguardai.Workspace.Access.{membership_for}
use deployguardai.Catalog.Graph.{
  ServiceRow, DependencyError, dependencies_of, graph_of, validate_service_dependencies,
}
use deployguardai.Catalog.Accepted.{
  IsAcyclic, requested, Decides, is_accepted, is_own, has_unknown, is_cyclic,
  validate_service_dependencies-Decides,
}
use deployguardai.Catalog.Services.{
  ServiceTables, by_access, by_dependencies, service_slug_exists, with_error, ServiceCreate,
  ServiceUpdate, repository_for_workspace, create_service, changed_service, checked_repository,
  checked_dependencies, is_service, update_found_service, update_service,
}
use deployguardai.Catalog.Shapes.{
  same-IsAcyclic, dependencies_of-set, graph-untouched, graph-changed, graph-new,
}

-- No service of any workspace depends on itself, directly or through others.
abbrev pub AreAcyclic : List ServiceRow → Type 0
AreAcyclic rows = (w : String) → IsAcyclic (graph_of w rows)

abbrev AcceptedIsAcyclic :
    (w v : String) (ds : List String) → List ServiceRow → Outcome DependencyError Done → Type 0
AcceptedIsAcyclic w v ds rows (returns _) = IsAcyclic (requested w v ds rows)
AcceptedIsAcyclic w v ds rows (raises _) = Unit

decided :
    (w v : String) (ds : List String) (rows : List ServiceRow) {m : Outcome DependencyError Done}
    → Decides w v ds rows m
    → AcceptedIsAcyclic w v ds rows m
decided w v ds rows (is_accepted a b c) = c
decided w v ds rows (is_own _) = tt
decided w v ds rows (has_unknown _) = tt
decided w v ds rows (is_cyclic _) = tt

accepted-IsAcyclic :
    (w v : String) (ds : List String) (rows : List ServiceRow) {d : Done}
    → with_error by_dependencies (validate_service_dependencies w v ds rows) ≡ returns d
    → IsAcyclic (requested w v ds rows)
accepted-IsAcyclic w v ds rows h =
    let known = decided w v ds rows (validate_service_dependencies-Decides w v ds rows) in
    elim (Outcome-cases (validate_service_dependencies w v ds rows)) [
      | inl (e, k) ↦ absurd (raises-ne-returns (sym (ap (with_error by_dependencies) k) ∙ h))
      | inr (d, k) ↦ subst (AcceptedIsAcyclic w v ds rows) k known
    ]

created-IsAcyclic :
    (r : ServiceRow) (rows : List ServiceRow)
    → AreAcyclic rows
    → ((w : String) → is_some (first (is_service r.id w) rows) ≡ false)
    → IsAcyclic (requested r.workspace_id r.id r.dependencies rows)
    → AreAcyclic (rows ++ r ∷ [])
created-IsAcyclic r rows a free accepted w = elim (Bool-cases (str_eq r.workspace_id w)) [
  | inr away ↦
      same-IsAcyclic (graph_of w rows) (graph_of w (rows ++ r ∷ []))
        (λ v.
          graph-new w v rows r free
          ∙ elim (Bool-cases (str_eq r.id v)) [ inl e ↦ rw (e, away) refl | inr e ↦ rw e refl ])
        (a w)
  | inl here ↦
      let e = (eq_iff r.workspace_id w).0 here in
      subst (λ z. IsAcyclic (graph_of z (rows ++ r ∷ []))) e
        (same-IsAcyclic (requested r.workspace_id r.id r.dependencies rows)
          (graph_of r.workspace_id (rows ++ r ∷ []))
          (λ v.
            let own = (eq_iff r.workspace_id r.workspace_id).1 refl in
            graph-new r.workspace_id v rows r free
            ∙ (elim (Bool-cases (str_eq r.id v)) [ inl k ↦ rw (k, own) refl | inr k ↦ rw k refl ]
                ∙ sym (dependencies_of-set r.id r.dependencies (graph_of r.workspace_id rows) v)))
          accepted)
]

-- A new service, with an id that no service has, leaves the dependencies of every workspace without
-- cycles where they were so before.
pub create_service-IsAcyclic :
    (lower : String → String) (conflict : Bool) (now : ℕ) (i : String) (u : User) (w : String)
    (p : ServiceCreate) (request : String) (s s' : ServiceTables) (r : ServiceRow)
    → ((w' : String) → is_some (first (is_service i w') s.services) ≡ false)
    → create_service lower conflict now i u w p request s ≡ returns (r, s')
    → AreAcyclic s.services
    → AreAcyclic s'.services
unfolding create_service
create_service-IsAcyclic lower conflict now i u w p request s s' r free h a =
    let (m, _, h1) = bind-returns (with_error by_access (membership_for u.id w admin s.base)) _ h in
    let (_, h2) = seq-returns (raise_if _ service_slug_exists) _ h1 in
    let (_, h3) = seq-returns (repository_for_workspace w p.repository_id s.repositories) _ h2 in
    let (accepted, h4) =
      seq-returns
        (with_error by_dependencies (validate_service_dependencies w i p.dependencies s.services)) _
        h3 in
    let (_, h5) = seq-returns (raise_if conflict service_slug_exists) _ h4 in
    let e = ap (λ (t : ServiceRow × ServiceTables). t.1.services) (returns-injective h5) in
    subst AreAcyclic e (
      created-IsAcyclic _ s.services a free
        (accepted-IsAcyclic w i p.dependencies s.services accepted))

module _ (r : ServiceRow) (rows : List ServiceRow) (f : ServiceRow → ServiceRow)
    (keep : (v w : String) (x : ServiceRow) → is_service v w (f x) ≡ is_service v w x)
    (a : AreAcyclic rows) where
  abbrev behind : List ServiceRow
  behind = update_where (is_service r.id r.workspace_id) f rows

  left-IsAcyclic : ((x : ServiceRow) → (f x).dependencies ≡ x.dependencies) → AreAcyclic behind
  left-IsAcyclic same w =
      same-IsAcyclic (graph_of w rows) (graph_of w behind)
        (λ v.
          graph-untouched w v (is_service r.id r.workspace_id) f rows (keep v w) (λ x _ _. same x))
        (a w)

  -- No other service is changed.
  other_untouched :
      (w v : String)
      → is_service v w r ≡ false
      → dependencies_of (graph_of w behind) v ≡ dependencies_of (graph_of w rows) v
  other_untouched w v other =
      graph-untouched w v (is_service r.id r.workspace_id) f rows (keep v w) (λ x hit own.
        let e = (eq_iff x.id r.id).0 (ground (arith, hit)) in
        let e' = (eq_iff x.workspace_id r.workspace_id).0 (ground (arith, hit)) in
        let k = subst (λ z. (str_eq z v && str_eq x.workspace_id w) ≡ true) e own in
        let k' = subst (λ z. (str_eq r.id v && str_eq z w) ≡ true) e' k in
        absurd (true≢false (sym k' ∙ other)))

  set-IsAcyclic :
      (ds : List String)
      → ((x : ServiceRow) → (f x).dependencies ≡ ds)
      → is_some (first (is_service r.id r.workspace_id) rows) ≡ true
      → IsAcyclic (requested r.workspace_id r.id ds rows)
      → AreAcyclic behind
  set-IsAcyclic ds sets there accepted w = elim (Bool-cases (str_eq r.workspace_id w)) [
    | inr away ↦
        same-IsAcyclic (graph_of w rows) (graph_of w behind)
          (λ v. other_untouched w v (ground (arith, away))) (a w)
    | inl here ↦
        let e = (eq_iff r.workspace_id w).0 here in
        subst (λ z. IsAcyclic (graph_of z behind)) e
          (same-IsAcyclic (requested r.workspace_id r.id ds rows) (graph_of r.workspace_id behind)
            (λ v. elim (Bool-cases (str_eq r.id v)) [
              | inr k ↦
                  other_untouched r.workspace_id v (ground (arith, k))
                  ∙ sym (dependencies_of-set r.id ds (graph_of r.workspace_id rows) v ∙ rw k refl)
              | inl k ↦
                  let same = (eq_iff r.id v).0 k in
                  subst (λ z. dependencies_of (graph_of r.workspace_id behind) z ≡ ds) same
                    (graph-changed r.workspace_id r.id (is_service r.id r.workspace_id) f rows ds
                      (keep r.id r.workspace_id) (λ x h. h) sets there)
                  ∙ sym (dependencies_of-set r.id ds (graph_of r.workspace_id rows) v ∙ rw k refl)
            ])
            accepted)
  ]

updated-IsAcyclic :
    (lower : String → String) (now : ℕ) (p : ServiceUpdate) (ds : Option (List String))
    (r : ServiceRow) (rows : List ServiceRow)
    → p.dependencies ≡ ds
    → AreAcyclic rows
    → is_some (first (is_service r.id r.workspace_id) rows) ≡ true
    → {d : Done} → checked_dependencies r ds rows ≡ returns d
    → AreAcyclic (update_where (is_service r.id r.workspace_id) (changed_service lower now p) rows)
unfolding changed_service
updated-IsAcyclic lower now p none r rows e a there h =
    left-IsAcyclic r rows (changed_service lower now p) (λ v w x. refl) a
      (λ x. ap (λ o. or_else o x.dependencies) e)
updated-IsAcyclic lower now p (some ds) r rows e a there h =
    set-IsAcyclic r rows (changed_service lower now p) (λ v w x. refl) a ds
      (λ x. ap (λ o. or_else o x.dependencies) e) there
      (accepted-IsAcyclic r.workspace_id r.id ds rows h)

-- A changed service leaves the dependencies of every workspace without cycles where they were so
-- before.
pub update_service-IsAcyclic :
    (lower : String → String) (conflict : Bool) (now : ℕ) (u : User) (i : String)
    (p : ServiceUpdate) (request : String) (s s' : ServiceTables) (r : ServiceRow)
    → update_service lower conflict now u i p request s ≡ returns (r, s')
    → AreAcyclic s.services
    → AreAcyclic s'.services
unfolding update_service update_found_service
update_service-IsAcyclic lower conflict now u i p request s s' r' h a =
    elim (Option-cases (first (λ (x : ServiceRow). str_eq x.id i) s.services)) [
      | inl none_there ↦ absurd (raises-ne-returns (rw (none_there, update_found_service) at h))
      | inr (r, found) ↦
          let own : is_service r.id r.workspace_id r ≡ true =
            rw ((eq_iff r.id r.id).1 refl, (eq_iff r.workspace_id r.workspace_id).1 refl) refl in
          let there =
            first-witness (λ (x : ServiceRow). str_eq x.id i) (is_service r.id r.workspace_id)
              s.services found own in
          let h0 =
            subst (λ o. update_found_service lower conflict now u p request s o ≡ returns (r', s'))
              found h in
          let (m, _, h1) =
            bind-returns (with_error by_access (membership_for u.id r.workspace_id admin s.base)) _
              h0 in
          let (_, h2) = seq-returns (raise_if _ service_slug_exists) _ h1 in
          let (_, h3) = seq-returns (checked_repository r p.repository_id s.repositories) _ h2 in
          let (accepted, h4) =
            seq-returns (checked_dependencies r p.dependencies s.services) _ h3 in
          let (_, h5) = seq-returns (raise_if conflict service_slug_exists) _ h4 in
          let e = ap (λ (t : ServiceRow × ServiceTables). t.1.services) (returns-injective h5) in
          subst AreAcyclic e
            (updated-IsAcyclic lower now p p.dependencies r s.services refl a there accepted)
    ]
