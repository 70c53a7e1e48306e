-- ===== src/Catalog/Sequence.antt =====
-- Sequences of `create_service` and `update_service` (backend/app/operations_services.py).
use Prim.Native.String.{String}
use deployguardai.Prelude.{
  ℕ, ◌≡◌, subst, sym, Bool, false, List, [], ◌∷◌, inl, inr, Outcome, returns, raises, Outcome-cases,
  first, is_some,
}
use deployguardai.Workspace.Store.{User}
use deployguardai.Catalog.Services.{
  ServiceTables, ServiceError, ServiceCreate, ServiceUpdate, is_service, create_service,
  update_service,
}
use deployguardai.Catalog.Kept.{AreAcyclic, create_service-IsAcyclic, update_service-IsAcyclic}

-- A request, at its time, and whether its commit conflicts.
pub data ServiceCall : Type 0 where
  create :
      (conflict : Bool) (now : ℕ) (fresh_id : String)
      → User
      → (workspace_id : String) → ServiceCreate
      → (request_id : String) → ServiceCall
  update :
      (conflict : Bool) (now : ℕ)
      → User
      → (service_id : String) → ServiceUpdate
      → (request_id : String) → ServiceCall

-- A call that raises commits nothing.
abbrev pub tables_behind {ℓ} :
    {A : Type ℓ} → ServiceTables → Outcome ServiceError (A × ServiceTables) → ServiceTables
tables_behind s (returns (_, s')) = s'
tables_behind s (raises _) = s

module _ (lower : String → String) where
  unfoldable pub perform_service : ServiceCall → ServiceTables → ServiceTables
  perform_service (create conflict now i u w p request) s =
      tables_behind s (create_service lower conflict now i u w p request s)
  perform_service (update conflict now u i p request) s =
      tables_behind s (update_service lower conflict now u i p request s)

  unfoldable pub perform_services : List ServiceCall → ServiceTables → ServiceTables
  perform_services [] s = s
  perform_services (c ∷ cs) s = perform_services cs (perform_service c s)

  -- `new_id` gives an id that no service has.
  abbrev pub DrawsNew : ServiceCall → ServiceTables → Type 0
  DrawsNew (create conflict now i u w p request) s =
      (w' : String) → is_some (first (is_service i w') s.services) ≡ false
  DrawsNew (update conflict now u i p request) s = Unit

  abbrev pub AllDrawNew : List ServiceCall → ServiceTables → Type 0
  AllDrawNew [] s = Unit
  AllDrawNew (c ∷ cs) s = DrawsNew c s × AllDrawNew cs (perform_service c s)

  perform_service-AreAcyclic :
      (c : ServiceCall) (s : ServiceTables)
      → DrawsNew c s
      → AreAcyclic s.services
      → AreAcyclic (perform_service c s).services
  unfolding perform_service
  perform_service-AreAcyclic (create conflict now i u w p request) s free a =
      elim (Outcome-cases (create_service lower conflict now i u w p request s)) [
        | inl (e, h) ↦ subst (λ m. AreAcyclic (tables_behind s m).services) (sym h) a
        | inr ((r, s'), h) ↦
            subst (λ m. AreAcyclic (tables_behind s m).services) (sym h)
              (create_service-IsAcyclic lower conflict now i u w p request s s' r free h a)
      ]
  perform_service-AreAcyclic (update conflict now u i p request) s free a =
      elim (Outcome-cases (update_service lower conflict now u i p request s)) [
        | inl (e, h) ↦ subst (λ m. AreAcyclic (tables_behind s m).services) (sym h) a
        | inr ((r, s'), h) ↦
            subst (λ m. AreAcyclic (tables_behind s m).services) (sym h)
              (update_service-IsAcyclic lower conflict now u i p request s s' r h a)
      ]

  -- Whatever services are created and changed, by whom and in whatever order, where new ids are new:
  -- if no service of any workspace depended on itself, directly or through others, none does.
  pub perform_services-AreAcyclic :
      (cs : List ServiceCall) (s : ServiceTables)
      → AllDrawNew cs s
      → AreAcyclic s.services
      → AreAcyclic (perform_services cs s).services
  unfolding perform_services
  perform_services-AreAcyclic [] s free a = a
  perform_services-AreAcyclic (c ∷ cs) s (new, free) a =
      perform_services-AreAcyclic cs (perform_service c s) free
        (perform_service-AreAcyclic c s new a)
