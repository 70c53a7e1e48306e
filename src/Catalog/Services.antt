-- ===== src/Catalog/Services.antt =====
-- `create_service` and `update_service` of backend/app/operations_services.py. `lower` is `str.lower`,
-- and `conflict` tells that the commit violates the unique key of the slugs.
use Prim.Native.String.{String}
use text.Mathlib.Text.{◌==◌ as str_eq}
use deployguardai.Prelude.{
  ℕ, Bool, false, not, ◌&&◌, Option, none, some, List, [], ◌∷◌, ◌++◌, first, update_where, is_some,
  or_else, Outcome, Done, returns, raises, raise_if, ◌>>=◌, ◌>>◌,
}
use deployguardai.Prelude.Texts.{strip}
use deployguardai.Workspace.Store.{admin, User, Store, DomainError}
use deployguardai.Workspace.Access.{membership_for, audit}
use deployguardai.Catalog.Graph.{ServiceRow, DependencyError, validate_service_dependencies}

pub record RepositoryRow : Type 0 where
  pub id : String
  pub workspace_id : String

pub record ServiceTables : Type 0 where
  pub base : Store
  pub services : List ServiceRow
  pub repositories : List RepositoryRow

pub data ServiceError : Type 0 where
  by_access : DomainError → ServiceError
  by_dependencies : DependencyError → ServiceError
  service_slug_exists repository_not_found service_not_found : ServiceError

abbrev pub with_error {ℓ} : {E F : Type 0} {A : Type ℓ} → (E → F) → Outcome E A → Outcome F A
with_error f (returns a) = returns a
with_error f (raises e) = raises (f e)

-- `_repository_for_workspace`
unfoldable pub repository_for_workspace :
    (workspace_id : String) → Option String → List RepositoryRow → Outcome ServiceError Done
repository_for_workspace w none rows = returns tt
repository_for_workspace w (some r) rows =
    let found = first (λ (x : RepositoryRow). str_eq x.id r && str_eq x.workspace_id w) rows in
    raise_if (not (is_some found)) repository_not_found

pub record ServiceCreate : Type 0 where
  pub name : String
  pub slug : String
  pub description : String
  pub tier : String
  pub lifecycle : String
  pub owner_team : String
  pub repository_id : Option String
  pub dependencies : List String
  pub runbook_url : Option String
  pub tags : List String

abbrev pub has_slug : (workspace_id slug : String) → ServiceRow → Bool
has_slug w slug r = str_eq r.workspace_id w && str_eq r.slug slug

abbrev pub new_service : (id workspace_id slug : String) (now : ℕ) → ServiceCreate → ServiceRow
new_service i w slug now p = record {
  id = i;
  workspace_id = w;
  name = strip p.name;
  slug = slug;
  description = strip p.description;
  tier = p.tier;
  lifecycle = p.lifecycle;
  owner_team = strip p.owner_team;
  repository_id = p.repository_id;
  dependencies = p.dependencies;
  runbook_url = p.runbook_url;
  tags = p.tags;
  created_at = now;
  updated_at = now;
}

abbrev pub recorded :
    User → (workspace_id action service_id request_id : String) (now : ℕ) → Store → Store
recorded u w action i request now s = record s {
  events = audit w (some u.id) action i request now s.events;
}

unfoldable pub create_service :
    (lower : String → String) (conflict : Bool) (now : ℕ) (fresh_id : String)
    → User
    → (workspace_id : String) → ServiceCreate
    → (request_id : String) → ServiceTables
    → Outcome ServiceError (ServiceRow × ServiceTables)
create_service lower conflict now i u w p request s = do
  caller ← with_error by_access (membership_for u.id w admin s.base)
  let slug = lower (strip p.slug)
  let row = new_service i w slug now p
  raise_if (is_some (first (has_slug w slug) s.services)) service_slug_exists
  repository_for_workspace w p.repository_id s.repositories
  with_error by_dependencies (validate_service_dependencies w i p.dependencies s.services)
  raise_if conflict service_slug_exists
  returns (
    row,
    record s {
      services = s.services ++ row ∷ [];
      base = recorded u w "service.created" i request now s.base;
    },
  )

-- `ServiceUpdate`: a field that is not set is `none`; two fields may be set to nothing.
pub record ServiceUpdate : Type 0 where
  pub name : Option String
  pub slug : Option String
  pub description : Option String
  pub tier : Option String
  pub lifecycle : Option String
  pub owner_team : Option String
  pub repository_id : Option (Option String)
  pub dependencies : Option (List String)
  pub runbook_url : Option (Option String)
  pub tags : Option (List String)

abbrev pub stripped_or : Option String → String → String
stripped_or none old = old
stripped_or (some t) old = strip t

unfoldable pub changed_service :
    (lower : String → String) (now : ℕ) → ServiceUpdate → ServiceRow → ServiceRow
changed_service lower now p r = record r {
  name = stripped_or p.name r.name;
  slug = elim p.slug [ none ↦ r.slug | some t ↦ lower (strip t) ];
  description = stripped_or p.description r.description;
  tier = or_else p.tier r.tier;
  lifecycle = or_else p.lifecycle r.lifecycle;
  owner_team = stripped_or p.owner_team r.owner_team;
  repository_id = or_else p.repository_id r.repository_id;
  dependencies = or_else p.dependencies r.dependencies;
  runbook_url = or_else p.runbook_url r.runbook_url;
  tags = or_else p.tags r.tags;
  updated_at = now;
}

abbrev pub is_slug_taken :
    (lower : String → String) → ServiceRow → Option String → List ServiceRow → Bool
is_slug_taken lower r none rows = false
is_slug_taken lower r (some t) rows = is_some (
    first
      (λ (x : ServiceRow). has_slug r.workspace_id (lower (strip t)) x && not (str_eq x.id r.id))
      rows)

abbrev pub checked_repository :
    ServiceRow → Option (Option String) → List RepositoryRow → Outcome ServiceError Done
checked_repository r none rows = returns tt
checked_repository r (some i) rows = repository_for_workspace r.workspace_id i rows

abbrev pub checked_dependencies :
    ServiceRow → Option (List String) → List ServiceRow → Outcome ServiceError Done
checked_dependencies r none rows = returns tt
checked_dependencies r (some ds) rows =
    with_error by_dependencies (validate_service_dependencies r.workspace_id r.id ds rows)

-- The row with the primary key of `r`, in its workspace.
abbrev pub is_service : (service_id workspace_id : String) → ServiceRow → Bool
is_service i w x = str_eq x.id i && str_eq x.workspace_id w

-- Behind `session.get`.
unfoldable pub update_found_service :
    (lower : String → String) (conflict : Bool) (now : ℕ)
    → User
    → ServiceUpdate
    → (request_id : String) → ServiceTables
    → Option ServiceRow
    → Outcome ServiceError (ServiceRow × ServiceTables)
update_found_service lower conflict now u p request s none = raises service_not_found
update_found_service lower conflict now u p request s (some r) = do
  caller ← with_error by_access (membership_for u.id r.workspace_id admin s.base)
  raise_if (is_slug_taken lower r p.slug s.services) service_slug_exists
  checked_repository r p.repository_id s.repositories
  checked_dependencies r p.dependencies s.services
  raise_if conflict service_slug_exists
  returns (
    changed_service lower now p r,
    record s {
      services =
          update_where (is_service r.id r.workspace_id) (changed_service lower now p) s.services;
      base = recorded u r.workspace_id "service.updated" r.id request now s.base;
    },
  )

unfoldable pub update_service :
    (lower : String → String) (conflict : Bool) (now : ℕ)
    → User
    → (service_id : String) → ServiceUpdate
    → (request_id : String) → ServiceTables
    → Outcome ServiceError (ServiceRow × ServiceTables)
update_service lower conflict now u i p request s =
    update_found_service lower conflict now u p request s
      (first (λ (r : ServiceRow). str_eq r.id i) s.services)
