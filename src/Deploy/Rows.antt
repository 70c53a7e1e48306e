-- ===== src/Deploy/Rows.antt =====
-- The rows that a deployment is matched with, `_matched_change` and `_service_ids` of
-- backend/app/deployment_services.py.
use Prim.Native.String.{String}
use text.Mathlib.Text.{◌==◌ as str_eq}
use deployguardai.Prelude.{
  ℕ, Bool, false, not, ◌&&◌, Option, none, some, List, [], ◌∷◌, map, select, first, ltb, leb, ◌==◌,
  if◌then◌else◌, is_empty,
}
use deployguardai.Prelude.Codes.{codes, lower}
use deployguardai.Prelude.Texts.{contains, str_leb}
use deployguardai.Prelude.Sort.{sort}
use deployguardai.Workspace.Store.{AuditEvent}
use deployguardai.Incident.Status.{same_codes}
use deployguardai.Deploy.Payload.{DeploymentStatus}

pub record ChangeRecord : Type 0 where
  pub id : String
  pub workspace_id : String
  pub repository_id : String
  pub commit_sha : Option String
  pub changed_services : List String
  pub deployment_environment : Option String
  pub deployment_status : Option String
  pub created_at : ℕ

pub record CatalogEntry : Type 0 where
  pub id : String
  pub workspace_id : String
  pub repository_id : String

pub record DeploymentRecord : Type 0 where
  pub id : String
  pub workspace_id : String
  pub repository_id : String
  pub change_id : Option String
  pub provider_deployment_id : String
  pub environment : String
  pub commit_sha : Option String
  pub ref : Option String
  pub status : DeploymentStatus
  pub provider_url : Option String
  pub service_ids : List String
  pub last_delivery_id : String
  pub last_event_id : String
  pub provider_created_at : ℕ
  pub provider_updated_at : ℕ
  pub finished_at : Option ℕ
  pub version : ℕ
  pub created_at : ℕ
  pub updated_at : ℕ

pub record DeploymentTables : Type 0 where
  pub deployments : List DeploymentRecord
  pub changes : List ChangeRecord
  pub catalog : List CatalogEntry
  pub events : List AuditEvent

abbrev pub same_sha : (commit_sha : String) → Option String → Bool
same_sha sha none = false
same_sha sha (some t) = same_codes (lower (codes t)) (lower (codes sha))

-- `order_by(created_at.desc(), id.desc())`
abbrev pub newest_first : ChangeRecord → ChangeRecord → Bool
newest_first c d =
    if not (c.created_at == d.created_at) then ltb d.created_at c.created_at else str_leb d.id c.id

abbrev pub is_candidate : (workspace_id repository_id commit_sha : String) → ChangeRecord → Bool
is_candidate w r sha c =
    str_eq c.workspace_id w && str_eq c.repository_id r && same_sha sha c.commit_sha

-- `_matched_change`
unfoldable pub matched_change :
    (workspace_id repository_id : String)
    → Option String
    → (occurred_at : ℕ) → List ChangeRecord
    → Option ChangeRecord
matched_change w r none time changes = none
matched_change w r (some sha) time changes =
    first (λ c. leb c.created_at time) (sort newest_first (select (is_candidate w r sha) changes))

-- `list(dict.fromkeys(keys))`, with the keys that were seen before.
unfoldable pub distinct_after : (seen : List String) → List String → List String
distinct_after seen [] = []
distinct_after seen (v ∷ vs) =
    if contains seen v then distinct_after seen vs else v ∷ distinct_after (v ∷ seen) vs

abbrev pub services_of : Option ChangeRecord → List String
services_of none = []
services_of (some c) = c.changed_services

-- `_service_ids`
unfoldable pub service_ids :
    (workspace_id repository_id : String) → Option ChangeRecord → List CatalogEntry → List String
service_ids w r change catalog =
    let own =
      select (λ (e : CatalogEntry). str_eq e.workspace_id w && str_eq e.repository_id r) catalog in
    let by_id = sort str_leb (map (λ (e : CatalogEntry). e.id) own) in
    let changed = select (contains by_id) (services_of change) in
    distinct_after [] (if is_empty changed then by_id else changed)
