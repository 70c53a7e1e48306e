-- ===== src/Deploy/Upsert.antt =====
-- `upsert_github_deployment` of backend/app/deployment_services.py. Where a commit fails for the
-- unique key, the rows that the other session left are an argument. The row that a query for the
-- unique key has found is the one with that key.
use Prim.Native.String.{String}
use text.Mathlib.Text.{◌==◌ as str_eq}
use deployguardai.Prelude.{
  ℕ, suc, Bool, not, ◌&&◌, ◌||◌, Option, none, some, List, [], ◌∷◌, ◌++◌, ltb, if◌then◌else◌, first,
  update_where, is_some, is_empty,
}
use deployguardai.Prelude.Texts.{str_append}
use deployguardai.Workspace.Access.{audit}
use deployguardai.Deploy.Payload.{Payload, Reading, is_final, legacy_status, read_payload}
use deployguardai.Deploy.Rows.{
  ChangeRecord, DeploymentRecord, DeploymentTables, matched_change, service_ids,
}

-- What a call is given besides the payload, and what it draws from outside.
pub record Delivery : Type 0 where
  pub workspace_id : String
  pub repository_id : String
  pub delivery_id : String
  pub event_id : String
  pub event_time : ℕ
  pub now : ℕ
  pub fresh_id : String

pub data DeploymentError : Type 0 where
  deployment_identity_mismatch integrity_error : DeploymentError

-- What one attempt does: there is no deployment, the record stays as it is, it is refused, or the
-- rows with the record are to be committed.
pub data Attempt : Type 0 where
  no_deployment : Attempt
  unchanged : DeploymentRecord → Attempt
  refused : DeploymentError → Attempt
  writes : DeploymentRecord → DeploymentTables → Attempt

-- The unique key `uq_deployment_workspace_provider_identity`.
abbrev pub has_identity : (workspace_id provider_deployment_id : String) → DeploymentRecord → Bool
has_identity w p d = str_eq d.workspace_id w && str_eq d.provider_deployment_id p

-- `new or old` on values that may be absent
abbrev pub updated_or : Option String → Option String → Option String
updated_or none old = old
updated_or (some new) old = some new

abbrev pub change_id_of : Option ChangeRecord → Option String
change_id_of none = none
change_id_of (some c) = some c.id

module _ (v : Delivery) (g : Reading) (change : Option ChangeRecord) (services : List String) where
  unfoldable pub finished : Option ℕ
  finished = if is_final g.status then some g.provider_updated_at else none

  unfoldable pub new_deployment : DeploymentRecord
  new_deployment = record {
    id = v.fresh_id;
    workspace_id = v.workspace_id;
    repository_id = v.repository_id;
    change_id = change_id_of change;
    provider_deployment_id = g.provider_deployment_id;
    environment = g.environment;
    commit_sha = g.commit_sha;
    ref = g.ref;
    status = g.status;
    provider_url = g.provider_url;
    service_ids = services;
    last_delivery_id = v.delivery_id;
    last_event_id = v.event_id;
    provider_created_at = g.provider_created_at;
    provider_updated_at = g.provider_updated_at;
    finished_at = finished;
    version = 1;
    created_at = v.now;
    updated_at = v.now;
  }

  unfoldable pub refresh : DeploymentRecord → DeploymentRecord
  refresh d = record d {
    change_id = updated_or (change_id_of change) d.change_id;
    environment = g.environment;
    commit_sha = updated_or g.commit_sha d.commit_sha;
    ref = updated_or g.ref d.ref;
    status = g.status;
    provider_url = updated_or g.provider_url d.provider_url;
    service_ids = if is_empty services then d.service_ids else services;
    last_event_id = v.event_id;
    provider_updated_at = g.provider_updated_at;
    finished_at = finished;
    version = suc d.version;
    last_delivery_id = v.delivery_id;
    updated_at = v.now;
  }

-- The matched change shows the deployment.
unfoldable pub mark_change : Reading → Option ChangeRecord → List ChangeRecord → List ChangeRecord
mark_change g none changes = changes
mark_change g (some c) changes =
    update_where (λ (x : ChangeRecord). str_eq x.id c.id)
      (λ x. record x {
        deployment_environment = some g.environment;
        deployment_status = some (legacy_status g.status);
      })
      changes

abbrev pub request_of : Delivery → String
request_of v = str_append "github:" v.delivery_id

-- Behind the query for the record.
unfoldable pub apply_reading :
    Delivery
    → Reading
    → Option ChangeRecord
    → (services : List String) → DeploymentTables
    → Option DeploymentRecord
    → Attempt
apply_reading v g change services t none =
    let d = new_deployment v g change services in
    writes d record {
      deployments = t.deployments ++ d ∷ [];
      changes = mark_change g change t.changes;
      catalog = t.catalog;
      events = audit v.workspace_id none "deployment.created" d.id (request_of v) v.now t.events;
    }
apply_reading v g change services t (some d) =
    if str_eq d.last_delivery_id v.delivery_id
    then unchanged d
    else if ltb g.provider_updated_at d.provider_updated_at
    then unchanged d
    else if not (str_eq d.workspace_id v.workspace_id)
        || not (str_eq d.repository_id v.repository_id)
    then refused deployment_identity_mismatch
    else writes (refresh v g change services d) record {
      deployments =
          update_where (has_identity d.workspace_id d.provider_deployment_id)
            (refresh v g change services) t.deployments;
      changes = mark_change g change t.changes;
      catalog = t.catalog;
      events = audit v.workspace_id none "deployment.updated" d.id (request_of v) v.now t.events;
    }

unfoldable pub attempt_reading : Delivery → Reading → DeploymentTables → Attempt
attempt_reading v g t =
    let change =
      matched_change v.workspace_id v.repository_id g.commit_sha g.provider_updated_at t.changes in
    apply_reading v g change (service_ids v.workspace_id v.repository_id change t.catalog) t
      (first (has_identity v.workspace_id g.provider_deployment_id) t.deployments)

unfoldable pub attempt_upsert :
    (parse : String → Option ℕ) → Delivery → Payload → DeploymentTables → Attempt
attempt_upsert parse v p t = elim (read_payload parse v.event_time p) [
  | none ↦ no_deployment
  | some g ↦ attempt_reading v g t
]

-- The answer of a call, and the rows behind it.
pub data Answer : Type 0 where
  nothing : Answer
  answered : DeploymentRecord → Answer
  raised : DeploymentError → Answer

-- What an attempt leaves, where its commit succeeds.
unfoldable pub settle_attempt : DeploymentTables → Attempt → Answer × DeploymentTables
settle_attempt t no_deployment = (nothing, t)
settle_attempt t (unchanged d) = (answered d, t)
settle_attempt t (refused e) = (raised e, t)
settle_attempt t (writes d t') = (answered d, t')

-- The second attempt, whose commit raises where it conflicts again.
unfoldable pub retried :
    (conflict : Option DeploymentTables) → DeploymentTables → Attempt → Answer × DeploymentTables
retried (some t2) t (writes d t') = (raised integrity_error, t2)
retried none t a = settle_attempt t a
retried (some _) t a = settle_attempt t a

-- Where the first commit conflicts: behind the rollback the rows are `t1`.
unfoldable pub conflicted :
    Delivery
    → (t t1 : DeploymentTables) (again : Option DeploymentTables) (attempt1 attempt2 : Attempt)
    → Answer × DeploymentTables
conflicted v t t1 again (writes d t') a =
    let existing = first (has_identity v.workspace_id d.provider_deployment_id) t1.deployments in
    if is_some existing then retried again t1 a else (raised integrity_error, t1)
conflicted v t t1 again no_deployment a = (nothing, t)
conflicted v t t1 again (unchanged d) a = (answered d, t)
conflicted v t t1 again (refused e) a = (raised e, t)

-- `conflict` and `again` are the rows behind the rollback where the first and the second commit
-- violate the unique key.
unfoldable pub upsert_github_deployment :
    (parse : String → Option ℕ) (conflict again : Option DeploymentTables)
    → Delivery
    → Payload
    → DeploymentTables
    → Answer × DeploymentTables
upsert_github_deployment parse none again v p t = settle_attempt t (attempt_upsert parse v p t)
upsert_github_deployment parse (some t1) again v p t =
    conflicted v t t1 again (attempt_upsert parse v p t) (attempt_upsert parse v p t1)
