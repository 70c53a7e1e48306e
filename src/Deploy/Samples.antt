-- ===== src/Deploy/Samples.antt =====
-- A deployment of a repository that is reported twice.
use Prim.Native.String.{String}
use deployguardai.Prelude.{ℕ, none, some, Option, [], ◌∷◌}
use deployguardai.Deploy.Payload.{DeploymentPayload, Payload}
use deployguardai.Deploy.Rows.{DeploymentTables}
use deployguardai.Deploy.Upsert.{Delivery}

abbrev pub sample_deployment : DeploymentPayload
sample_deployment = record {
  id = some "7";
  state = none;
  sha = some "abc";
  ref = some "main";
  environment = some "production";
  url = none;
  created_at = none;
  updated_at = none;
}

abbrev pub reported : (state : String) → Payload
reported state = record {
  deployment = some sample_deployment;
  deployment_status = some record {
    state = some state;
    sha = none;
    environment = none;
    environment_url = none;
    log_url = none;
    created_at = none;
  };
  action = none;
}

abbrev pub sample_delivery : (delivery_id : String) (time : ℕ) → Delivery
sample_delivery i time = record {
  workspace_id = "w1";
  repository_id = "r1";
  delivery_id = i;
  event_id = "e1";
  event_time = time;
  now = time;
  fresh_id = "d1";
}

abbrev pub no_time : String → Option ℕ
no_time _ = none

abbrev pub no_deployments : DeploymentTables
no_deployments = record {
  deployments = [];
  changes = [];
  catalog = record { id = "s1"; workspace_id = "w1"; repository_id = "r1" } ∷ [];
  events = [];
}
