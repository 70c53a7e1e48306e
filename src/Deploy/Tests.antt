-- ===== src/Deploy/Tests.antt =====
-- The theorems on deployments at a sample deployment.
use deployguardai.Prelude.{◌≡◌, refl, none, some, List, [], ◌∷◌, All, first, arith}
use deployguardai.Prelude.Codes.{lower}
use deployguardai.Prelude.Sort.{sort, insert}
use deployguardai.Prelude.Texts.{strip, prefix}
use deployguardai.Incident.Status.{same_codes}
use deployguardai.Deploy.Payload.{
  Payload, in_progress, read_payload, read_fields, normalized_status, github_statuses, clipped,
  parse_timestamp,
}
use deployguardai.Deploy.Rows.{
  DeploymentRecord, DeploymentTables, matched_change, service_ids, distinct_after,
}
use deployguardai.Deploy.Upsert.{
  Delivery, writes, has_identity, new_deployment, finished, mark_change, attempt_upsert,
  attempt_reading, apply_reading, settle_attempt, upsert_github_deployment,
}
use deployguardai.Deploy.Ordered.{IsSound, Follows, deliver_all, deliver_all-IsLater}
use deployguardai.Deploy.Repeated.{redelivered, redelivered_unchanged, deliver_all-IsSound}
use deployguardai.Deploy.Samples.{reported, sample_delivery, no_time, no_deployments}

-- The deployment as the first report makes it.
abbrev first_state : DeploymentRecord
first_state = record {
  id = "d1";
  workspace_id = "w1";
  repository_id = "r1";
  change_id = none;
  provider_deployment_id = "7";
  environment = "production";
  commit_sha = some "abc";
  ref = some "main";
  status = in_progress;
  provider_url = none;
  service_ids = "s1" ∷ [];
  last_delivery_id = "x1";
  last_event_id = "e1";
  provider_created_at = 10;
  provider_updated_at = 10;
  finished_at = none;
  version = 1;
  created_at = 10;
  updated_at = 10;
}

abbrev one_deployment : DeploymentTables
one_deployment = record no_deployments { deployments = first_state ∷ [] }

found_deployment : first (has_identity "w1" "7") one_deployment.deployments ≡ some first_state
unfolding first
found_deployment = refl

abbrev reports : List (Delivery × Payload)
reports =
    (sample_delivery "x2" 20, reported "success")
    ∷ (sample_delivery "x1" 10, reported "in_progress")
    ∷ []

deliver_all-IsLater_example :
    Follows "w1" "7" first_state (deliver_all no_time reports one_deployment)
deliver_all-IsLater_example =
    deliver_all-IsLater no_time reports "w1" "7" first_state one_deployment found_deployment

redelivered_unchanged_example :
    (upsert_github_deployment no_time none none
      (redelivered (sample_delivery "x1" 10) 11 "d2")
      (reported "in_progress")
      (upsert_github_deployment no_time none none
        (sample_delivery "x1" 10)
        (reported "in_progress")
        no_deployments).1).1
    ≡ (upsert_github_deployment no_time none none
        (sample_delivery "x1" 10)
        (reported "in_progress")
        no_deployments).1
redelivered_unchanged_example =
    redelivered_unchanged no_time (sample_delivery "x1" 10) (reported "in_progress") 11 "d2"
      no_deployments

-- The rows that the first report writes where there is no deployment.
abbrev first_rows : DeploymentTables
first_rows =
    (settle_attempt no_deployments
      (attempt_upsert no_time (sample_delivery "x1" 10) (reported "in_progress") no_deployments)).1

first_report :
    attempt_upsert no_time (sample_delivery "x1" 10) (reported "in_progress") no_deployments
    ≡ writes first_state first_rows
unfolding attempt_upsert read_payload read_fields normalized_status github_statuses clipped
    parse_timestamp attempt_reading apply_reading new_deployment finished matched_change service_ids
    distinct_after first sort insert lower same_codes strip prefix settle_attempt mark_change
first_report = refl

deliver_all-IsSound_example : All IsSound (deliver_all no_time reports one_deployment).deployments
deliver_all-IsSound_example =
    deliver_all-IsSound no_time reports one_deployment
      (record { counted = omega arith; finishes = refl }, tt)
