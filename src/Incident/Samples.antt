-- ===== src/Incident/Samples.antt =====
-- An open incident of the sample workspace.
use deployguardai.Prelude.{none, some, [], ◌∷◌}
use deployguardai.Workspace.Samples.{sample_store}
use deployguardai.Incident.Status.{resolved}
use deployguardai.Incident.Record.{IncidentRecord, Incidents}
use deployguardai.Incident.Update.{LifecycleUpdate}

abbrev pub outage : IncidentRecord
outage = record {
  id = "n1";
  workspace_id = "w1";
  title = "Payments fail";
  status = "mitigated";
  severity = "SEV-2";
  assignee = none;
  resolved_at = none;
  timeline = [];
}

abbrev pub sample_incidents : Incidents
sample_incidents = record { base = sample_store; incidents = outage ∷ []; notifications = [] }

abbrev pub resolution : LifecycleUpdate
resolution = record { status = some resolved; assignee = some (some "u1"); severity = none }
