-- ===== src/Incident/Tests.antt =====
-- The theorems on incidents at a sample incident.
use deployguardai.Prelude.{◌≡◌, ◌⊎◌, refl, some, List, [], ◌∷◌, raises, first}
use deployguardai.Workspace.Store.{role_level}
use deployguardai.Workspace.Access.{membership_for}
use deployguardai.Workspace.Samples.{ann}
use deployguardai.Incident.Status.{
  sev2, severity_name, stored_severity, normalize_status, normalize_severity,
  normalize_severity-roundtrip,
}
use deployguardai.Incident.Record.{
  IncidentRecord, Incidents, incident_already_resolved, invalid_severity, has_incident_id,
  find_incident,
}
use deployguardai.Incident.Update.{update_incident_lifecycle, update_found}
use deployguardai.Incident.History.{Call, update, add_note, perform_all, perform_all-Later, Follows}
use deployguardai.Incident.Refused.{update_raises_unchanged}
use deployguardai.Incident.Samples.{outage, sample_incidents, resolution}

normalize_severity-roundtrip_example :
    (normalize_severity (stored_severity sev2) ≡ some sev2)
    × (normalize_severity (severity_name sev2) ≡ some sev2)
normalize_severity-roundtrip_example = normalize_severity-roundtrip sev2

abbrev calls : List Call
calls = update 10 ann "w1" "n1" resolution "r1" ∷ add_note 11 ann "w1" "n1" " done " "r2" ∷ []

found_outage : first (has_incident_id "n1") sample_incidents.incidents ≡ some outage
unfolding first
found_outage = refl

perform_all-Later_example : Follows "n1" outage (perform_all calls sample_incidents).incidents
perform_all-Later_example = perform_all-Later calls "n1" outage sample_incidents found_outage

abbrev closed : IncidentRecord
closed = record outage { status = "resolved"; resolved_at = some 9 }

abbrev closed_incidents : Incidents
closed_incidents = record sample_incidents { incidents = closed ∷ [] }

refused_runs :
    update_incident_lifecycle 10 ann "w1" "n1" resolution "r1" closed_incidents
    ≡ (raises incident_already_resolved, closed_incidents)
unfolding update_incident_lifecycle update_found find_incident membership_for role_level first
    normalize_status
refused_runs = refl

update_raises_unchanged_example :
    (closed_incidents ≡ closed_incidents) ⊎ (incident_already_resolved ≡ invalid_severity)
update_raises_unchanged_example =
    update_raises_unchanged 10 ann "w1" "n1" resolution "r1" closed_incidents closed_incidents
      incident_already_resolved refused_runs
