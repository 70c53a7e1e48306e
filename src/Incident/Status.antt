-- ===== src/Incident/Status.antt =====
-- `INCIDENT_STATUS_ORDER`, `_normalize_incident_status`, `_normalize_incident_severity` and
-- `_stored_incident_severity` of backend/app/operations_services.py.
use Prim.Native.String.{String}
use deployguardai.Prelude.Codes.{codes, lower}
use deployguardai.Prelude.Texts.{strip}
use deployguardai.Prelude.{
  ℕ, ◌≡◌, refl, Bool, true, false, ◌&&◌, Option, some, List, [], ◌∷◌, ◌==◌, if◌then◌else◌, first,
}

pub data Status : Type 0 where
  open_ acknowledged investigating mitigated resolved : Status

abbrev pub incident_status_name : Status → String
incident_status_name open_ = "open"
incident_status_name acknowledged = "acknowledged"
incident_status_name investigating = "investigating"
incident_status_name mitigated = "mitigated"
incident_status_name resolved = "resolved"

-- `INCIDENT_STATUS_ORDER`
abbrev pub status_order : Status → ℕ
status_order open_ = 0
status_order acknowledged = 1
status_order investigating = 2
status_order mitigated = 3
status_order resolved = 4

pub data IncidentSeverity : Type 0 where
  sev1 sev2 sev3 sev4 : IncidentSeverity

abbrev pub severity_name : IncidentSeverity → String
severity_name sev1 = "sev1"
severity_name sev2 = "sev2"
severity_name sev3 = "sev3"
severity_name sev4 = "sev4"

-- `_stored_incident_severity`
abbrev pub stored_severity : IncidentSeverity → String
stored_severity sev1 = "SEV-1"
stored_severity sev2 = "SEV-2"
stored_severity sev3 = "SEV-3"
stored_severity sev4 = "SEV-4"

unfoldable pub same_codes : List ℕ → List ℕ → Bool
same_codes [] [] = true
same_codes (c ∷ s) (d ∷ t) = c == d && same_codes s t
same_codes _ _ = false

-- `value.replace("-", "")`
unfoldable pub without_dashes : List ℕ → List ℕ
without_dashes [] = []
without_dashes (c ∷ s) = if c == b'-' then without_dashes s else c ∷ without_dashes s

abbrev pub statuses : List Status
statuses = open_ ∷ acknowledged ∷ investigating ∷ mitigated ∷ resolved ∷ []

abbrev pub incident_severities : List IncidentSeverity
incident_severities = sev1 ∷ sev2 ∷ sev3 ∷ sev4 ∷ []

-- `_normalize_incident_status`; `none` where it raises.
unfoldable pub normalize_status : String → Option Status
unfolding first same_codes lower strip
normalize_status value =
    let normalized = lower (codes (strip value)) in
    first (λ s. same_codes normalized (codes (incident_status_name s))) statuses

-- `_normalize_incident_severity`
unfoldable pub normalize_severity : String → Option IncidentSeverity
unfolding first same_codes without_dashes lower strip
normalize_severity value =
    let normalized = without_dashes (lower (codes (strip value))) in
    first (λ s. same_codes normalized (codes (severity_name s))) incident_severities

-- A status that is written is read back.
pub normalize_status-incident_status_name :
    (s : Status) → normalize_status (incident_status_name s) ≡ some s
unfolding normalize_status
normalize_status-incident_status_name open_ = refl
normalize_status-incident_status_name acknowledged = refl
normalize_status-incident_status_name investigating = refl
normalize_status-incident_status_name mitigated = refl
normalize_status-incident_status_name resolved = refl

-- A severity is read back both from the column and from a payload.
pub normalize_severity-roundtrip :
    (s : IncidentSeverity)
    → (normalize_severity (stored_severity s) ≡ some s)
      × (normalize_severity (severity_name s) ≡ some s)
unfolding normalize_severity
normalize_severity-roundtrip sev1 = (refl, refl)
normalize_severity-roundtrip sev2 = (refl, refl)
normalize_severity-roundtrip sev3 = (refl, refl)
normalize_severity-roundtrip sev4 = (refl, refl)
