-- ===== src/Incident/Record.antt =====
-- The rows of an incident, its notifications and its timeline (backend/app/models.py), and the
-- errors of the lifecycle operations.
use Prim.Native.String.{String}
use text.Mathlib.Text.{◌==◌ as str_eq}
use deployguardai.Prelude.{ℕ, Bool, Option, none, some, List, if◌then◌else◌, first}
use deployguardai.Workspace.Store.{Store, DomainError}
use deployguardai.Incident.Status.{Status, IncidentSeverity}

-- An entry of `changes`.
pub data Change : Type 0 where
  status_changed : (before after : Status) → Change
  severity_changed : (before after : IncidentSeverity) → Change
  assignee_updated assignee_cleared : Change

pub data EntryKind : Type 0 where
  lifecycle : List Change → EntryKind
  note : String → EntryKind
  -- an entry of any other type
  other : EntryKind

pub record TimelineEntry : Type 0 where
  pub kind : EntryKind
  pub actor : Option String
  pub timestamp : ℕ

pub record IncidentRecord : Type 0 where
  pub id : String
  pub workspace_id : String
  pub title : String
  pub status : String
  pub severity : String
  pub assignee : Option String
  pub resolved_at : Option ℕ
  pub timeline : List TimelineEntry

pub record Notification : Type 0 where
  pub user_id : String
  pub workspace_id : String
  pub kind : EntryKind
  pub incident_id : String
  pub created_at : ℕ
  pub read_at : Option ℕ

pub record Incidents : Type 0 where
  pub base : Store
  pub incidents : List IncidentRecord
  pub notifications : List Notification

pub data IncidentError : Type 0 where
  access : DomainError → IncidentError
  incident_not_found incident_already_resolved invalid_transition : IncidentError
  invalid_assignee invalid_status invalid_severity : IncidentError

abbrev pub has_incident_id : (incident_id : String) → IncidentRecord → Bool
has_incident_id i r = str_eq r.id i

abbrev pub in_workspace : (workspace_id : String) → Option IncidentRecord → Option IncidentRecord
in_workspace w none = none
in_workspace w (some r) = if str_eq r.workspace_id w then some r else none

-- The row with the id, where it belongs to the workspace.
unfoldable pub find_incident :
    (incident_id workspace_id : String) → List IncidentRecord → Option IncidentRecord
find_incident i w rows = in_workspace w (first (has_incident_id i) rows)
