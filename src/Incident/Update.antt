-- ===== src/Incident/Update.antt =====
-- `update_incident_lifecycle` and `add_incident_note` of backend/app/operations_services.py.
use Prim.Native.String.{String}
use text.Mathlib.Text.{◌==◌ as str_eq}
use deployguardai.Prelude.{
  ℕ, Bool, true, false, not, ◌&&◌, Option, none, some, List, [], ◌∷◌, ◌++◌, map, Outcome, returns,
  raises, ◌>>=◌, ltb, ◌==◌, if◌then◌else◌, first, update_where, select, is_some,
}
use deployguardai.Prelude.Texts.{strip}
use deployguardai.Workspace.Store.{responder, User, Membership, Store, is_member}
use deployguardai.Workspace.Access.{membership_for, audit}
use deployguardai.Incident.Status.{
  Status, resolved, incident_status_name, status_order, IncidentSeverity, stored_severity,
  normalize_status, normalize_severity,
}
use deployguardai.Incident.Record.{
  Change, status_changed, severity_changed, assignee_updated, assignee_cleared, EntryKind,
  lifecycle, note, IncidentRecord, Notification, Incidents, IncidentError, access,
  incident_not_found, incident_already_resolved, invalid_transition, invalid_assignee,
  invalid_status, invalid_severity, has_incident_id, find_incident,
}

-- `IncidentLifecycleUpdate`: a field that is not set is `none`; the assignee may be set to nobody.
pub record LifecycleUpdate : Type 0 where
  pub status : Option Status
  pub assignee : Option (Option String)
  pub severity : Option IncidentSeverity

-- A record with the changes that led to it.
abbrev pub Changed : Type 0
Changed = Outcome IncidentError (IncidentRecord × List Change)

abbrev pub is_resolved : Status → Bool
is_resolved resolved = true
is_resolved _ = false

unfoldable pub update_status :
    (now : ℕ) (current : Status) → Option Status → IncidentRecord → Changed
update_status now current none r = returns (r, [])
update_status now current (some next) r =
    let moved = record r {
      status = incident_status_name next;
      resolved_at = if is_resolved next then some now else r.resolved_at;
    } in
    if ltb (status_order next) (status_order current)
    then raises invalid_transition
    else if status_order next == status_order current
    then returns (r, [])
    else returns (moved, status_changed current next ∷ [])

-- An active user that is a member.
unfoldable pub is_active_member : (workspace_id user_id : String) → Store → Bool
is_active_member w u s =
    is_some (first (is_member w u) s.memberships)
    && is_some (first (λ (x : User). str_eq x.id u && x.is_active) s.users)

abbrev pub same_assignee : Option String → Option String → Bool
same_assignee none none = true
same_assignee (some a) (some b) = str_eq a b
same_assignee _ _ = false

abbrev pub is_valid_assignee : (workspace_id : String) → Option String → Store → Bool
is_valid_assignee w none s = true
is_valid_assignee w (some u) s = is_active_member w u s

unfoldable pub update_assignee :
    (workspace_id : String) → Store → Option (Option String) → IncidentRecord → Changed
update_assignee w s none r = returns (r, [])
update_assignee w s (some a) r =
    let change = if is_some a then assignee_updated else assignee_cleared in
    if not (is_valid_assignee w a s)
    then raises invalid_assignee
    else if same_assignee r.assignee a
    then returns (r, [])
    else returns (record r { assignee = a }, change ∷ [])

abbrev pub same_severity : IncidentSeverity → IncidentSeverity → Bool
same_severity a b = str_eq (stored_severity a) (stored_severity b)

-- Behind the reading of the stored severity.
unfoldable pub change_severity :
    (next : IncidentSeverity) → Option IncidentSeverity → IncidentRecord → Changed
change_severity next none r = raises invalid_severity
change_severity next (some current) r =
    if same_severity current next
    then returns (r, [])
    else returns (record r { severity = stored_severity next }, severity_changed current next ∷ [])

unfoldable pub update_severity : Option IncidentSeverity → IncidentRecord → Changed
update_severity none r = returns (r, [])
update_severity (some next) r = change_severity next (normalize_severity r.severity) r

-- The three parts of an update, one after the other.
unfoldable pub update_record :
    (now : ℕ) (workspace_id : String)
    → Store
    → (current : Status) → LifecycleUpdate
    → IncidentRecord
    → Changed
update_record now w s current payload r = do
  (r1, c1) ← update_status now current payload.status r
  (r2, c2) ← update_assignee w s payload.assignee r1
  (r3, c3) ← update_severity payload.severity r2
  returns (r3, c1 ++ (c2 ++ c3))

-- `_lifecycle_response` raises where the stored status or severity is not supported.
unfoldable pub lifecycle_response : IncidentRecord → Outcome IncidentError IncidentRecord
lifecycle_response r =
    if not (is_some (normalize_status r.status))
    then raises invalid_status
    else if not (is_some (normalize_severity r.severity))
    then raises invalid_severity
    else returns r

-- `_create_workspace_notifications`
unfoldable pub notify_members :
    (workspace_id : String)
    → EntryKind
    → (incident_id : String) (now : ℕ) → Store
    → List Notification
notify_members w kind i now s =
    map
      (λ (m : Membership). record {
        user_id = m.user_id;
        workspace_id = w;
        kind = kind;
        incident_id = i;
        created_at = now;
        read_at = none;
      })
      (select (λ (m : Membership). str_eq m.workspace_id w) s.memberships)

abbrev pub with_entry : (user_id : String) → EntryKind → (now : ℕ) → IncidentRecord → IncidentRecord
with_entry u kind now r = record r {
  timeline = r.timeline ++ record { kind = kind; actor = some u; timestamp = now } ∷ [];
}

-- The changed record is written, the members are told, the call is recorded, and all is committed.
unfoldable pub write_incident :
    (user_id workspace_id action request_id : String)
    → EntryKind
    → (now : ℕ) → IncidentRecord
    → Incidents
    → Incidents
write_incident u w action request kind now r s = record s {
  base = record s.base { events = audit w (some u) action r.id request now s.base.events };
  incidents = update_where (has_incident_id r.id) (λ _. with_entry u kind now r) s.incidents;
  notifications = s.notifications ++ notify_members w kind r.id now s.base;
}

-- What a call returns or raises, with the rows behind it: the response is made after the commit.
abbrev pub Committing : Type 0 → Type 0
Committing A = Outcome IncidentError A × Incidents

-- Behind the parts of an update.
unfoldable pub finish_update :
    (user_id workspace_id request_id : String) (now : ℕ)
    → Incidents
    → Changed
    → Committing IncidentRecord
finish_update u w request now s (raises e) = (raises e, s)
finish_update u w request now s (returns (r, [])) = (lifecycle_response r, s)
finish_update u w request now s (returns (r, c ∷ cs)) =
    let kind = lifecycle (c ∷ cs) in
    (
      lifecycle_response (with_entry u kind now r),
      write_incident u w "incident.lifecycle_updated" request kind now r s,
    )

-- Behind the query for the incident.
unfoldable pub update_found :
    (now : ℕ)
    → User
    → (workspace_id : String) → LifecycleUpdate
    → (request_id : String) → Incidents
    → Option IncidentRecord
    → Committing IncidentRecord
update_found now u w payload request s none = (raises incident_not_found, s)
update_found now u w payload request s (some r) = elim (normalize_status r.status) [
  | none ↦ (raises invalid_status, s)
  | some current ↦
      if is_resolved current
      then (raises incident_already_resolved, s)
      else finish_update u.id w request now s (update_record now w s.base current payload r)
]

unfoldable pub update_incident_lifecycle :
    (now : ℕ)
    → User
    → (workspace_id incident_id : String) → LifecycleUpdate
    → (request_id : String) → Incidents
    → Committing IncidentRecord
update_incident_lifecycle now u w i payload request s =
    elim (membership_for u.id w responder s.base) [
      | raises e ↦ (raises (access e), s)
      | returns _ ↦ update_found now u w payload request s (find_incident i w s.incidents)
    ]

unfoldable pub note_found :
    (now : ℕ)
    → User
    → (workspace_id text request_id : String) → Incidents
    → Option IncidentRecord
    → Committing EntryKind
note_found now u w text request s none = (raises incident_not_found, s)
note_found now u w text request s (some r) =
    let kind = note (strip text) in
    (returns kind, write_incident u.id w "incident.note_added" request kind now r s)

unfoldable pub add_incident_note :
    (now : ℕ)
    → User
    → (workspace_id incident_id text request_id : String) → Incidents
    → Committing EntryKind
add_incident_note now u w i text request s = elim (membership_for u.id w responder s.base) [
  | raises e ↦ (raises (access e), s)
  | returns _ ↦ note_found now u w text request s (find_incident i w s.incidents)
]

-- The body of `mark_notification_read`, on the notification that is found.
unfoldable pub mark_read : (now : ℕ) → Notification → Notification
mark_read now x = if is_some x.read_at then x else record x { read_at = some now }
