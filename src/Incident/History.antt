-- ===== src/Incident/History.antt =====
-- Sequences of updates and notes (backend/app/operations_services.py).
use Prim.Native.String.{String}
use text.Mathlib.Text.{◌==◌ as str_eq}
use text.Mathlib.TextEquality.{eq_iff}
use mathlib.Core.Bool.{true≢false}
use mathlib.Core.Option.{some-injective}
use deployguardai.Prelude.{
  ℕ, ◌≡◌, inl, inr, refl, sym, ◌∙◌, ap, subst, true, false, Option, none, some, List, [], ◌∷◌, ◌++◌,
  returns, raises, Outcome-cases, arith, Bool-cases, Option-cases, first, first-passes,
  update_where, first-update_where_if,
}
use deployguardai.Workspace.Store.{responder, User}
use deployguardai.Workspace.Access.{membership_for}
use deployguardai.Incident.Status.{Status, resolved, normalize_status}
use deployguardai.Incident.Record.{
  Change, EntryKind, IncidentRecord, Incidents, has_incident_id, in_workspace, find_incident,
}
use deployguardai.Incident.Update.{
  LifecycleUpdate, Changed, is_resolved, with_entry, write_incident, finish_update, update_found,
  update_incident_lifecycle, note_found, add_incident_note,
}
use deployguardai.Incident.Later.{Later, Later-refl, Later-trans, Updated, update_record-Updated}

-- A request for the lifecycle operations, at its time and by its user.
pub data Call : Type 0 where
  update :
      (now : ℕ)
      → User
      → (workspace_id incident_id : String) → LifecycleUpdate
      → (request_id : String) → Call
  add_note : (now : ℕ) → User → (workspace_id incident_id text request_id : String) → Call

-- The rows behind a request.
unfoldable pub perform : Call → Incidents → Incidents
perform (update now u w i payload request) s =
    (update_incident_lifecycle now u w i payload request s).1
perform (add_note now u w i text request) s = (add_incident_note now u w i text request s).1

unfoldable pub perform_all : List Call → Incidents → Incidents
perform_all [] s = s
perform_all (c ∷ cs) s = perform_all cs (perform c s)

-- The row with the id `i` was `r` and is one that follows `r`.
abbrev pub Follows : (i : String) (r : IncidentRecord) → List IncidentRecord → Type 0
Follows i r rows = (r' : IncidentRecord) × (first (has_incident_id i) rows ≡ some r') × Later r r'

in_workspace-same :
    (w : String) (o : Option IncidentRecord) {r : IncidentRecord}
    → in_workspace w o ≡ some r
    → o ≡ some r
in_workspace-same w none h = h
in_workspace-same w (some x) h = ground arith

find_incident-row :
    (i w : String) (rows : List IncidentRecord) {r : IncidentRecord}
    → find_incident i w rows ≡ some r
    → first (has_incident_id i) rows ≡ some r
unfolding find_incident
find_incident-row i w rows h = in_workspace-same w (first (has_incident_id i) rows) h

-- Where a row that was found is written by one that follows it, every row is followed.
written-Follows :
    (i j w : String) (rows : List IncidentRecord) (r0 x r : IncidentRecord)
    → find_incident j w rows ≡ some r0
    → Later r0 x
    → first (has_incident_id i) rows ≡ some r
    → Follows i r (update_where (has_incident_id x.id) (λ _. x) rows)
written-Follows i j w rows r0 x r found l h =
    let row = find_incident-row j w rows found in
    let (same, _, _) = l.kept in
    let e0 : r0.id ≡ j = (eq_iff r0.id j).0 (first-passes (has_incident_id j) rows row) in
    let ei : r.id ≡ i = (eq_iff r.id i).0 (first-passes (has_incident_id i) rows h) in
    let keep : (y : IncidentRecord)
        → has_incident_id x.id y ≡ true
        → has_incident_id i x ≡ has_incident_id i y =
      λ y k. ap (λ z. str_eq z i) (sym ((eq_iff y.id x.id).0 k)) in
    let e = first-update_where_if (has_incident_id i) (has_incident_id x.id) (λ _. x) rows keep h in
    elim (Bool-cases (has_incident_id x.id r)) [
      | inr away ↦ (r, rw away at e, Later-refl r)
      | inl own ↦
          let k : j ≡ i = sym e0 ∙ (sym same ∙ (sym ((eq_iff r.id x.id).0 own) ∙ ei)) in
          let row' = subst (λ z. first (has_incident_id z) rows ≡ some r0) k row in
          let r0r : r0 ≡ r = some-injective _ _ (sym row' ∙ h) in
          (x, rw own at e, subst (λ z. Later z x) r0r l)
    ]

-- The entry that a change adds to an updated record.
entry-Later :
    (u : String) (kind : EntryKind) (now : ℕ) (c : Status) (r x : IncidentRecord)
    → normalize_status r.status ≡ some c
    → is_resolved c ≡ false
    → Updated c r x
    → Later r (with_entry u kind now x)
entry-Later u kind now c r x e n l = record {
  kept = l.kept;
  grows =
      (_, ap (λ t. t ++ record { kind = kind; actor = some u; timestamp = now } ∷ []) l.timeline);
  moves = elim l.moves [ inl same ↦ inl same | inr (c', e', less) ↦ inr (c, c', e, e', less) ];
  frozen = inl (λ h.
      let k : c ≡ resolved = some-injective _ _ (sym e ∙ h) in
      true≢false (sym (ap is_resolved k) ∙ n));
}

note-Later :
    (u : String) (kind : EntryKind) (now : ℕ) (r : IncidentRecord)
    → Later r (with_entry u kind now r)
note-Later u kind now r = record {
  kept = (refl, refl, refl);
  grows = (_, refl);
  moves = inl refl;
  frozen = inr (refl, refl, refl, refl);
}

module _ (i : String) (r : IncidentRecord) (s : Incidents)
    (h : first (has_incident_id i) s.incidents ≡ some r) where
  stays : Follows i r s.incidents
  stays = (r, h, Later-refl r)

  finish_update-Follows :
      (u j w request : String) (now : ℕ) (r0 : IncidentRecord) (c : Status) (step : Changed)
      → find_incident j w s.incidents ≡ some r0
      → normalize_status r0.status ≡ some c
      → is_resolved c ≡ false
      → ((x : IncidentRecord) (cs : List Change) → step ≡ returns (x, cs) → Updated c r0 x)
      → Follows i r (finish_update u w request now s step).1.incidents
  unfolding finish_update write_incident
  finish_update-Follows u j w request now r0 c (raises e) found e0 n up = stays
  finish_update-Follows u j w request now r0 c (returns (x, [])) found e0 n up = stays
  finish_update-Follows u j w request now r0 c (returns (x, d ∷ ds)) found e0 n up =
      written-Follows i j w s.incidents r0 _ r found
        (entry-Later u _ now c r0 x e0 n (up x (d ∷ ds) refl)) h

  update_found-Follows :
      (now : ℕ) (u : User) (j w : String) (payload : LifecycleUpdate) (request : String)
      → Follows i r
          (update_found now u w payload request s (find_incident j w s.incidents)).1.incidents
  unfolding update_found
  update_found-Follows now u j w payload request =
      elim (Option-cases (find_incident j w s.incidents)) [
        | inl e ↦ rw (e, update_found) stays
        | inr (r0, e) ↦ elim (Option-cases (normalize_status r0.status)) [
          | inl e' ↦ rw (e, update_found, e') stays
          | inr (c, e') ↦ elim (Bool-cases (is_resolved c)) [
            | inl b ↦ rw (e, update_found, e', b) stays
            | inr b ↦
                rw (e, update_found, e', b)
                  (finish_update-Follows u.id j w request now r0 c _ e e' b
                    (λ x cs k. update_record-Updated now w s.base c payload r0 k))
          ]
        ]
      ]

  update-Follows :
      (now : ℕ) (u : User) (w j : String) (payload : LifecycleUpdate) (request : String)
      → Follows i r (update_incident_lifecycle now u w j payload request s).1.incidents
  unfolding update_incident_lifecycle
  update-Follows now u w j payload request =
      elim (Outcome-cases (membership_for u.id w responder s.base)) [
        | inl (e, h') ↦ rw (h', update_incident_lifecycle) stays
        | inr (m, h') ↦
            rw (h', update_incident_lifecycle) (update_found-Follows now u j w payload request)
      ]

  add_note-Follows :
      (now : ℕ) (u : User) (w j text request : String)
      → Follows i r (add_incident_note now u w j text request s).1.incidents
  unfolding add_incident_note note_found write_incident
  add_note-Follows now u w j text request =
      elim (Outcome-cases (membership_for u.id w responder s.base)) [
        | inl (e, h') ↦ rw (h', add_incident_note) stays
        | inr (m, h') ↦ elim (Option-cases (find_incident j w s.incidents)) [
          | inl e ↦ rw (h', add_incident_note, e, note_found) stays
          | inr (r0, e) ↦
              rw (h', add_incident_note, e, note_found)
                (written-Follows i j w s.incidents r0 _ r e (note-Later u.id _ now r0) h)
        ]
      ]

  perform-Follows : (c : Call) → Follows i r (perform c s).incidents
  unfolding perform
  perform-Follows (update now u w j payload request) = update-Follows now u w j payload request
  perform-Follows (add_note now u w j text request) = add_note-Follows now u w j text request

-- Whatever updates and notes are requested, by whom and in whatever order, also where they are
-- refused: the incident is still there, its entries are followed by the later ones, its status is
-- the same text or has moved from a supported status to a later one, and where it was resolved its
-- status, severity, assignee and time of resolution are as they were.
pub perform_all-Later :
    (cs : List Call) (i : String) (r : IncidentRecord) (s : Incidents)
    → first (has_incident_id i) s.incidents ≡ some r
    → Follows i r (perform_all cs s).incidents
unfolding perform_all
perform_all-Later [] i r s h = (r, h, Later-refl r)
perform_all-Later (c ∷ cs) i r s h =
    let (r1, h1, l1) = perform-Follows i r s h c in
    let (r2, h2, l2) = perform_all-Later cs i r1 (perform c s) h1 in (r2, h2, Later-trans l1 l2)
