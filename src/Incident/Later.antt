-- ===== src/Incident/Later.antt =====
-- How the record of an incident follows an earlier one, and the parts of an update
-- (backend/app/operations_services.py).
use Prim.Native.String.{String}
use mathlib.Core.Option.{some-injective}
use mathlib.Core.List.{append_assoc, append-nil}
use deployguardai.Prelude.{
  ℕ, ◌≡◌, ◌<◌, ◌≤◌, ◌⊎◌, inl, inr, refl, sym, ◌∙◌, ap, subst, Option, none, some, List, [], ◌++◌,
  Outcome, returns, bind-returns, arith, ltb, ◌==◌, Bool-cases, returns-injective,
  raises-ne-returns,
}
use deployguardai.Workspace.Store.{Store}
use deployguardai.Incident.Status.{
  Status, open_, acknowledged, investigating, mitigated, resolved, status_order, IncidentSeverity,
  normalize_status, normalize_severity, normalize_status-incident_status_name,
}
use deployguardai.Incident.Record.{Change, TimelineEntry, IncidentRecord, IncidentError}
use deployguardai.Incident.Update.{
  LifecycleUpdate, update_status, update_assignee, update_severity, change_severity,
  is_valid_assignee, same_assignee, same_severity, update_record,
}

-- The status is as it was, or a supported status that was followed by a later one.
abbrev pub Moves : (r r' : IncidentRecord) → Type 0
Moves r r' =
    (r'.status ≡ r.status)
    ⊎ ((c : Status) × (c' : Status) × (normalize_status r.status ≡ some c)
        × (normalize_status r'.status ≡ some c')
        × (status_order c < status_order c'))

abbrev pub IsResolved : IncidentRecord → Type 0
IsResolved r = normalize_status r.status ≡ some resolved

-- The parts of a record that an update may change are the same in two records.
abbrev pub Frozen : (r r' : IncidentRecord) → Type 0
Frozen r r' =
    (r'.status ≡ r.status)
    × (r'.severity ≡ r.severity)
    × (r'.assignee ≡ r.assignee)
    × (r'.resolved_at ≡ r.resolved_at)

abbrev pub Kept : (r r' : IncidentRecord) → Type 0
Kept r r' = (r'.id ≡ r.id) × (r'.workspace_id ≡ r.workspace_id) × (r'.title ≡ r.title)

abbrev pub Grows : (r r' : IncidentRecord) → Type 0
Grows r r' = (new : List TimelineEntry) × (r'.timeline ≡ r.timeline ++ new)

-- How a record follows an earlier one with the same id.
pub record Later (r r' : IncidentRecord) : Type 0 where
  pub kept : Kept r r'
  pub grows : Grows r r'
  pub moves : Moves r r'
  pub frozen : (IsResolved r → ⊥) ⊎ Frozen r r'

pub status_order-bound : (c : Status) → status_order c ≤ status_order resolved
status_order-bound open_ = ground arith
status_order-bound acknowledged = ground arith
status_order-bound investigating = ground arith
status_order-bound mitigated = ground arith
status_order-bound resolved = ground arith

Moves-trans : (r r' r'' : IncidentRecord) → Moves r r' → Moves r' r'' → Moves r r''
Moves-trans r r' r'' (inl e) (inl e') = inl (e' ∙ e)
Moves-trans r r' r'' (inl e) (inr (c, c', h, h', l)) =
    inr (c, c', ap normalize_status (sym e) ∙ h, h', l)
Moves-trans r r' r'' (inr (c, c', h, h', l)) (inl e) = inr (c, c', h, ap normalize_status e ∙ h', l)
Moves-trans r r' r'' (inr (c, c', h, h', l)) (inr (d, d', k, k', m)) =
    let same : c' ≡ d = some-injective _ _ (sym h' ∙ k) in
    let o = ap status_order same in inr (c, d', h, k', omega (arith, l, m, o))

pub Later-refl : (r : IncidentRecord) → Later r r
Later-refl r = record {
  kept = (refl, refl, refl);
  grows = ([], sym (append-nil r.timeline));
  moves = inl refl;
  frozen = inr (refl, refl, refl, refl);
}

Frozen-trans :
    (r r' r'' : IncidentRecord)
    → (IsResolved r → ⊥) ⊎ Frozen r r'
    → (IsResolved r' → ⊥) ⊎ Frozen r' r''
    → (IsResolved r → ⊥) ⊎ Frozen r r''
Frozen-trans r r' r'' (inl n) f = inl n
Frozen-trans r r' r'' (inr (e, _, _, _)) (inl n) = inl (λ h. n (ap normalize_status e ∙ h))
Frozen-trans r r' r'' (inr (e, f, g, h)) (inr (e', f', g', h')) =
    inr (e' ∙ e, f' ∙ f, g' ∙ g, h' ∙ h)

pub Later-trans : {r r' r'' : IncidentRecord} → Later r r' → Later r' r'' → Later r r''
Later-trans {r} {r'} {r''} l m =
    let (i, w, t) = l.kept in
    let (i', w', t') = m.kept in
    let (new, e) = l.grows in
    let (new', e') = m.grows in
    record {
      kept = (i' ∙ i, w' ∙ w, t' ∙ t);
      grows = (new ++ new', e' ∙ (ap (λ x. x ++ new') e ∙ append_assoc r.timeline new new'));
      moves = Moves-trans r r' r'' l.moves m.moves;
      frozen = Frozen-trans r r' r'' l.frozen m.frozen;
    }

-- What the parts of an update leave: the order of the status grows or it stays, nothing is written
-- in the timeline.
pub record Updated (c : Status) (r r' : IncidentRecord) : Type 0 where
  pub kept : Kept r r'
  pub timeline : r'.timeline ≡ r.timeline
  pub moves :
      (r'.status ≡ r.status)
      ⊎ ((c' : Status) × (normalize_status r'.status ≡ some c')
          × (status_order c < status_order c'))

Updated-refl : (c : Status) (r : IncidentRecord) → Updated c r r
Updated-refl c r = record { kept = (refl, refl, refl); timeline = refl; moves = inl refl }

module _ (c : Status) (r : IncidentRecord) {cs : List Change} where
  -- A step that returns what is known to be updated.
  Updated-same :
      {x r' : IncidentRecord} {ds : List Change}
      → Updated c r x
      → ◌≡◌ {A = Outcome IncidentError (IncidentRecord × List Change)}
          (returns (x, ds))
          (returns (r', cs))
      → Updated c r r'
  Updated-same u h = subst (Updated c r) (ap (λ p. p.0) (returns-injective h)) u

  update_status-Updated :
      (now : ℕ) (next : Option Status) {r' : IncidentRecord}
      → update_status now c next r ≡ returns (r', cs)
      → Updated c r r'
  unfolding update_status
  update_status-Updated now none h = Updated-same (Updated-refl c r) h
  update_status-Updated now (some next) h =
      elim (Bool-cases (ltb (status_order next) (status_order c))) [
        | inl back ↦ absurd (raises-ne-returns (rw back at h))
        | inr forth ↦ elim (Bool-cases (status_order next == status_order c)) [
          | inl same ↦ Updated-same (Updated-refl c r) (rw (forth, same) at h)
          | inr away ↦
              Updated-same
                (record {
                  kept = (refl, refl, refl);
                  timeline = refl;
                  moves = inr (next, normalize_status-incident_status_name next, ground arith);
                })
                (rw (forth, away) at h)
        ]
      ]

  update_assignee-Updated :
      (w : String) (s : Store) (a : Option (Option String)) {r' : IncidentRecord}
      → update_assignee w s a r ≡ returns (r', cs)
      → Updated c r r'
  unfolding update_assignee
  update_assignee-Updated w s none h = Updated-same (Updated-refl c r) h
  update_assignee-Updated w s (some a) h = elim (Bool-cases (is_valid_assignee w a s)) [
    | inr bad ↦ absurd (raises-ne-returns (rw bad at h))
    | inl good ↦ elim (Bool-cases (same_assignee r.assignee a)) [
      | inl same ↦ Updated-same (Updated-refl c r) (rw (good, same) at h)
      | inr away ↦
          Updated-same (record { kept = (refl, refl, refl); timeline = refl; moves = inl refl })
            (rw (good, away) at h)
    ]
  ]

  change_severity-Updated :
      (next : IncidentSeverity) (current : Option IncidentSeverity) {r' : IncidentRecord}
      → change_severity next current r ≡ returns (r', cs)
      → Updated c r r'
  unfolding change_severity
  change_severity-Updated next none h = absurd (raises-ne-returns h)
  change_severity-Updated next (some current) h = elim (Bool-cases (same_severity current next)) [
    | inl same ↦ Updated-same (Updated-refl c r) (rw same at h)
    | inr away ↦
        Updated-same (record { kept = (refl, refl, refl); timeline = refl; moves = inl refl })
          (rw away at h)
  ]

  update_severity-Updated :
      (next : Option IncidentSeverity) {r' : IncidentRecord}
      → update_severity next r ≡ returns (r', cs)
      → Updated c r r'
  unfolding update_severity
  update_severity-Updated none h = Updated-same (Updated-refl c r) h
  update_severity-Updated (some next) h =
      change_severity-Updated next (normalize_severity r.severity) h

-- The status moves in the first part alone, so the parts follow each other.
Updated-trans :
    (c : Status) (r r' r'' : IncidentRecord) → Updated c r r' → Updated c r' r'' → Updated c r r''
Updated-trans c r r' r'' u v =
    let (i, w, t) = u.kept in
    let (i', w', t') = v.kept in
    record {
      kept = (i' ∙ i, w' ∙ w, t' ∙ t);
      timeline = v.timeline ∙ u.timeline;
      moves = elim v.moves [
        | inr later ↦ inr later
        | inl same ↦ elim u.moves [
          | inl same' ↦ inl (same ∙ same')
          | inr (c', e, l) ↦ inr (c', ap normalize_status same ∙ e, l)
        ]
      ];
    }

pub update_record-Updated :
    (now : ℕ) (w : String) (s : Store) (c : Status) (payload : LifecycleUpdate) (r : IncidentRecord)
    {r' : IncidentRecord} {cs : List Change}
    → update_record now w s c payload r ≡ returns (r', cs)
    → Updated c r r'
unfolding update_record
update_record-Updated now w s c payload r {r'} h =
    let ((r1, c1), e1, h1) = bind-returns (update_status now c payload.status r) _ h in
    let ((r2, c2), e2, h2) = bind-returns (update_assignee w s payload.assignee r1) _ h1 in
    let ((r3, c3), e3, h3) = bind-returns (update_severity payload.severity r2) _ h2 in
    let u1 = update_status-Updated c r now payload.status e1 in
    let u2 = update_assignee-Updated c r1 w s payload.assignee e2 in
    let u3 = update_severity-Updated c r2 payload.severity e3 in
    let last : r3 ≡ r' = ap (λ p. p.0) (returns-injective h3) in
    subst (Updated c r) last (Updated-trans c r r1 r3 u1 (Updated-trans c r1 r2 r3 u2 u3))
