-- ===== src/Incident/Refused.antt =====
-- What a lifecycle update that raises leaves behind (backend/app/operations_services.py).
use Prim.Native.String.{String}
use deployguardai.Prelude.{
  ℕ, ◌≡◌, ◌⊎◌, inl, inr, refl, sym, ◌∙◌, ap, true, Option, none, some, List, [], ◌∷◌, Outcome,
  returns, raises, Outcome-cases, arith, Bool-cases, Option-cases, is_some,
}
use deployguardai.Workspace.Store.{responder, User}
use deployguardai.Workspace.Access.{membership_for}
use deployguardai.Incident.Status.{Status, normalize_status, normalize_severity}
use deployguardai.Incident.Record.{
  Change, IncidentRecord, Incidents, IncidentError, invalid_severity, find_incident,
}
use deployguardai.Incident.Update.{
  LifecycleUpdate, Changed, is_resolved, lifecycle_response, finish_update, update_found,
  update_incident_lifecycle,
}
use deployguardai.Incident.Later.{Updated, update_record-Updated}

raises-injective {ℓ κ} :
    {E : Type ℓ} {A : Type κ} {e f : E} → ◌≡◌ {A = Outcome E A} (raises e) (raises f) → e ≡ f
raises-injective h = cc

-- Where the status is supported, the response is refused for the severity alone.
response-raises :
    (r : IncidentRecord) {e : IncidentError}
    → is_some (normalize_status r.status) ≡ true
    → lifecycle_response r ≡ raises e
    → e ≡ invalid_severity
unfolding lifecycle_response
response-raises r k h = elim (Bool-cases (is_some (normalize_severity r.severity))) [
  | inl good ↦ ground arith
  | inr bad ↦ sym (raises-injective (rw (k, bad) at h))
]

Updated-status :
    (c : Status) (r x : IncidentRecord)
    → normalize_status r.status ≡ some c
    → Updated c r x
    → is_some (normalize_status x.status) ≡ true
Updated-status c r x h u = elim u.moves [
  | inl same ↦ ap (λ t. is_some (normalize_status t)) same ∙ ap is_some h
  | inr (c', e, _) ↦ ap is_some e
]

module _ (s : Incidents) {e : IncidentError} {s' : Incidents} where
  finish_update-raises :
      (u w request : String) (now : ℕ) (r : IncidentRecord) (c : Status) (step : Changed)
      → normalize_status r.status ≡ some c
      → ((x : IncidentRecord) (cs : List Change) → step ≡ returns (x, cs) → Updated c r x)
      → finish_update u w request now s step ≡ (raises e, s')
      → (s' ≡ s) ⊎ (e ≡ invalid_severity)
  unfolding finish_update
  finish_update-raises u w request now r c (raises f) k up h = inl (sym (ap (λ p. p.1) h))
  finish_update-raises u w request now r c (returns (x, [])) k up h = inl (sym (ap (λ p. p.1) h))
  finish_update-raises u w request now r c (returns (x, d ∷ ds)) k up h =
      inr (response-raises _ (Updated-status c r x k (up x (d ∷ ds) refl)) (ap (λ p. p.0) h))

  update_found-raises :
      (now : ℕ) (u : User) (w : String) (payload : LifecycleUpdate) (request : String)
      (row : Option IncidentRecord)
      → update_found now u w payload request s row ≡ (raises e, s')
      → (s' ≡ s) ⊎ (e ≡ invalid_severity)
  unfolding update_found
  update_found-raises now u w payload request none h = inl (sym (ap (λ p. p.1) h))
  update_found-raises now u w payload request (some r) h =
      elim (Option-cases (normalize_status r.status)) [
        | inl k ↦ inl (sym (ap (λ p. p.1) (rw (k, update_found) at h)))
        | inr (c, k) ↦ elim (Bool-cases (is_resolved c)) [
          | inl over ↦ inl (sym (ap (λ p. p.1) (rw (k, update_found, over) at h)))
          | inr going ↦
              finish_update-raises u.id w request now r c _ k
                (λ x cs. update_record-Updated now w s.base c payload r)
                (rw (k, update_found, going) at h)
        ]
      ]

-- An update that raises leaves every row as it was, unless what it raises is that the severity of
-- the incident is not supported.
pub update_raises_unchanged :
    (now : ℕ) (u : User) (w i : String) (payload : LifecycleUpdate) (request : String)
    (s s' : Incidents) (e : IncidentError)
    → update_incident_lifecycle now u w i payload request s ≡ (raises e, s')
    → (s' ≡ s) ⊎ (e ≡ invalid_severity)
unfolding update_incident_lifecycle
update_raises_unchanged now u w i payload request s s' e h =
    elim (Outcome-cases (membership_for u.id w responder s.base)) [
      | inl (f, k) ↦ inl (sym (ap (λ p. p.1) (rw (k, update_incident_lifecycle) at h)))
      | inr (m, k) ↦
          update_found-raises s now u w payload request (find_incident i w s.incidents)
            (rw (k, update_incident_lifecycle) at h)
    ]
