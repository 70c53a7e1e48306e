-- ===== src/Queue/Run/Ends.antt =====
-- How a run of `run_one_job` ends, by what the code writes.
pub mod Written
use Prim.Native.String.{String}
use deployguardai.Prelude.{
  ℕ, ◌≡◌, refl, ap, ◌⊎◌, true, false, Option, none, some, [], returns, raises, inl, inr,
  Option-cases, Outcome-cases, select,
}
use deployguardai.Prelude.Texts.{strip}
use deployguardai.Queue.Job.{running, is_status, BackgroundJob, Table, find, modify}
use deployguardai.Queue.Job.Rows.{find-modify_self}
use deployguardai.Queue.Lifecycle.{
  Effect, is_ready, lock, completed, complete_job, validate_result, failing, fail_job, write_back,
  claim_next_job,
}
use deployguardai.Queue.Validity.{
  IsConsistent, completed-KeepsKeys, failing-KeepsKeys, lock-KeepsKeys,
}
use deployguardai.Queue.Claim.{IsOldestReady, IsWorkerId, Takes, claim_next_job-Takes}
use deployguardai.Queue.Run.{
  Handler, HandlerResult, output, permanent_error, other_error, context_of, as_optional, settle,
  missing_handler, dispatch, run_one_job,
}

-- What the handler makes of the claimed job, which is written to its row; nothing where the result
-- is refused.
unfoldable pub verdict : (now : ℕ) → HandlerResult → BackgroundJob → Option BackgroundJob
verdict now (output result) j = elim (validate_result result) [
  | returns _ ↦ some (completed result now j)
  | raises _ ↦ none
]
verdict now (permanent_error message) j = some (failing message false now 30 3600 j)
verdict now (other_error message) j = some (failing message true now 30 3600 j)

-- A job type without a handler is a permanent error.
unfoldable pub handled : (String → Option Handler) → BackgroundJob → HandlerResult
handled handlers j = elim (handlers j.job_type) [
  | none ↦ permanent_error (missing_handler j.job_type)
  | some handler ↦ handler j.payload (context_of j)
]

-- The job is returned as its row says it ended, or the call raises and the row stays leased.
abbrev pub Ends : BackgroundJob → Option BackgroundJob → Effect (Option BackgroundJob) → Type 0
Ends j (some j') (r, t) = (r ≡ returns (some j')) × (find j.id t ≡ some j')
Ends j none (returns _, t) = ⊥
Ends j none (raises _, t) = find j.id t ≡ some j

settle-Ends :
    (now : ℕ) (j : BackgroundJob) (r : HandlerResult) (t : Table)
    → find j.id t ≡ some j
    → is_status j.status running ≡ true
    → Ends j (verdict now r j) (as_optional (settle now j r t))
unfolding settle write_back verdict
settle-Ends now j (output result) t h s =
    let hit = find-modify_self j.id (completed result now) (completed-KeepsKeys now result) t h in
    rw (h, s, complete_job)
      (elim (Outcome-cases (validate_result result)) [
        | inl (x, e) ↦ rw (e, verdict) h
        | inr (x, e) ↦ rw (e, verdict) (refl, hit)
      ])
settle-Ends now j (permanent_error message) t h s =
    let f = failing message false now 30 3600 in
    let hit = find-modify_self j.id f (failing-KeepsKeys now message false 30 3600) t h in
    rw (h, s, fail_job) (refl, hit)
settle-Ends now j (other_error message) t h s =
    let f = failing message true now 30 3600 in
    let hit = find-modify_self j.id f (failing-KeepsKeys now message true 30 3600) t h in
    rw (h, s, fail_job) (refl, hit)

dispatch-Ends :
    (handlers : String → Option Handler) (now : ℕ) (j : BackgroundJob) (t : Table)
    → find j.id t ≡ some j
    → is_status j.status running ≡ true
    → Ends j (verdict now (handled handlers j) j) (as_optional (dispatch handlers now j t))
unfolding dispatch handled
dispatch-Ends handlers now j t h s = elim (Option-cases (handlers j.job_type)) [
  | inl e ↦
      rw (e, handled, dispatch)
        (settle-Ends now j (permanent_error (missing_handler j.job_type)) t h s)
  | inr (handler, e) ↦
      rw (e, handled, dispatch) (settle-Ends now j (handler j.payload (context_of j)) t h s)
]

module _ (worker_id : String) (handlers : String → Option Handler) (now later : ℕ) (t : Table) where
  -- What `run_one_job` may come to.
  abbrev pub RunEnds : Type 0
  RunEnds =
      (select (is_ready now) t ≡ [])
        × (run_one_job worker_id handlers now later t ≡ (returns none, t))
      ⊎ ((row : BackgroundJob) × IsOldestReady now t row
          × (let j = lock (strip worker_id) now row in
              Ends j (verdict later (handled handlers j) j)
                (run_one_job worker_id handlers now later t)))

  locked_row :
      (row : BackgroundJob) (t' : Table)
      → find row.id t ≡ some row
      → t' ≡ modify row.id (lock (strip worker_id) now) t
      → (find (lock (strip worker_id) now row).id t' ≡ some (lock (strip worker_id) now row))
        × (is_status (lock (strip worker_id) now row).status running ≡ true)
  unfolding lock is_status
  locked_row row t' h e =
      let f = lock (strip worker_id) now in
      (rw e (find-modify_self row.id f (lock-KeepsKeys now (strip worker_id)) t h), refl)

  RunEnds-claimed :
      (o : Option BackgroundJob) (t' : Table)
      → claim_next_job worker_id now t ≡ (returns o, t')
      → Takes (strip worker_id) now t (o, t')
      → RunEnds
  unfolding run_one_job
  RunEnds-claimed none t' e (idle, same) =
      inl (idle, rw (e, run_one_job) (ap (λ s. (returns none, s)) same))
  RunEnds-claimed (some j) t' e (row, old, locked, changed) =
      let f = lock (strip worker_id) now in
      let (found, busy) = locked_row row t' old.found changed in
      let done = dispatch-Ends handlers later (f row) t' found busy in
      inr (row, old, rw (e, run_one_job) (rw locked done))

pub run_one_job-RunEnds :
    (worker_id : String) (handlers : String → Option Handler) (now later : ℕ) (t : Table)
    → IsConsistent t
    → IsWorkerId worker_id
    → RunEnds worker_id handlers now later t
run_one_job-RunEnds worker_id handlers now later t c w =
    let (o, t', e, claims) = claim_next_job-Takes worker_id now t c w in
    RunEnds-claimed worker_id handlers now later t o t' e claims
