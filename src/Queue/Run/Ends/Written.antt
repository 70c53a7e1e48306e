-- ===== src/Queue/Run/Ends/Written.antt =====
-- How a run of `run_one_job` ends, field by field.
use Prim.Native.String.{String}
use deployguardai.Prelude.{
  ◌↔◌, [], ◌∷◌, ℕ, ◌+◌, ◌*◌, ◌-◌, ◌^◌, ◌≡◌, ◌≤◌, ◌<◌, ◌⊎◌, refl, min, true, false, Option, none,
  some, returns, raises, arith, inl, inr, Outcome-cases, Outcome,
}
use deployguardai.Prelude.Texts.{strip}
use deployguardai.Queue.Payload.{Entries, mapping, key}
use deployguardai.Queue.Payload.Accepted.{is_clean, is_safe_key, validate_payload_iff}
use deployguardai.Queue.Job.{queued, succeeded, failed, dead_letter, BackgroundJob, Table, find}
use deployguardai.Queue.Lifecycle.{
  QueueError, Effect, lock, validate_result, completed, failing, retry_delay,
}
use deployguardai.Queue.Validity.{IsConsistent}
use deployguardai.Queue.Claim.{IsWorkerId}
use deployguardai.Queue.Claim.Oldest.{
  IsIdle, IsOldestAvailable, IsLeased, lock-IsLeased, select-IsIdle,
  IsOldestReady-IsOldestAvailable,
}
use deployguardai.Queue.Run.{
  Handler, HandlerResult, output, permanent_error, other_error, run_one_job,
}
use deployguardai.Queue.Run.Ends.{verdict, handled, Ends, RunEnds, run_one_job-RunEnds}

-- The lease is gone, and the job is the one that was leased.
abbrev IsReleased : (j j' : BackgroundJob) → Type 0
IsReleased j j' =
    (j'.id ≡ j.id) × (j'.attempts ≡ j.attempts) × (j'.locked_at ≡ none) × (j'.locked_by ≡ none)

-- What becomes of the leased job `j` by what its handler did.
abbrev pub Ending : (later : ℕ) → HandlerResult → (j j' : BackgroundJob) → Type 0
Ending later (output result) j j' =
    IsReleased j j'
    × (j'.status ≡ succeeded)
    × (j'.result ≡ result)
    × (j'.completed_at ≡ some later)
Ending later (permanent_error message) j j' =
    IsReleased j j' × (j'.status ≡ failed) × (j'.completed_at ≡ some later)
Ending later (other_error message) j j' =
    IsReleased j j'
    × (j.attempts < j.max_attempts
        → (j'.status ≡ queued)
          × (j'.available_at ≡ later + min (30 * 2 ^ (j.attempts - 1)) 3600 * 1_000_000))
    × (j.max_attempts ≤ j.attempts → (j'.status ≡ dead_letter) × (j'.completed_at ≡ some later))

-- A result can be stored where none of its keys looks like a credential and JSON can write its leaves.
abbrev pub IsStorable : HandlerResult → Type 0
IsStorable (output (some es)) = is_clean is_safe_key (mapping es) ≡ true
IsStorable _ = Unit

abbrev IsRaised : {A : Type 0} → Outcome QueueError A → Type 0
IsRaised (returns _) = ⊥
IsRaised (raises _) = Unit

-- The leased job `j` ends as `Ending` says, is returned, and is how its row is stored; or its result
-- is refused, the call raises, and the row stays leased.
abbrev pub Settles :
    (later : ℕ) → HandlerResult → BackgroundJob → Effect (Option BackgroundJob) → Type 0
Settles later r j (o, t) =
    (IsStorable r
      × (j' : BackgroundJob) × Ending later r j j'
      × (o ≡ returns (some j'))
      × (find j.id t ≡ some j'))
    ⊎ ((¬ IsStorable r) × IsRaised o × (find j.id t ≡ some j))

failing-Ending :
    (later : ℕ) (message : String) (j : BackgroundJob)
    → Ending later (other_error message) j (failing message true later 30 3600 j)
unfolding failing retry_delay
failing-Ending later message j = (
  (ground arith, ground arith, ground arith, ground arith),
  (λ h. ground arith),
  (λ h. ground arith),
)

permanent-Ending :
    (later : ℕ) (message : String) (j : BackgroundJob)
    → Ending later (permanent_error message) j (failing message false later 30 3600 j)
unfolding failing
permanent-Ending later message j = ((refl, refl, refl, refl), refl, refl)

completed-Ending :
    (later : ℕ) (result : Option Entries) (j : BackgroundJob)
    → Ending later (output result) j (completed result later j)
unfolding completed
completed-Ending later result j = ((refl, refl, refl, refl), refl, refl, refl)

IsStorable-iff :
    (result : Option Entries) → (validate_result result ≡ returns tt) ↔ IsStorable (output result)
unfolding validate_result
IsStorable-iff none = ((λ _. tt), (λ _. refl))
IsStorable-iff (some es) = validate_payload_iff (key "result" ∷ []) (mapping es)

unstorable :
    (later : ℕ) (r : HandlerResult) (j : BackgroundJob) (e : Effect (Option BackgroundJob))
    → ¬ IsStorable r
    → Ends j none e
    → Settles later r j e
unstorable later r j (returns o, t) bad h = elim h [ ]
unstorable later r j (raises x, t) bad h = inr (bad, tt, h)

Ends-Settles :
    (later : ℕ) (r : HandlerResult) (j : BackgroundJob) (e : Effect (Option BackgroundJob))
    → Ends j (verdict later r j) e
    → Settles later r j e
unfolding verdict
Ends-Settles later (output result) j e h = elim (Outcome-cases (validate_result result)) [
  | inl (x, bad) ↦
      unstorable later (output result) j e (λ good. cc (bad, (IsStorable-iff result).1 good))
        (rw (bad, verdict) at h)
  | inr (done, good) ↦
      let (o, found) = rw (good, verdict) at h in
      inl (
        (IsStorable-iff result).0 good,
        completed result later j,
        completed-Ending later result j,
        o,
        found,
      )
]
Ends-Settles later (permanent_error message) j e (o, found) =
    inl (tt, failing message false later 30 3600 j, permanent-Ending later message j, o, found)
Ends-Settles later (other_error message) j e (o, found) =
    inl (tt, failing message true later 30 3600 j, failing-Ending later message j, o, found)

module _ (worker_id : String) (handlers : String → Option Handler) (now later : ℕ) (t : Table) where
  -- What `run_one_job` may come to.
  abbrev pub JobEnds : Type 0
  JobEnds =
      IsIdle now t × (run_one_job worker_id handlers now later t ≡ (returns none, t))
      ⊎ ((row : BackgroundJob) × IsOldestAvailable now t row
          × (j : BackgroundJob) × IsLeased (strip worker_id) now row j
          × Settles later (handled handlers j) j (run_one_job worker_id handlers now later t))

  RunEnds-JobEnds : RunEnds worker_id handlers now later t → JobEnds
  RunEnds-JobEnds (inl (idle, same)) = inl (select-IsIdle now t idle, same)
  RunEnds-JobEnds (inr (row, old, ends)) =
      let j = lock (strip worker_id) now row in
      inr (
        row,
        IsOldestReady-IsOldestAvailable now t row old,
        j,
        lock-IsLeased (strip worker_id) now row,
        Ends-Settles later (handled handlers j) j _ ends,
      )

-- On consistent rows and for a worker id of 1 to 160 characters behind `strip`, one run of a worker
-- either finds no queued job that is available and changes nothing, or it leases an oldest one to the
-- worker, with one more attempt, and runs the handler that is registered for its type; without one the
-- job fails for good. Where the result can be stored, the call returns the job as its row is stored: it
-- has succeeded with the handler's result; it has failed for good, on a permanent error; and on any
-- other error it is queued again behind a delay that starts at 30 s and doubles up to an hour, or is
-- dead-lettered with no attempt left. It holds no lease then. A result that cannot be stored, since one
-- of its keys looks like a credential or JSON cannot write it, raises, and the row stays leased.
pub run_one_job-Ends :
    (worker_id : String) (handlers : String → Option Handler) (now later : ℕ) (t : Table)
    → IsConsistent t
    → IsWorkerId worker_id
    → JobEnds worker_id handlers now later t
run_one_job-Ends worker_id handlers now later t c w =
    RunEnds-JobEnds worker_id handlers now later t
      (run_one_job-RunEnds worker_id handlers now later t c w)
