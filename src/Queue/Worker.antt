-- ===== src/Queue/Worker.antt =====
-- `run_worker` of backend/app/worker.py. The rounds are those before the stop event is set, each with
-- what the other sessions have done since the round before, its times and its handlers; a round is not
-- interrupted, so that its session shows the rows as they are; the waiting
-- between two rounds and the log are not modelled.
use Prim.Native.String.{String}
use deployguardai.Prelude.{
  ℕ, ◌+◌, ◌≤◌, Bool, false, ◌||◌, Option, none, some, List, [], ◌∷◌, Outcome, returns, raises, leb,
  if◌then◌else◌,
}
use deployguardai.Queue.Job.{BackgroundJob, Table}
use deployguardai.Queue.Lifecycle.{QueueError, Effect, requeue_expired_jobs}
use deployguardai.Queue.Validity.{IsConsistent}
use deployguardai.Queue.Run.{Handler, run_one_job}
use deployguardai.Queue.Trace.{Action, run_actions}

pub record Round : Type 0 where
  pub others : List Action
  pub now : ℕ
  pub later : ℕ
  pub handlers : String → Option Handler

pub record WorkerSettings : Type 0 where
  pub worker_id : String
  pub lease : ℕ
  pub max_jobs : Option ℕ
  pub exit_when_idle : Bool

-- `max_jobs is not None and processed >= max_jobs`
abbrev pub is_reached : Option ℕ → (processed : ℕ) → Bool
is_reached none processed = false
is_reached (some most) processed = leb most processed

-- One round: the jobs of expired leases, then one job.
unfoldable pub run_round : WorkerSettings → Round → Table → Effect (Option BackgroundJob)
run_round s r t =
    run_one_job s.worker_id r.handlers r.now r.later
      (requeue_expired_jobs s.lease r.now (run_actions r.others t)).1

-- Behind a round: what the function returns or raises, or the rounds that follow.
unfoldable pub after_round :
    WorkerSettings
    → (processed : ℕ) → Effect (Option BackgroundJob)
    → (rest : ℕ → Table → Outcome QueueError ℕ × Table) → Outcome QueueError ℕ × Table
after_round s processed (raises e, t) rest = (raises e, t)
after_round s processed (returns none, t) rest =
    if is_reached s.max_jobs processed || s.exit_when_idle
    then (returns processed, t)
    else rest processed t
after_round s processed (returns (some j), t) rest =
    if is_reached s.max_jobs (processed + 1)
    then (returns (processed + 1), t)
    else rest (processed + 1) t

unfoldable pub run_rounds :
    WorkerSettings → List Round → (processed : ℕ) → Table → Outcome QueueError ℕ × Table
run_rounds s [] processed t = (returns processed, t)
run_rounds s (r ∷ rs) processed t =
    after_round s processed (run_round s r t) (λ n t'. run_rounds s rs n t')

-- The call itself, with arguments that its first tests accept.
unfoldable pub run_worker : WorkerSettings → List Round → Table → Outcome QueueError ℕ × Table
unfolding run_rounds
run_worker s rounds t = run_rounds s rounds 0 t

-- What the other sessions do before the round keeps the rows consistent.
abbrev pub AreGood : Round → Type 0
AreGood r = (t : Table) → IsConsistent t → IsConsistent (run_actions r.others t)

-- What a worker that returns has done: consistent rows, and no more jobs than it may.
abbrev pub IsBoundedRun : Option ℕ → Outcome QueueError ℕ × Table → Type 0
IsBoundedRun none (_, t) = IsConsistent t
IsBoundedRun (some most) (returns n, t) = (n ≤ most) × IsConsistent t
IsBoundedRun (some most) (raises e, t) = IsConsistent t
