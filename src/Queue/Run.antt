-- ===== src/Queue/Run.antt =====
-- `run_one_job` of backend/app/job_queue.py. A handler is code of the worker: a parameter, which
-- returns a result or raises. Between the claim and the end no other session touches the claimed
-- row, which is what the object cached in the session shows.
pub mod Ends
use Prim.Native.String
use Prim.Native.String.{String}
use deployguardai.Prelude.{
  ℕ, Bool, true, false, Option, none, some, Outcome, returns, raises, if◌then◌else◌,
}
use deployguardai.Queue.Payload.{Entries}
use deployguardai.Queue.Job.{BackgroundJob, Table}
use deployguardai.Queue.Lifecycle.{
  QueueError, Effect, default_backoff_seconds, default_max_backoff_seconds, claim_next_job,
  complete_job, fail_job,
}

pub record JobContext : Type 0 where
  pub job_id : String
  pub job_type : String
  pub workspace_id : Option String
  pub request_id : Option String
  pub attempt : ℕ

pub data HandlerResult : Type 0 where
  output : Option Entries → HandlerResult
  -- `PermanentJobError`, any other `Exception`
  permanent_error other_error : (message : String) → HandlerResult

abbrev pub Handler : Type 0
Handler = Entries → JobContext → HandlerResult

abbrev pub context_of : BackgroundJob → JobContext
context_of j = record {
  job_id = j.id;
  job_type = j.job_type;
  workspace_id = j.workspace_id;
  request_id = j.request_id;
  attempt = j.attempts;
}

abbrev pub as_optional : Effect BackgroundJob → Effect (Option BackgroundJob)
as_optional (returns j, t) = (returns (some j), t)
as_optional (raises e, t) = (raises e, t)

-- How a job ends by what its handler did.
unfoldable pub settle : (now : ℕ) → BackgroundJob → HandlerResult → Table → Effect BackgroundJob
unfolding complete_job fail_job
settle now j (output result) t = complete_job j.id result now t
settle now j (permanent_error message) t =
    fail_job j.id message false now default_backoff_seconds default_max_backoff_seconds t
settle now j (other_error message) t =
    fail_job j.id message true now default_backoff_seconds default_max_backoff_seconds t

unfoldable pub missing_handler : String → String
missing_handler job_type = String.◌++◌ "no handler registered for job type " job_type

unfoldable pub dispatch :
    (handlers : String → Option Handler) (now : ℕ) → BackgroundJob → Table → Effect BackgroundJob
unfolding settle missing_handler
dispatch handlers now j t = elim (handlers j.job_type) [
  | none ↦ settle now j (permanent_error (missing_handler j.job_type)) t
  | some handler ↦ settle now j (handler j.payload (context_of j)) t
]

-- What follows the claim.
unfoldable pub after_claim :
    (handlers : String → Option Handler) (later : ℕ)
    → Effect (Option BackgroundJob)
    → Effect (Option BackgroundJob)
unfolding dispatch
after_claim handlers later (raises e, t) = (raises e, t)
after_claim handlers later (returns none, t) = (returns none, t)
after_claim handlers later (returns (some j), t) = as_optional (dispatch handlers later j t)

-- `now` is the time of the claim, `later` that at which the handler is done.
unfoldable pub run_one_job :
    (worker_id : String) (handlers : String → Option Handler) (now later : ℕ)
    → Table
    → Effect (Option BackgroundJob)
unfolding claim_next_job after_claim
run_one_job worker_id handlers now later t =
    after_claim handlers later (claim_next_job worker_id now t)
