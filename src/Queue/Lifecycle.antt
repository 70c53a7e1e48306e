-- ===== src/Queue/Lifecycle.antt =====
-- The operations of backend/app/job_queue.py on jobs that exist. An operation takes the committed
-- rows and returns what it raised or returned with the rows that it committed; a call that raises
-- leaves them alone. The time `now or datetime.now(UTC)` is an argument.
use Prim.Native.String.{String, count}
use deployguardai.Prelude.{
  ℕ, ◌+◌, ◌-◌, ◌*◌, ◌^◌, min, Bool, false, not, ◌&&◌, ◌||◌, Option, none, some, List, [], ◌∷◌, map,
  Outcome, Done, returns, raises, ltb, leb, if◌then◌else◌, length, take, select, or_else,
}
use deployguardai.Prelude.Texts.{strip, prefix, is_blank}
use deployguardai.Prelude.Int.{ℤ, pos, is_negative, magnitude}
use deployguardai.Prelude.Sort.{sort}
use deployguardai.Queue.Payload.{mapping, Entries, PayloadError, key, validate_payload}
use deployguardai.Queue.Job.{
  queued, running, succeeded, failed, dead_letter, is_status, BackgroundJob, Table, find, modify,
}

pub data QueueError : Type 0 where
  -- `ValueError`, by what was wrong
  bad_job_type bad_idempotency_key bad_max_attempts payload_not_object : QueueError
  bad_worker_id negative_backoff : QueueError
  backoff_above_maximum : QueueError
  bad_payload : PayloadError → QueueError
  -- `JobNotFound`, `JobStateError` of a job that is not running or not replayable
  job_not_found not_running not_replayable : String → QueueError
  -- `sqlalchemy.exc.IntegrityError`
  integrity_error : QueueError

-- What a call returns or raises, with the rows behind it.
abbrev pub Effect : Type 0 → Type 0
Effect A = Outcome QueueError A × Table

abbrev pub max_error_length : ℕ
max_error_length = 4000

abbrev pub default_max_attempts : ℕ
default_max_attempts = 5

abbrev pub default_backoff_seconds : ℤ
default_backoff_seconds = pos 30

abbrev pub default_max_backoff_seconds : ℤ
default_max_backoff_seconds = pos 3600

abbrev pub second : ℕ
second = 1_000_000

-- The `where` of `requeue_expired_jobs`; `locked_at < timestamp - lease` without the subtraction.
unfoldable pub has_expired : (lease now : ℕ) → BackgroundJob → Bool
unfolding is_status
has_expired lease now j =
    is_status j.status running
    && elim j.locked_at [ none ↦ false | some since ↦ ltb (since + lease) now ]

-- The body of its `for` loop.
unfoldable pub release_expired : (now : ℕ) → BackgroundJob → BackgroundJob
release_expired now j =
    let j' = record j {
      locked_at = none;
      locked_by = none;
      updated_at = now;
      last_error = some "worker lease expired";
    } in
    if leb j.max_attempts j.attempts
    then record j' { status = dead_letter; completed_at = some now }
    else record j' { status = queued; available_at = now }

unfoldable pub requeue_expired_jobs : (lease now : ℕ) → Table → ℕ × Table
unfolding has_expired release_expired
requeue_expired_jobs lease now t = (
  length (select (has_expired lease now) t),
  map (λ j. if has_expired lease now j then release_expired now j else j) t,
)

-- The `where` of the ready query, which the compare-and-set update tests again.
unfoldable pub is_ready : (now : ℕ) → BackgroundJob → Bool
unfolding is_status
is_ready now j = is_status j.status queued && leb j.available_at now

-- `order_by(available_at, created_at)`
unfoldable pub comes_first : BackgroundJob → BackgroundJob → Bool
comes_first a b =
    ltb a.available_at b.available_at
    || (leb a.available_at b.available_at && leb a.created_at b.created_at)

unfoldable pub candidates : (now : ℕ) → Table → List BackgroundJob
unfolding is_ready comes_first
candidates now t = take 20 (sort comes_first (select (is_ready now) t))

-- The values that the update writes.
unfoldable pub lock : (worker : String) (now : ℕ) → BackgroundJob → BackgroundJob
lock worker now j = record j {
  status = running;
  attempts = j.attempts + 1;
  locked_at = some now;
  locked_by = some worker;
  updated_at = now;
}

-- The row of `i` still is as the update's `where` wants it: `result.rowcount` is not 0.
unfoldable pub matches : (now : ℕ) (i : String) → Table → Bool
unfolding is_ready find
matches now i t = elim (find i t) [ none ↦ false | some j ↦ is_ready now j ]

-- The `for` loop of `claim_next_job`: the first candidate whose compare-and-set succeeds. The rows
-- are those at the time of the updates: other sessions may have changed them since the candidates
-- were read.
unfoldable pub claim_first :
    (worker : String) (now : ℕ) → List BackgroundJob → Table → Option BackgroundJob × Table
unfolding matches lock find modify
claim_first worker now [] t = (none, t)
claim_first worker now (c ∷ cs) t =
    let rest = claim_first worker now cs t in
    let t' = modify c.id (lock worker now) t in
    if matches now c.id t then (find c.id t', t') else rest

unfoldable pub claim_next_job :
    (worker_id : String) (now : ℕ) → Table → Effect (Option BackgroundJob)
unfolding candidates claim_first strip
claim_next_job worker_id now t =
    let worker = strip worker_id in
    if is_blank worker || ltb 160 (count worker)
    then (raises bad_worker_id, t)
    else let (job, t') = claim_first worker now (candidates now t) t in (returns job, t')

-- What `complete_job` writes.
unfoldable pub completed : (result : Option Entries) (now : ℕ) → BackgroundJob → BackgroundJob
completed result now j = record j {
  status = succeeded;
  result = result;
  locked_at = none;
  locked_by = none;
  updated_at = now;
  completed_at = some now;
}

unfoldable pub validate_result : Option Entries → Outcome PayloadError Done
unfolding validate_payload
validate_result none = returns tt
validate_result (some es) = validate_payload (key "result" ∷ []) (mapping es)

-- Writes what `f` makes of a job, and returns it: the tail that the transitions share.
unfoldable pub write_back :
    (BackgroundJob → BackgroundJob) → BackgroundJob → Table → Effect BackgroundJob
unfolding modify
write_back f j t = (returns (f j), modify j.id f t)

unfoldable pub complete_job :
    (job_id : String) (result : Option Entries) (now : ℕ) → Table → Effect BackgroundJob
unfolding find validate_result write_back completed is_status
complete_job job_id result now t = elim (find job_id t) [
  | none ↦ (raises (job_not_found job_id), t)
  | some j ↦
      if not (is_status j.status running)
      then (raises (not_running job_id), t)
      else elim (validate_result result) [
        | raises e ↦ (raises (bad_payload e), t)
        | returns _ ↦ write_back (completed result now) j t
      ]
]

-- `error.strip()[:MAX_ERROR_LENGTH] or "job failed"`
unfoldable pub recorded_error : String → String
unfolding strip prefix
recorded_error error =
    let e = prefix max_error_length (strip error) in if is_blank e then "job failed" else e

-- `min(backoff_seconds * 2 ** max(attempts - 1, 0), max_backoff_seconds)`, in seconds
unfoldable pub retry_delay : (backoff maximum attempts : ℕ) → ℕ
retry_delay backoff maximum attempts = min (backoff * 2 ^ (attempts - 1)) maximum

-- What `fail_job` writes.
unfoldable pub failing :
    (error : String) (retryable : Bool) (now backoff maximum : ℕ) → BackgroundJob → BackgroundJob
failing error retryable now backoff maximum j =
    let j' = record j {
      last_error = some (recorded_error error);
      locked_at = none;
      locked_by = none;
      updated_at = now;
    } in
    if retryable && ltb j.attempts j.max_attempts
    then record j' {
      status = queued;
      available_at = now + retry_delay backoff maximum j.attempts * second;
    }
    else if retryable
    then record j' { status = dead_letter; completed_at = some now }
    else record j' { status = failed; completed_at = some now }

unfoldable pub fail_job :
    (job_id error : String) (retryable : Bool) (now : ℕ) (backoff maximum : ℤ)
    → Table
    → Effect BackgroundJob
unfolding find write_back failing is_status
fail_job job_id error retryable now backoff maximum t =
    if is_negative backoff || is_negative maximum
    then (raises negative_backoff, t)
    else if ltb (magnitude maximum) (magnitude backoff)
    then (raises backoff_above_maximum, t)
    else elim (find job_id t) [
      | none ↦ (raises (job_not_found job_id), t)
      | some j ↦
          if not (is_status j.status running)
          then (raises (not_running job_id), t)
          else write_back (failing error retryable now (magnitude backoff) (magnitude maximum)) j t
    ]

-- What `replay_dead_letter_job` writes.
unfoldable pub replayed : (available_at : Option ℕ) (now : ℕ) → BackgroundJob → BackgroundJob
replayed available_at now j = record j {
  status = queued;
  attempts = 0;
  available_at = or_else available_at now;
  locked_at = none;
  locked_by = none;
  last_error = none;
  result = none;
  updated_at = now;
  completed_at = none;
}

unfoldable pub replay_dead_letter_job :
    (job_id : String) (available_at : Option ℕ) (now : ℕ) → Table → Effect BackgroundJob
unfolding find write_back replayed is_status
replay_dead_letter_job job_id available_at now t = elim (find job_id t) [
  | none ↦ (raises (job_not_found job_id), t)
  | some j ↦
      if not (is_status j.status failed || is_status j.status dead_letter)
      then (raises (not_replayable job_id), t)
      else write_back (replayed available_at now) j t
]
