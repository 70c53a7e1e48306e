-- ===== src/Queue/Enqueue.antt =====
-- `enqueue_job` of backend/app/job_queue.py.
pub mod Keeps
pub mod Idempotent
use Prim.Native.String.{String, count}
use text.Mathlib.Text.{◌==◌ as str_eq}
use deployguardai.Prelude.{
  ℕ, Bool, true, false, not, ◌&&◌, ◌||◌, Option, none, some, List, [], ◌∷◌, ◌++◌, Outcome, Done,
  returns, raises, ◌>>=◌, ◌>>◌, raise_if, ltb, leb, if◌then◌else◌, any, is_some, or_else,
}
use deployguardai.Prelude.Texts.{strip, is_blank}
use deployguardai.Queue.Payload.{Value, mapping, Entries, key, validate_payload}
use deployguardai.Queue.Job.{queued, BackgroundJob, Table, find_key}
use deployguardai.Queue.Lifecycle.{
  QueueError, bad_job_type, bad_idempotency_key, bad_max_attempts, payload_not_object, bad_payload,
  integrity_error, Effect,
}

-- The keyword arguments of `enqueue_job`.
pub record EnqueueRequest : Type 0 where
  pub job_type : String
  pub payload : Value
  pub idempotency_key : Option String
  pub workspace_id : Option String
  pub request_id : Option String
  pub available_at : Option ℕ
  pub max_attempts : ℕ
  pub commit : Bool

-- What a call draws from outside: the time, `str(uuid4())`, and which workspaces there are, for the
-- foreign key.
pub record Draw : Type 0 where
  pub now : ℕ
  pub fresh_id : String
  pub has_workspace : String → Bool

unfoldable pub normalize_key : Option String → Outcome QueueError (Option String)
unfolding strip
normalize_key none = returns none
normalize_key (some k) =
    let s = strip k in
    if is_blank s || ltb 160 (count s) then raises bad_idempotency_key else returns (some s)

unfoldable pub checked_object : Value → Outcome QueueError Entries
unfolding validate_payload
checked_object (mapping es) = elim (validate_payload (key "payload" ∷ []) (mapping es)) [
  | raises e ↦ raises (bad_payload e)
  | returns _ ↦ returns es
]
checked_object _ = raises payload_not_object

-- The checks of the arguments, and the row that they lead to.
unfoldable pub prepare : Draw → EnqueueRequest → Outcome QueueError BackgroundJob
unfolding normalize_key checked_object strip
prepare d r = do
  let normalized_type = strip r.job_type
  raise_if (is_blank normalized_type || ltb 120 (count normalized_type)) bad_job_type
  idempotency_key ← normalize_key r.idempotency_key
  raise_if (not (leb 1 r.max_attempts && leb r.max_attempts 100)) bad_max_attempts
  payload ← checked_object r.payload
  returns record {
    id = d.fresh_id;
    job_type = normalized_type;
    workspace_id = r.workspace_id;
    payload = payload;
    idempotency_key = idempotency_key;
    status = queued;
    attempts = 0;
    max_attempts = r.max_attempts;
    available_at = or_else r.available_at d.now;
    locked_at = none;
    locked_by = none;
    last_error = none;
    result = none;
    request_id = r.request_id;
    created_at = d.now;
    updated_at = d.now;
    completed_at = none;
  }

unfoldable pub find_existing : Option String → Table → Option BackgroundJob
unfolding find_key
find_existing none t = none
find_existing (some k) t = find_key k t

-- The primary key, the unique key and the foreign key of the table.
unfoldable pub violates : (String → Bool) → BackgroundJob → Table → Bool
unfolding find_existing
violates has_workspace j t =
    any (λ row. str_eq row.id j.id) t
    || is_some (find_existing j.idempotency_key t)
    || elim j.workspace_id [ none ↦ false | some w ↦ not (has_workspace w) ]

-- The insert, and what follows where it violates a constraint: with `commit` the key is looked up
-- again after the rollback.
unfoldable pub insert_job : Draw → (commit : Bool) → BackgroundJob → Table → Effect BackgroundJob
unfolding violates find_existing
insert_job d commit j t =
    if not (violates d.has_workspace j t)
    then (returns j, t ++ j ∷ [])
    else if not commit
    then (raises integrity_error, t)
    else elim (find_existing j.idempotency_key t) [
      | some existing ↦ (returns existing, t)
      | none ↦ (raises integrity_error, t)
    ]

-- `enqueue_job`. The lookup sees the rows `seen`, and the insert meets the rows `t`: other sessions
-- may have committed in between. With `commit` off the rows are those of the caller's transaction.
unfoldable pub enqueue_job : Draw → EnqueueRequest → (seen t : Table) → Effect BackgroundJob
unfolding prepare find_existing insert_job
enqueue_job d r seen t = elim (prepare d r) [
  | raises e ↦ (raises e, t)
  | returns j ↦ elim (find_existing j.idempotency_key seen) [
    | some existing ↦ (returns existing, t)
    | none ↦ insert_job d r.commit j t
  ]
]
