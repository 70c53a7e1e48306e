-- ===== src/Queue/Job.antt =====
-- backend/app/job_models.py: a row of `background_jobs`, and the table. A point in time is a number
-- of microseconds.
pub mod Rows
pub mod Append
use Prim.Native.String.{String}
use text.Mathlib.Text.{◌==◌ as str_eq}
use deployguardai.Prelude.{
  ℕ, ◌+◌, Bool, true, false, Option, none, some, List, [], ◌∷◌, map, ltb, if◌then◌else◌,
}
use deployguardai.Queue.Payload.{Entries}

pub data JobStatus : Type 0 where
  queued running succeeded failed dead_letter : JobStatus

unfoldable pub is_status : JobStatus → JobStatus → Bool
is_status queued queued = true
is_status running running = true
is_status succeeded succeeded = true
is_status failed failed = true
is_status dead_letter dead_letter = true
is_status _ _ = false

pub record BackgroundJob : Type 0 where
  pub id : String
  pub job_type : String
  pub workspace_id : Option String
  pub payload : Entries
  pub idempotency_key : Option String
  pub status : JobStatus
  pub attempts : ℕ
  pub max_attempts : ℕ
  pub available_at : ℕ
  pub locked_at : Option ℕ
  pub locked_by : Option String
  pub last_error : Option String
  pub result : Option Entries
  pub request_id : Option String
  pub created_at : ℕ
  pub updated_at : ℕ
  pub completed_at : Option ℕ

-- The rows of `background_jobs`, in the order in which the database holds them.
abbrev pub Table : Type 0
Table = List BackgroundJob

-- `session.get(BackgroundJob, job_id)`
unfoldable pub find : String → Table → Option BackgroundJob
find i [] = none
find i (j ∷ t) = if str_eq j.id i then some j else find i t

-- The flush of a changed object: its row is written, by its primary key.
unfoldable pub modify : String → (BackgroundJob → BackgroundJob) → Table → Table
modify i f [] = []
modify i f (j ∷ t) = (if str_eq j.id i then f j else j) ∷ modify i f t

unfoldable pub has_key : String → BackgroundJob → Bool
has_key k j = elim j.idempotency_key [ none ↦ false | some k' ↦ str_eq k' k ]

-- `select(BackgroundJob).where(BackgroundJob.idempotency_key == idempotency_key)`
unfoldable pub find_key : String → Table → Option BackgroundJob
unfolding has_key
find_key k [] = none
find_key k (j ∷ t) = if has_key k j then some j else find_key k t
