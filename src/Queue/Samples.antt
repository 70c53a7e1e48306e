-- ===== src/Queue/Samples.antt =====
-- Sample rows of the queue, for the tests.
use Prim.Native.String.{String}
use deployguardai.Prelude.{ℕ, true, false, Option, none, some, [], ◌∷◌}
use deployguardai.Queue.Payload.{text, mapping, Entries, end, entry}
use deployguardai.Queue.Job.{JobStatus, queued, running, succeeded, BackgroundJob, Table}
use deployguardai.Queue.Enqueue.{Draw, EnqueueRequest}
use deployguardai.Queue.Run.{Handler, output}

abbrev pub sample_payload : Entries
sample_payload = entry "repository" (text "octo/app") end

-- A job that became available at 10, and has been locked at 100 or not.
abbrev pub sample :
    (id : String)
    → JobStatus
    → (attempts : ℕ) (locked_at : Option ℕ) (locked_by : Option String) (updated_at : ℕ)
    → BackgroundJob
sample id status attempts locked_at locked_by updated_at = record {
  id = id;
  job_type = "github.sync";
  workspace_id = none;
  payload = sample_payload;
  idempotency_key = none;
  status = status;
  attempts = attempts;
  max_attempts = 2;
  available_at = 10;
  locked_at = locked_at;
  locked_by = locked_by;
  last_error = none;
  result = none;
  request_id = none;
  created_at = 1;
  updated_at = updated_at;
  completed_at = none;
}

abbrev pub waiting : String → BackgroundJob
waiting id = sample id queued 0 none none 1

abbrev pub leased : (id worker : String) → BackgroundJob
leased id worker = sample id running 1 (some 100) (some worker) 100

abbrev pub done : String → BackgroundJob
done id = record (sample id succeeded 1 none none 150) { completed_at = some 150 }

-- One job that waits, one that is leased to w0, and one that has succeeded.
abbrev pub rows : Table
rows = waiting "a" ∷ leased "b" "w0" ∷ done "c" ∷ []

-- Two jobs that wait.
abbrev pub two_rows : Table
two_rows = waiting "a" ∷ waiting "d" ∷ []

abbrev pub sample_draw : (id : String) → Draw
sample_draw id = record { now = 50; fresh_id = id; has_workspace = λ _. false }

abbrev pub sample_request : (job_type : String) → EnqueueRequest
sample_request job_type = record {
  job_type = job_type;
  payload = mapping sample_payload;
  idempotency_key = some " delivery-1 ";
  workspace_id = none;
  request_id = none;
  available_at = none;
  max_attempts = 5;
  commit = true;
}

-- The row that a first request leads to.
abbrev pub inserted : (id job_type : String) → BackgroundJob
inserted id job_type = record {
  id = id;
  job_type = job_type;
  workspace_id = none;
  payload = sample_payload;
  idempotency_key = some "delivery-1";
  status = queued;
  attempts = 0;
  max_attempts = 5;
  available_at = 50;
  locked_at = none;
  locked_by = none;
  last_error = none;
  result = none;
  request_id = none;
  created_at = 50;
  updated_at = 50;
  completed_at = none;
}

abbrev pub sample_handler : Handler
sample_handler payload context = output (some payload)

abbrev pub sample_handlers : String → Option Handler
sample_handlers _ = some sample_handler
