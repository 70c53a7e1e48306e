-- ===== src/Queue/Tests.antt =====
-- The theorems on the queue at sample rows.
use deployguardai.Prelude.{
  ◌+◌, ◌≡◌, ◌≢◌, ◌≤◌, ◌↔◌, refl, min, ◌*◌, true, Option, none, some, List, [], ◌∷◌, returns, arith,
}
use deployguardai.Prelude.Int.{pos}
use deployguardai.Prelude.Texts.{strip}
use deployguardai.Queue.Payload.{mapping, key, is_sensitive, dumps, validate_payload}
use deployguardai.Queue.Payload.Accepted.{is_clean, is_safe_key, validate_payload_iff}
use deployguardai.Queue.Job.{BackgroundJob, Table, find, find_key, is_status, running, succeeded}
use deployguardai.Queue.Lifecycle.{
  claim_first, claim_next_job, requeue_expired_jobs, fail_job, complete_job, retry_delay,
}
use deployguardai.Queue.Validity.{IsConsistent}
use deployguardai.Queue.Enqueue.{normalize_key, prepare, enqueue_job}
use deployguardai.Queue.Enqueue.Idempotent.{enqueue_job_again, enqueue_job_race}
use deployguardai.Queue.Claim.{IsWorkerId}
use deployguardai.Queue.Claim.Oldest.{Claims, claim_next_job-Claims}
use deployguardai.Queue.Claim.Exclusive.{claim_first_exclusive}
use deployguardai.Queue.Run.Ends.Written.{JobEnds, run_one_job-Ends}
use deployguardai.Queue.Trace.{
  Action, claim, expire, complete, fail, objects, SeesCurrent, run_actions,
  run_actions-IsConsistent,
}
use deployguardai.Queue.Session.{changed_object, flush}
use deployguardai.Queue.Session.Moved.{unwritten, shown}
use deployguardai.Queue.Trace.Attempts.{times_handed_out, times_handed_out-le, succeeded_final}
use deployguardai.Queue.Leases.{IsRecovered, requeue_expired_jobs-IsRecovered}
use deployguardai.Queue.Retry.{Retries, retry_delay_doubles, fail_job-Retries}
use deployguardai.Queue.Worker.{WorkerSettings, Round}
use deployguardai.Queue.Samples.{
  sample_payload, waiting, leased, done, rows, two_rows, sample_draw, sample_request, inserted,
  sample_handlers,
}

rows-IsConsistent : IsConsistent rows
unfolding find find_key
rows-IsConsistent = record {
  valid = (ground arith, (ground arith, (ground arith, tt)));
  unique = (refl, (refl, (refl, tt)));
  unique_keys = (tt, (tt, (tt, tt)));
}

-- `a` behind its second claim.
abbrev again : BackgroundJob
again = record (leased "a" "w2") {
  attempts = 2;
  available_at = 500;
  locked_at = some 600;
  last_error = some "worker lease expired";
  updated_at = 600;
}

abbrev claim_a : Action
claim_a = claim "w1" 100 rows

abbrev complete_b : Action
complete_b = complete "b" (some sample_payload) 450 rows

abbrev expire_a : Action
expire_a = expire 300 500 (leased "a" "w1" ∷ [])

abbrev claim_again : Action
claim_again = claim "w2" 600 rows

abbrev fail_a : Action
fail_a = fail "a" "boom" true 700 (pos 30) (pos 3600) (again ∷ [])

-- A worker claims `a`, while `b` completes in a session that still shows `a` as it was; the lease of `a`
-- runs out, and another worker claims it and fails.
abbrev steps : List Action
steps = claim_a ∷ complete_b ∷ expire_a ∷ claim_again ∷ fail_a ∷ []

-- The action does not write the row.
free :
    (x : Action) (row : BackgroundJob)
    → changed_object (objects x).0 (objects x).1 row.id ≡ none
    → (b a : BackgroundJob) → changed_object (objects x).0 (objects x).1 row.id ≡ some (b, a)
    → b ≡ row
free x row h = unwritten (objects x).0 (objects x).1 row h

-- The session of the action shows the row as it is.
seen :
    (x : Action) (row : BackgroundJob)
    → find row.id (objects x).0 ≡ some row
    → (b a : BackgroundJob) → changed_object (objects x).0 (objects x).1 row.id ≡ some (b, a)
    → b ≡ row
seen x row h = shown (objects x).0 (objects x).1 row h

steps-SeesCurrent : SeesCurrent steps rows
unfolding objects run_actions changed_object flush find claim_first requeue_expired_jobs
    complete_job fail_job is_sensitive dumps
steps-SeesCurrent = (
  (free claim_a _ refl, (free claim_a _ refl, (free claim_a _ refl, tt))),
  (
    (free complete_b _ refl, (seen complete_b _ refl, (free complete_b _ refl, tt))),
    (
      (seen expire_a _ refl, (free expire_a _ refl, (free expire_a _ refl, tt))),
      (
        (free claim_again _ refl, (free claim_again _ refl, (free claim_again _ refl, tt))),
        ((seen fail_a _ refl, (free fail_a _ refl, (free fail_a _ refl, tt))), tt),
      ),
    ),
  ),
)

run_actions-IsConsistent_example : IsConsistent (run_actions steps rows)
run_actions-IsConsistent_example =
    run_actions-IsConsistent steps rows steps-SeesCurrent rows-IsConsistent

-- The first worker still holds `a` when the second one has it: its failure queues a job whose attempts
-- are used up, and a third claim then hands it out beyond `max_attempts`.
abbrev lost_lease : List Action
lost_lease =
    claim "w1" 100 rows
    ∷ expire 300 500 (leased "a" "w1" ∷ [])
    ∷ claim "w2" 600 rows
    ∷ fail "a" "boom" true 700 (pos 30) (pos 3600) (leased "a" "w1" ∷ [])
    ∷ claim "w3" 90_000_000 rows
    ∷ []

handed_out_thrice : times_handed_out "a" lost_lease rows ≡ 3
unfolding times_handed_out run_actions claim_first flush objects requeue_expired_jobs fail_job
    retry_delay
handed_out_thrice = refl

found_waiting : find "a" rows ≡ some (waiting "a")
unfolding find
found_waiting = refl

found_leased : find "b" rows ≡ some (leased "b" "w0")
unfolding find
found_leased = refl

found_done : find "c" rows ≡ some (done "c")
unfolding find
found_done = refl

is_running : is_status (leased "b" "w0").status running ≡ true
unfolding is_status
is_running = refl

has_succeeded : is_status (done "c").status succeeded ≡ true
unfolding is_status
has_succeeded = refl

times_handed_out-le_example : 0 + times_handed_out "a" steps rows ≤ 2
times_handed_out-le_example =
    times_handed_out-le "a" steps rows (waiting "a") steps-SeesCurrent rows-IsConsistent
      found_waiting refl

-- The bound is met: the steps hand `a` out twice.
handed_out_twice : times_handed_out "a" steps rows ≡ 2
unfolding times_handed_out run_actions claim_first flush objects requeue_expired_jobs fail_job
    complete_job is_sensitive dumps
handed_out_twice = refl

succeeded_final_example : find "c" (run_actions steps rows) ≡ some (done "c")
succeeded_final_example =
    succeeded_final "c" steps rows (done "c") steps-SeesCurrent found_done has_succeeded

first_claim :
    claim_first "w1" 100 two_rows two_rows
    ≡ (some (leased "a" "w1"), leased "a" "w1" ∷ waiting "d" ∷ [])
unfolding claim_first
first_claim = refl

second_claim :
    claim_first "w2" 100 two_rows (leased "a" "w1" ∷ waiting "d" ∷ [])
    ≡ (some (leased "d" "w2"), leased "a" "w1" ∷ leased "d" "w2" ∷ [])
unfolding claim_first
second_claim = refl

claim_first_exclusive_example : (leased "a" "w1").id ≢ (leased "d" "w2").id
claim_first_exclusive_example =
    claim_first_exclusive "w1" "w2" 100 100 two_rows two_rows two_rows
      (leased "a" "w1" ∷ waiting "d" ∷ []) (leased "a" "w1" ∷ leased "d" "w2" ∷ [])
      (leased "a" "w1") (leased "d" "w2") first_claim second_claim

worker_name : IsWorkerId " w1 "
unfolding strip
worker_name = refl

claim_next_job-Claims_example :
    (o : Option BackgroundJob) × (t' : Table) × (claim_next_job " w1 " 100 rows ≡ (returns o, t'))
    × Claims (strip " w1 ") 100 rows (o, t')
claim_next_job-Claims_example = claim_next_job-Claims " w1 " 100 rows rows-IsConsistent worker_name

run_one_job-Ends_example : JobEnds " w1 " sample_handlers 100 200 rows
run_one_job-Ends_example =
    run_one_job-Ends " w1 " sample_handlers 100 200 rows rows-IsConsistent worker_name

key_of : normalize_key (some " delivery-1 ") ≡ returns (some "delivery-1")
unfolding normalize_key
key_of = refl

first_enqueue :
    enqueue_job (sample_draw "x") (sample_request "one") [] []
    ≡ (returns (inserted "x" "one"), inserted "x" "one" ∷ [])
unfolding enqueue_job is_sensitive dumps
first_enqueue = refl

second_row : prepare (sample_draw "y") (sample_request "two") ≡ returns (inserted "y" "two")
unfolding prepare is_sensitive dumps
second_row = refl

unseen : find_key "delivery-1" [] ≡ none
unfolding find_key
unseen = refl

enqueue_job_again_example :
    enqueue_job
      (sample_draw "y")
      (sample_request "two")
      (inserted "x" "one" ∷ [])
      (inserted "x" "one" ∷ [])
    ≡ (returns (inserted "x" "one"), inserted "x" "one" ∷ [])
enqueue_job_again_example =
    enqueue_job_again "delivery-1" (sample_draw "x") (sample_draw "y") (sample_request "one")
      (sample_request "two") [] (inserted "x" "one" ∷ []) key_of key_of first_enqueue second_row

enqueue_job_race_example :
    enqueue_job (sample_draw "y") (sample_request "two") [] (inserted "x" "one" ∷ [])
    ≡ (returns (inserted "x" "one"), inserted "x" "one" ∷ [])
enqueue_job_race_example =
    enqueue_job_race "delivery-1" (sample_draw "x") (sample_draw "y") (sample_request "one")
      (sample_request "two") [] [] (inserted "x" "one" ∷ []) key_of key_of first_enqueue second_row
      refl unseen

requeue_expired_jobs-IsRecovered_example :
    IsRecovered 300 500 rows (requeue_expired_jobs 300 500 rows).1
requeue_expired_jobs-IsRecovered_example = requeue_expired_jobs-IsRecovered 300 500 rows

retry_delay_doubles_example :
    (retry_delay 30 3600 1 ≡ min 30 3600)
    × (retry_delay 30 3600 3 ≤ 3600)
    × (retry_delay 30 3600 5 ≡ min (2 * retry_delay 30 3600 4) 3600)
retry_delay_doubles_example = retry_delay_doubles 30 3600 3

fail_job-Retries_example :
    (j' : BackgroundJob) × (t' : Table) × (fail_job "b" "boom" true 200 (pos 30) (pos 3600) rows
      ≡ (returns j', t'))
    × (find "b" t' ≡ some j')
    × Retries true 200 3600 (leased "b" "w0") j'
fail_job-Retries_example =
    fail_job-Retries "b" "boom" true 200 30 3600 rows (leased "b" "w0") (omega arith) found_leased
      is_running

validate_payload_iff_example :
    (validate_payload (key "payload" ∷ []) (mapping sample_payload) ≡ returns tt)
    ↔ (is_clean is_safe_key (mapping sample_payload) ≡ true)
validate_payload_iff_example = validate_payload_iff (key "payload" ∷ []) (mapping sample_payload)

abbrev worker_settings : WorkerSettings
worker_settings = record { worker_id = "w1"; lease = 300; max_jobs = some 2; exit_when_idle = true }

abbrev one_round : Round
one_round = record {
  others = claim "w2" 850 rows ∷ [];
  now = 900;
  later = 950;
  handlers = sample_handlers;
}
