-- ===== src/Queue/Enqueue/Idempotent.antt =====
-- Enqueueing under an idempotency key that is taken: one after the other, and in a race.
use Prim.Native.String.{String}
use text.Mathlib.TextEquality.{eq_iff}
use deployguardai.Prelude.{
  ◌≡◌, refl, Bool, true, Option, none, some, returns, arith, inl, inr, Option-cases, Outcome-cases,
}
use deployguardai.Queue.Job.{BackgroundJob, Table, find_key, has_key}
use deployguardai.Queue.Job.Append.{find_key-append_none}
use deployguardai.Queue.Enqueue.{
  Draw, EnqueueRequest, normalize_key, prepare, find_existing, violates, insert_job, enqueue_job,
}

-- The row carries the stripped key of its request.
prepare-key :
    (d : Draw) (r : EnqueueRequest) {ko : Option String} {j : BackgroundJob}
    → normalize_key r.idempotency_key ≡ returns ko
    → prepare d r ≡ returns j
    → j.idempotency_key ≡ ko
unfolding prepare
prepare-key d r n h = ground arith

has_key-own : (k : String) (j : BackgroundJob) → j.idempotency_key ≡ some k → has_key k j ≡ true
unfolding has_key
has_key-own k j e = rw (e, has_key) ((eq_iff k k).1 refl)

-- The row that an insert returns is found under its key.
insert_job-find_key :
    (d : Draw) (commit : Bool) (k : String) (j0 : BackgroundJob) (t : Table) {j : BackgroundJob}
    {t' : Table}
    → j0.idempotency_key ≡ some k
    → find_key k t ≡ none
    → insert_job d commit j0 t ≡ (returns j, t')
    → find_key k t' ≡ some j
unfolding insert_job find_existing
insert_job-find_key d commit k j0 t {j} {t'} own free h =
    let new = find_key-append_none j0 k t free in
    let mine = has_key-own k j0 own in ground (arith, new, mine)

-- A committing insert under a taken key rolls back and returns the row that is there.
insert_job-taken :
    (k : String) (d : Draw) (j0 : BackgroundJob) (t : Table) {j : BackgroundJob}
    → j0.idempotency_key ≡ some k
    → find_key k t ≡ some j
    → insert_job d true j0 t ≡ (returns j, t)
unfolding insert_job find_existing violates
insert_job-taken k d j0 t own found = ground arith

module _ (k : String) (d : Draw) (r : EnqueueRequest) where
  enqueue_job-find_key :
      (t : Table) {j : BackgroundJob} {t' : Table}
      → normalize_key r.idempotency_key ≡ returns (some k)
      → enqueue_job d r t t ≡ (returns j, t')
      → find_key k t' ≡ some j
  unfolding enqueue_job
  enqueue_job-find_key t {j} {t'} n h = elim (Outcome-cases (prepare d r)) [
    | inl (x, e) ↦ (let h' = rw (e, enqueue_job) at h in ground arith)
    | inr (j0, e) ↦
        let own = prepare-key d r n e in
        elim (Option-cases (find_key k t)) [
          | inl free ↦
              insert_job-find_key d r.commit k j0 t own free
                (rw (e, own, find_existing, free, enqueue_job) at h)
          | inr (x, found) ↦
              let h' = rw (e, own, found, find_existing, enqueue_job) at h in ground arith
        ]
  ]

-- The first request under a key wins. Whatever an accepted later request with the same key holds,
-- `enqueue_job` returns the first job and leaves the rows as they are.
pub enqueue_job_again :
    (k : String) (d d' : Draw) (r r' : EnqueueRequest) (t t' : Table) {j j' : BackgroundJob}
    → normalize_key r.idempotency_key ≡ returns (some k)
    → normalize_key r'.idempotency_key ≡ returns (some k)
    → enqueue_job d r t t ≡ (returns j, t')
    → prepare d' r' ≡ returns j'
    → enqueue_job d' r' t' t' ≡ (returns j, t')
unfolding enqueue_job
enqueue_job_again k d d' r r' t t' n n' h e =
    let found = enqueue_job-find_key k d r t n h in
    rw (e, enqueue_job) (rw (prepare-key d' r' n' e, found, find_existing) refl)

-- Two producers race: the second looked its key up in `seen`, before the first one's row was there,
-- and commits after it. It gets the first one's job, and the rows stay as they are.
pub enqueue_job_race :
    (k : String) (d d' : Draw) (r r' : EnqueueRequest) (seen t t' : Table) {j j' : BackgroundJob}
    → normalize_key r.idempotency_key ≡ returns (some k)
    → normalize_key r'.idempotency_key ≡ returns (some k)
    → enqueue_job d r t t ≡ (returns j, t')
    → prepare d' r' ≡ returns j'
    → r'.commit ≡ true
    → find_key k seen ≡ none
    → enqueue_job d' r' seen t' ≡ (returns j, t')
unfolding enqueue_job
enqueue_job_race k d d' r r' seen t t' {j' = j'} n n' h e commit unseen =
    let found = enqueue_job-find_key k d r t n h in
    let own = prepare-key d' r' n' e in
    let taken = insert_job-taken k d' j' t' own found in
    rw (e, enqueue_job) (rw (own, unseen, find_existing) (rw commit taken))
