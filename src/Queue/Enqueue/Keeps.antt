-- ===== src/Queue/Enqueue/Keeps.antt =====
-- What `enqueue_job` adds to the table.
use Prim.Native.String.{String}
use deployguardai.Prelude.{
  ◌≡◌, Bool, false, Option, none, some, returns, arith, inl, inr, All-append, Bool-cases,
  Outcome-cases, ◌++◌, [], ◌∷◌, is_some,
}
use deployguardai.Queue.Job.{BackgroundJob, Table}
use deployguardai.Queue.Job.Rows.{IsFreeKey}
use deployguardai.Queue.Job.Append.{IsUnique-append, HasUniqueKeys-append}
use deployguardai.Queue.Validity.{IsValid, IsConsistent, Keeps}
use deployguardai.Queue.Enqueue.{
  Draw, EnqueueRequest, prepare, find_existing, violates, insert_job, enqueue_job,
}

-- The row of an accepted request.
pub prepare-IsValid :
    (d : Draw) (r : EnqueueRequest) {j : BackgroundJob} → prepare d r ≡ returns j → IsValid j
unfolding prepare
prepare-IsValid d r h = ground arith

IsFreeKey-existing :
    (k : Option String) (t : Table) → is_some (find_existing k t) ≡ false → IsFreeKey k t
unfolding find_existing
IsFreeKey-existing none t h = tt
IsFreeKey-existing (some k) t h = ground arith

insert_job-Keeps :
    (d : Draw) (commit : Bool) (j : BackgroundJob) (t : Table)
    → IsValid j
    → IsConsistent t
    → Keeps (insert_job d commit j t)
unfolding insert_job
insert_job-Keeps d commit j t v c = elim (Bool-cases (violates d.has_workspace j t)) [
  | inl e ↦ rw (e, insert_job) (ground arith)
  | inr e ↦
      let appended : IsConsistent (t ++ j ∷ []) = record {
        valid = All-append IsValid t (j ∷ []) c.valid (v, tt);
        unique = IsUnique-append j t (unfold violates in ground arith) c.unique;
        unique_keys =
            HasUniqueKeys-append j t
              (IsFreeKey-existing j.idempotency_key t (unfold violates in ground arith))
              c.unique_keys;
      } in
      rw (e, insert_job) appended
]

-- `enqueue_job` keeps the jobs consistent, also when another session has committed rows since the
-- lookup.
pub enqueue_job-Keeps :
    (d : Draw) (r : EnqueueRequest) (seen t : Table)
    → IsConsistent t
    → Keeps (enqueue_job d r seen t)
unfolding enqueue_job
enqueue_job-Keeps d r seen t c = elim (Outcome-cases (prepare d r)) [
  | inl (x, e) ↦ rw (e, enqueue_job) c
  | inr (j, e) ↦
      let w = insert_job-Keeps d r.commit j t (prepare-IsValid d r e) c in
      rw (e, enqueue_job) (ground (arith, w))
]
