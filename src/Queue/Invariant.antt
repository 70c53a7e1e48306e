-- ===== src/Queue/Invariant.antt =====
-- The operations on existing jobs keep the invariant.
use Prim.Native.String.{String}
use deployguardai.Prelude.{
  ℕ, ◌≡◌, Bool, true, Option, List, [], ◌∷◌, inl, inr, arith, All-map_self, Option-cases,
  Bool-cases, if◌then◌else◌,
}
use deployguardai.Prelude.Int.{ℤ, magnitude}
use deployguardai.Prelude.Texts.{strip}
use deployguardai.Queue.Payload.{Entries}
use deployguardai.Queue.Job.{running, is_status, BackgroundJob, Table, find}
use deployguardai.Queue.Job.Rows.{KeepsKeys, find-All, IsUnique-map, HasUniqueKeys-map}
use deployguardai.Queue.Lifecycle.{
  has_expired, release_expired, requeue_expired_jobs, lock, matches, claim_first, candidates,
  claim_next_job, is_ready, completed, complete_job, failing, fail_job, replayed,
  replay_dead_letter_job,
}
use deployguardai.Queue.Validity.{
  IsConsistent, IsValid, Keeps, completed-IsValid, completed-KeepsKeys, failing-IsValid,
  failing-KeepsKeys, lock-IsValid, lock-KeepsKeys, modify-IsConsistent, release_expired-IsValid,
  replayed-IsValid, replayed-KeepsKeys, write_back-Keeps,
}

-- `complete_job` keeps the jobs consistent, whether it returns or raises.
pub complete_job-Keeps :
    (i : String) (result : Option Entries) (now : ℕ) (t : Table)
    → IsConsistent t
    → Keeps (complete_job i result now t)
unfolding complete_job
complete_job-Keeps i result now t c = elim (Option-cases (find i t)) [
  | inl e ↦ rw (e, complete_job) c
  | inr (j, e) ↦
      let v = find-All IsValid i t c.valid e in
      let k = completed-KeepsKeys now result in
      let w = λ (r : is_status j.status running ≡ true).
        write_back-Keeps i (completed result now) t j k c e (completed-IsValid result now j r v) in
      rw (e, complete_job) (ground (arith, w))
]

-- `fail_job` keeps the jobs consistent, whether it returns or raises.
pub fail_job-Keeps :
    (i error : String) (retryable : Bool) (now : ℕ) (backoff maximum : ℤ) (t : Table)
    → IsConsistent t
    → Keeps (fail_job i error retryable now backoff maximum t)
unfolding fail_job
fail_job-Keeps i error retryable now backoff maximum t c =
    let b = magnitude backoff in
    let m = magnitude maximum in
    elim (Option-cases (find i t)) [
      | inl e ↦ rw (e, fail_job) (ground arith)
      | inr (j, e) ↦
          let v = find-All IsValid i t c.valid e in
          let k = failing-KeepsKeys now error retryable b m in
          let w = λ (r : is_status j.status running ≡ true).
            write_back-Keeps i (failing error retryable now b m) t j k c e
              (failing-IsValid error retryable now b m j r v) in
          rw (e, fail_job) (ground (arith, w))
    ]

-- `replay_dead_letter_job` keeps the jobs consistent, whether it returns or raises.
pub replay_dead_letter_job-Keeps :
    (i : String) (available_at : Option ℕ) (now : ℕ) (t : Table)
    → IsConsistent t
    → Keeps (replay_dead_letter_job i available_at now t)
unfolding replay_dead_letter_job
replay_dead_letter_job-Keeps i available_at now t c = elim (Option-cases (find i t)) [
  | inl e ↦ rw (e, replay_dead_letter_job) c
  | inr (j, e) ↦
      let v = replayed-IsValid available_at now j (find-All IsValid i t c.valid e) in
      let w =
        write_back-Keeps i (replayed available_at now) t j (replayed-KeepsKeys now available_at) c e
          v in
      rw (e, replay_dead_letter_job) (ground (arith, w))
]

-- The rows of `requeue_expired_jobs`.
abbrev pub release_if_expired : (lease now : ℕ) → BackgroundJob → BackgroundJob
release_if_expired lease now j = if has_expired lease now j then release_expired now j else j

pub release_if_expired-KeepsKeys : (lease now : ℕ) → KeepsKeys (release_if_expired lease now)
unfolding release_expired
release_if_expired-KeepsKeys lease now j = ground arith

release_if_expired-IsValid :
    (lease now : ℕ) (j : BackgroundJob) → IsValid j → IsValid (release_if_expired lease now j)
release_if_expired-IsValid lease now j v = elim (Bool-cases (has_expired lease now j)) [
  | inl e ↦ rw e (release_expired-IsValid lease now j e v)
  | inr e ↦ rw e v
]

-- Recovering expired leases keeps the jobs consistent.
pub requeue_expired_jobs-IsConsistent :
    (lease now : ℕ) (t : Table) → IsConsistent t → IsConsistent (requeue_expired_jobs lease now t).1
unfolding requeue_expired_jobs
requeue_expired_jobs-IsConsistent lease now t c =
    let g = release_if_expired lease now in
    let k = release_if_expired-KeepsKeys lease now in
    record {
      valid = All-map_self IsValid g t (release_if_expired-IsValid lease now) c.valid;
      unique = IsUnique-map g k t c.unique;
      unique_keys = HasUniqueKeys-map g k t c.unique_keys;
    }

-- The compare-and-set update, on whatever candidates it is tried.
pub claim_first-IsConsistent :
    (worker : String) (now : ℕ) (cs : List BackgroundJob) (t : Table)
    → IsConsistent t
    → IsConsistent (claim_first worker now cs t).1
unfolding claim_first
claim_first-IsConsistent worker now [] t c = c
claim_first-IsConsistent worker now (x ∷ cs) t c =
    let rest = claim_first-IsConsistent worker now cs t c in
    elim (Option-cases (find x.id t)) [
      | inl e ↦ rw (e, matches) rest
      | inr (j, e) ↦
          let v = find-All IsValid x.id t c.valid e in
          let w = λ (r : is_ready now j ≡ true).
            modify-IsConsistent x.id (lock worker now) t (lock-KeepsKeys now worker) c e
              (lock-IsValid worker now j r v) in
          rw (e, matches) (ground (arith, w))
    ]

-- `claim_next_job` keeps the jobs consistent.
pub claim_next_job-Keeps :
    (worker_id : String) (now : ℕ) (t : Table)
    → IsConsistent t
    → Keeps (claim_next_job worker_id now t)
unfolding claim_next_job
claim_next_job-Keeps worker_id now t c =
    ground (arith, claim_first-IsConsistent (strip worker_id) now (candidates now t) t c)
