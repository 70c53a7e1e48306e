-- ===== src/Queue/Validity.antt =====
-- The invariant of the jobs, and that the changes of a row keep it.
use Prim.Native.String.{String}
use deployguardai.Prelude.{
  ℕ, ◌≡◌, ◌≤◌, ◌<◌, Bool, true, Option, none, some, arith, All, is_some, refl,
}
use deployguardai.Queue.Payload.{Entries}
use deployguardai.Queue.Job.{
  JobStatus, queued, running, dead_letter, is_status, BackgroundJob, Table, find, modify,
}
use deployguardai.Queue.Job.Rows.{
  KeepsKeys, IsUnique, HasUniqueKeys, find-id, IsUnique-modify, HasUniqueKeys-modify, All-modify,
}
use deployguardai.Queue.Lifecycle.{
  Effect, has_expired, release_expired, lock, is_ready, completed, failing, replayed, write_back,
}

-- What the status says of the lease, of the attempts and of the end.
abbrev pub Phase : JobStatus → BackgroundJob → Type 0
Phase queued j =
    (j.attempts < j.max_attempts)
    × (j.locked_at ≡ none)
    × (j.locked_by ≡ none)
    × (j.completed_at ≡ none)
Phase running j =
    (1 ≤ j.attempts)
    × (is_some j.locked_at ≡ true)
    × (is_some j.locked_by ≡ true)
    × (j.completed_at ≡ none)
Phase dead_letter j =
    (j.attempts ≡ j.max_attempts)
    × (j.locked_at ≡ none)
    × (j.locked_by ≡ none)
    × (is_some j.completed_at ≡ true)
Phase _ j =
    (1 ≤ j.attempts) × (j.locked_at ≡ none) × (j.locked_by ≡ none) × (is_some j.completed_at ≡ true)

pub record IsValid (j : BackgroundJob) : Type 0 where
  pub attempts_within : j.attempts ≤ j.max_attempts
  pub some_attempt : 1 ≤ j.max_attempts
  pub few_attempts : j.max_attempts ≤ 100
  pub phase : Phase j.status j

pub record IsConsistent (t : Table) : Type 0 where
  pub valid : All IsValid t
  pub unique : IsUnique t
  pub unique_keys : HasUniqueKeys t

-- What a call has done to the rows: whatever it returned or raised, they are consistent.
abbrev pub Keeps : {A : Type 0} → Effect A → Type 0
Keeps (_, t) = IsConsistent t

pub release_expired-IsValid :
    (lease now : ℕ) (j : BackgroundJob)
    → has_expired lease now j ≡ true
    → IsValid j
    → IsValid (release_expired now j)
unfolding release_expired has_expired
release_expired-IsValid lease now j e v = ground arith

pub lock-IsValid :
    (worker : String) (now : ℕ) (j : BackgroundJob)
    → is_ready now j ≡ true
    → IsValid j
    → IsValid (lock worker now j)
unfolding lock is_ready
lock-IsValid worker now j e v = ground arith

pub completed-IsValid :
    (result : Option Entries) (now : ℕ) (j : BackgroundJob)
    → is_status j.status running ≡ true
    → IsValid j
    → IsValid (completed result now j)
unfolding completed is_status
completed-IsValid result now j e v = ground arith

pub failing-IsValid :
    (error : String) (retryable : Bool) (now backoff maximum : ℕ) (j : BackgroundJob)
    → is_status j.status running ≡ true
    → IsValid j
    → IsValid (failing error retryable now backoff maximum j)
unfolding failing is_status
failing-IsValid error retryable now backoff maximum j e v = ground arith

pub replayed-IsValid :
    (available_at : Option ℕ) (now : ℕ) (j : BackgroundJob)
    → IsValid j
    → IsValid (replayed available_at now j)
unfolding replayed
replayed-IsValid available_at now j v = ground arith

pub modify-IsConsistent :
    (i : String) (f : BackgroundJob → BackgroundJob) (t : Table) {j : BackgroundJob}
    → KeepsKeys f
    → IsConsistent t
    → find i t ≡ some j
    → IsValid (f j)
    → IsConsistent (modify i f t)
modify-IsConsistent i f t k c e v = record {
  valid = All-modify IsValid i f t c.unique e c.valid v;
  unique = IsUnique-modify i f k t c.unique;
  unique_keys = HasUniqueKeys-modify i f k t c.unique_keys;
}

-- A transition of the row that `find` shows.
pub write_back-Keeps :
    (i : String) (f : BackgroundJob → BackgroundJob) (t : Table) (j : BackgroundJob)
    → KeepsKeys f
    → IsConsistent t
    → find i t ≡ some j
    → IsValid (f j)
    → Keeps (write_back f j t)
unfolding write_back
write_back-Keeps i f t j k c e v = rw (find-id i t e) (modify-IsConsistent i f t k c e v)

module _ (now : ℕ) where
  pub completed-KeepsKeys : (result : Option Entries) → KeepsKeys (completed result now)
  unfolding completed
  completed-KeepsKeys result j = (refl, refl)

  pub failing-KeepsKeys :
      (error : String) (retryable : Bool) (backoff maximum : ℕ)
      → KeepsKeys (failing error retryable now backoff maximum)
  unfolding failing
  failing-KeepsKeys error retryable backoff maximum j = ground arith

  pub replayed-KeepsKeys : (available_at : Option ℕ) → KeepsKeys (replayed available_at now)
  unfolding replayed
  replayed-KeepsKeys available_at j = (refl, refl)

  pub lock-KeepsKeys : (worker : String) → KeepsKeys (lock worker now)
  unfolding lock
  lock-KeepsKeys worker j = (refl, refl)
