-- ===== src/Queue/Claim/Oldest.antt =====
-- Which job `claim_next_job` hands out, and in which state.
use Prim.Native.String.{String}
use deployguardai.Prelude.{
  ℕ, ◌+◌, ◌≡◌, ◌≢◌, ◌≤◌, ◌<◌, ◌⊎◌, refl, true, Option, none, some, [], ◌∷◌, returns, arith, inl,
  inr, All, select, Bool-cases,
}
use deployguardai.Prelude.Texts.{strip}
use deployguardai.Queue.Job.{queued, running, is_status, BackgroundJob, Table, find}
use deployguardai.Queue.Job.Rows.{find-modify_self, find-modify_ne}
use deployguardai.Queue.Lifecycle.{is_ready, comes_first, lock, claim_next_job}
use deployguardai.Queue.Validity.{IsConsistent, lock-KeepsKeys}
use deployguardai.Queue.Claim.{IsOldestReady, IsWorkerId, Takes, claim_next_job-Takes}

-- A queued job that is available, by its own fields.
abbrev pub IsAvailable : (now : ℕ) → BackgroundJob → Type 0
IsAvailable now j = (j.status ≡ queued) × (j.available_at ≤ now)

-- Available first, or at the same time and created no later.
abbrev pub IsNoLater : (x y : BackgroundJob) → Type 0
IsNoLater x y =
    (x.available_at < y.available_at)
    ⊎ ((x.available_at ≡ y.available_at) × (x.created_at ≤ y.created_at))

-- A row of the table that is available, and no available row is older.
abbrev pub IsOldestAvailable : (now : ℕ) → Table → BackgroundJob → Type 0
IsOldestAvailable now t row =
    (find row.id t ≡ some row)
    × IsAvailable now row
    × All (λ x. IsAvailable now x → IsNoLater row x) t

abbrev pub IsIdle : (now : ℕ) → Table → Type 0
IsIdle now t = All (λ x. ¬ IsAvailable now x) t

-- `j` is `row`, leased to the worker, with one more attempt.
abbrev pub IsLeased : (worker : String) (now : ℕ) (row j : BackgroundJob) → Type 0
IsLeased worker now row j =
    (j.status ≡ running)
    × (j.attempts ≡ row.attempts + 1)
    × (j.locked_at ≡ some now)
    × (j.locked_by ≡ some worker)
    × (j.id ≡ row.id)
    × (j.job_type ≡ row.job_type)
    × (j.payload ≡ row.payload)
    × (j.max_attempts ≡ row.max_attempts)

abbrev pub Claims : (worker : String) (now : ℕ) → Table → Option BackgroundJob × Table → Type 0
Claims worker now t (none, t') = IsIdle now t × (t' ≡ t)
Claims worker now t (some j, t') =
    (row : BackgroundJob) × IsOldestAvailable now t row
    × IsLeased worker now row j
    × (find row.id t' ≡ some j)
    × ((k : String) → k ≢ row.id → find k t' ≡ find k t)

pub lock-IsLeased :
    (worker : String) (now : ℕ) (row : BackgroundJob)
    → IsLeased worker now row (lock worker now row)
unfolding lock
lock-IsLeased worker now row = (refl, refl, refl, refl, refl, refl, refl, refl)

is_ready-IsAvailable : (now : ℕ) (j : BackgroundJob) → is_ready now j ≡ true → IsAvailable now j
unfolding is_ready is_status
is_ready-IsAvailable now j e = ground arith

IsAvailable-is_ready : (now : ℕ) (j : BackgroundJob) → IsAvailable now j → is_ready now j ≡ true
unfolding is_ready is_status
IsAvailable-is_ready now j (waits, due) = rw waits (ground arith)

comes_first-IsNoLater : (x y : BackgroundJob) → comes_first x y ≡ true → IsNoLater x y
unfolding comes_first
comes_first-IsNoLater x y e = ground arith

pub select-IsIdle : (now : ℕ) (t : Table) → select (is_ready now) t ≡ [] → IsIdle now t
select-IsIdle now [] e = tt
select-IsIdle now (x ∷ t) e = elim (Bool-cases (is_ready now x)) [
  | inl ready ↦ cc (rw ready at e)
  | inr busy ↦ ((λ a. cc (busy, IsAvailable-is_ready now x a)), select-IsIdle now t (rw busy at e))
]

oldest-IsNoLater :
    (now : ℕ) (row : BackgroundJob) (t : Table)
    → All (λ x. comes_first row x ≡ true) (select (is_ready now) t)
    → All (λ x. IsAvailable now x → IsNoLater row x) t
oldest-IsNoLater now row [] a = tt
oldest-IsNoLater now row (x ∷ t) a = elim (Bool-cases (is_ready now x)) [
  | inl ready ↦
      let (first, rest) = rw ready at a in
      ((λ _. comes_first-IsNoLater row x first), oldest-IsNoLater now row t rest)
  | inr busy ↦
      ((λ b. cc (busy, IsAvailable-is_ready now x b)), oldest-IsNoLater now row t (rw busy at a))
]

pub IsOldestReady-IsOldestAvailable :
    (now : ℕ) (t : Table) (row : BackgroundJob)
    → IsOldestReady now t row
    → IsOldestAvailable now t row
IsOldestReady-IsOldestAvailable now t row o =
    (o.found, is_ready-IsAvailable now row o.ready, oldest-IsNoLater now row t o.oldest)

Takes-Claims :
    (worker : String) (now : ℕ) (t : Table) (r : Option BackgroundJob × Table)
    → Takes worker now t r
    → Claims worker now t r
Takes-Claims worker now t (none, t') (idle, same) = (select-IsIdle now t idle, same)
Takes-Claims worker now t (some j, t') (row, old, locked, changed) =
    let f = lock worker now in
    let keeps = lock-KeepsKeys now worker in
    (
      row,
      IsOldestReady-IsOldestAvailable now t row old,
      rw locked (lock-IsLeased worker now row),
      rw (locked, changed) (find-modify_self row.id f keeps t old.found),
      (λ k ne. rw changed (find-modify_ne row.id f keeps k t ne)),
    )

-- On consistent rows, those that it reads, and for a worker id of 1 to 160 characters behind `strip`,
-- a claim either finds no queued job that is available and changes nothing, or it hands out a queued
-- and available job that no other one precedes by the times of availability and then of creation:
-- running, leased to the worker since now, with one more attempt. That is how its row is stored, and
-- no other row has changed.
pub claim_next_job-Claims :
    (worker_id : String) (now : ℕ) (t : Table)
    → IsConsistent t
    → IsWorkerId worker_id
    → (o : Option BackgroundJob) × (t' : Table) × (claim_next_job worker_id now t ≡ (returns o, t'))
      × Claims (strip worker_id) now t (o, t')
claim_next_job-Claims worker_id now t c w =
    let (o, t', e, takes) = claim_next_job-Takes worker_id now t c w in
    (o, t', e, Takes-Claims (strip worker_id) now t (o, t') takes)
