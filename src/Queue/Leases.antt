-- ===== src/Queue/Leases.antt =====
-- What the recovery of expired leases leaves behind.
use deployguardai.Prelude.{
  ℕ, ◌+◌, ◌≡◌, ◌≤◌, ◌<◌, refl, true, none, some, [], ◌∷◌, map, arith, inl, inr, Bool-cases,
  Option-cases,
}
use deployguardai.Queue.Job.{queued, running, dead_letter, BackgroundJob, Table, is_status}
use deployguardai.Queue.Lifecycle.{has_expired, release_expired, requeue_expired_jobs}
use deployguardai.Queue.Invariant.{release_if_expired}

-- A running job that was locked more than a lease ago.
abbrev pub IsExpired : (lease now : ℕ) → BackgroundJob → Type 0
IsExpired lease now j =
    (j.status ≡ running) × (since : ℕ) × (j.locked_at ≡ some since) × (since + lease < now)

-- What becomes of such a job.
abbrev pub Released : (now : ℕ) (j j' : BackgroundJob) → Type 0
Released now j j' =
    (j'.id ≡ j.id)
    × (j'.locked_at ≡ none)
    × (j'.locked_by ≡ none)
    × (j'.attempts ≡ j.attempts)
    × (j'.last_error ≡ some "worker lease expired")
    × (j.attempts < j.max_attempts
        → (j'.status ≡ queued) × (j'.available_at ≡ now) × (j'.completed_at ≡ j.completed_at))
    × (j.max_attempts ≤ j.attempts → (j'.status ≡ dead_letter) × (j'.completed_at ≡ some now))

release_expired-Released : (now : ℕ) (j : BackgroundJob) → Released now j (release_expired now j)
unfolding release_expired
release_expired-Released now j = (
  ground arith,
  ground arith,
  ground arith,
  ground arith,
  ground arith,
  ground arith,
  ground arith,
)

IsExpired-has_expired :
    (lease now : ℕ) (j : BackgroundJob) → IsExpired lease now j → has_expired lease now j ≡ true
unfolding has_expired is_status
IsExpired-has_expired lease now j (busy, since, locked, late) = rw (busy, locked) (ground arith)

has_expired-IsExpired :
    (lease now : ℕ) (j : BackgroundJob) → has_expired lease now j ≡ true → IsExpired lease now j
unfolding has_expired is_status
has_expired-IsExpired lease now j e = elim (Option-cases j.locked_at) [
  | inl free ↦ ground (arith, free)
  | inr (since, locked) ↦ (ground (arith, locked), since, locked, ground (arith, locked))
]

-- Row by row.
abbrev pub IsRecovered : (lease now : ℕ) → Table → Table → Type 0
IsRecovered lease now [] [] = Unit
IsRecovered lease now (j ∷ t) (j' ∷ t') =
    (IsExpired lease now j → Released now j j')
    × (¬ IsExpired lease now j → j' ≡ j)
    × IsRecovered lease now t t'
IsRecovered lease now _ _ = ⊥

recovered :
    (lease now : ℕ) (t : Table) → IsRecovered lease now t (map (release_if_expired lease now) t)
recovered lease now [] = tt
recovered lease now (j ∷ t) = elim (Bool-cases (has_expired lease now j)) [
  | inl e ↦
      let expired = has_expired-IsExpired lease now j e in
      rw e (
        (λ _. release_expired-Released now j),
        (λ fresh. elim (fresh expired) [ ]),
        recovered lease now t,
      )
  | inr e ↦
      let fresh = λ (h : IsExpired lease now j). IsExpired-has_expired lease now j h in
      rw e ((λ h. cc (e, fresh h)), (λ _. refl), recovered lease now t)
]

-- The recovery takes the lease from every running job that was locked more than the lease time ago,
-- notes the reason, keeps its attempts, and queues it again from now on where attempts are left, or
-- else dead-letters it now; every other row is unchanged.
pub requeue_expired_jobs-IsRecovered :
    (lease now : ℕ) (t : Table) → IsRecovered lease now t (requeue_expired_jobs lease now t).1
unfolding requeue_expired_jobs
requeue_expired_jobs-IsRecovered lease now t = recovered lease now t
