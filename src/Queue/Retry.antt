-- ===== src/Queue/Retry.antt =====
-- When a failed job is tried again.
use Prim.Native.String.{String}
use native.Mathlib.Nat.{pow-suc}
use deployguardai.Prelude.{
  ℕ, suc, ◌+◌, ◌-◌, ◌*◌, ◌^◌, ◌≡◌, ◌≤◌, ◌<◌, min, ap, sym, subst, Bool, true, false, some, returns,
  arith,
}
use deployguardai.Prelude.Int.{pos}
use deployguardai.Queue.Job.{
  queued, running, failed, dead_letter, is_status, BackgroundJob, Table, find, modify,
}
use deployguardai.Queue.Job.Rows.{find-id, find-modify_self}
use deployguardai.Queue.Lifecycle.{second, retry_delay, failing, fail_job, write_back}
use deployguardai.Queue.Validity.{failing-KeepsKeys}

one_lem : (backoff : ℕ) → backoff * 2 ^ (1 - 1) ≡ backoff
one_lem backoff = omega arith

-- Behind the first attempt the delay is the backoff, and each further attempt doubles it, with the
-- maximum in place of all that exceeds it; the delay never exceeds the maximum.
pub retry_delay_doubles :
    (backoff maximum attempts : ℕ)
    → (retry_delay backoff maximum 1 ≡ min backoff maximum)
      × (retry_delay backoff maximum attempts ≤ maximum)
      × (retry_delay backoff maximum (suc (suc attempts))
          ≡ min (2 * retry_delay backoff maximum (suc attempts)) maximum)
unfolding retry_delay
retry_delay_doubles backoff maximum attempts =
    let e : suc (suc attempts) - 1 ≡ suc attempts = omega arith in
    let e' : suc attempts - 1 ≡ attempts = omega arith in
    let d : backoff * 2 ^ suc attempts ≡ 2 * (backoff * 2 ^ attempts) =
      rw (pow-suc 2 attempts) (omega arith) in
    let first : retry_delay backoff maximum 1 ≡ min backoff maximum =
      ap (λ d. min d maximum) (one_lem backoff) in
    (first, omega arith, rw (e, e') (omega (arith, d)))

-- What a failure makes of a running job.
abbrev pub Retries : (retryable : Bool) (now maximum : ℕ) (j j' : BackgroundJob) → Type 0
Retries true now maximum j j' =
    (j.attempts < j.max_attempts
      → (j'.status ≡ queued)
        × (now ≤ j'.available_at)
        × (j'.available_at ≤ now + maximum * second)
        × (j'.completed_at ≡ j.completed_at))
    × (j.max_attempts ≤ j.attempts → (j'.status ≡ dead_letter) × (j'.completed_at ≡ some now))
Retries false now maximum j j' = (j'.status ≡ failed) × (j'.completed_at ≡ some now)

failing-Retries :
    (error : String) (retryable : Bool) (now backoff maximum : ℕ) (j : BackgroundJob)
    → Retries retryable now maximum j (failing error retryable now backoff maximum j)
unfolding failing
failing-Retries error false now backoff maximum j = ground arith
failing-Retries error true now backoff maximum j =
    let d = (retry_delay_doubles backoff maximum j.attempts).1 in
    let w : retry_delay backoff maximum j.attempts * second ≤ maximum * second = grind arith in
    ((λ h. ground (arith, w)), (λ h. ground arith))

-- With a maximum of at least the backoff, a running job that fails is written as the result says:
-- with attempts left it is queued again, no later than the maximum; with none left it is
-- dead-lettered; and what cannot be retried has failed.
pub fail_job-Retries :
    (i error : String) (retryable : Bool) (now backoff maximum : ℕ) (t : Table) (j : BackgroundJob)
    → backoff ≤ maximum
    → find i t ≡ some j
    → is_status j.status running ≡ true
    → (j' : BackgroundJob) × (t' : Table) × (fail_job i error retryable now
          (pos backoff)
          (pos maximum)
          t
        ≡ (returns j', t'))
      × (find i t' ≡ some j')
      × Retries retryable now maximum j j'
unfolding fail_job write_back
fail_job-Retries i error retryable now backoff maximum t j le h r =
    let f = failing error retryable now backoff maximum in
    let k = failing-KeepsKeys now error retryable backoff maximum in
    (
      f j,
      modify j.id f t,
      rw (h, fail_job) (ground arith),
      subst (λ n. find i (modify n f t) ≡ some (f j)) (sym (find-id i t h))
          (find-modify_self i f k t h),
      failing-Retries error retryable now backoff maximum j,
    )
