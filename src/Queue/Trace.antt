-- ===== src/Queue/Trace.antt =====
-- Any sequence of queue operations, of any number of sessions, one commit after the other.
pub mod Step
pub mod Attempts
use Prim.Native.String.{String}
use text.Mathlib.Text.{◌==◌ as str_eq}
use text.Mathlib.TextEquality.{eq_iff}
use deployguardai.Prelude.{
  arith, not, ◌≡◌, refl, ℕ, ◌+◌, Bool, true, false, Option, none, some, List, [], ◌∷◌,
  if◌then◌else◌,
}
use deployguardai.Prelude.Int.{ℤ}
use deployguardai.Queue.Payload.{Entries}
use deployguardai.Queue.Job.{BackgroundJob, Table}
use deployguardai.Queue.Lifecycle.{
  requeue_expired_jobs, claim_first, complete_job, fail_job, replay_dead_letter_job,
}
use deployguardai.Queue.Enqueue.{Draw, EnqueueRequest, enqueue_job}
use deployguardai.Queue.Validity.{IsConsistent}
use deployguardai.Queue.Invariant.{claim_first-IsConsistent}
use deployguardai.Queue.Session.{flush}
use deployguardai.Queue.Session.Current.{IsCurrent, Moves, flush-IsConsistent}
use deployguardai.Queue.Session.Moved.{
  same-Moves, expire-Moves, complete-Moves, fail-Moves, replay-Moves,
}
use deployguardai.Queue.Enqueue.Keeps.{enqueue_job-Keeps}

-- An operation, with what its session has read before: the rows that its lookup or its query saw, its
-- candidates, or the objects that it holds. All of it may be out of date.
pub data Action : Type 0 where
  enqueue : Draw → EnqueueRequest → (seen : Table) → Action
  expire : (lease now : ℕ) (seen : Table) → Action
  claim : (worker : String) (now : ℕ) (read : List BackgroundJob) → Action
  complete : (job_id : String) (result : Option Entries) (now : ℕ) (seen : Table) → Action
  fail :
      (job_id error : String) (retryable : Bool) (now : ℕ) (backoff maximum : ℤ) (seen : Table)
      → Action
  replay : (job_id : String) (available_at : Option ℕ) (now : ℕ) (seen : Table) → Action

-- The objects of the session before and behind an operation that changes objects.
unfoldable pub objects : Action → Table × Table
objects (expire lease now seen) = (seen, (requeue_expired_jobs lease now seen).1)
objects (complete i result now seen) = (seen, (complete_job i result now seen).1)
objects (fail i error retryable now backoff maximum seen) =
    (seen, (fail_job i error retryable now backoff maximum seen).1)
objects (replay i available_at now seen) =
    (seen, (replay_dead_letter_job i available_at now seen).1)
objects _ = ([], [])

-- The rows behind the commit of an operation. An insert and a compare-and-set act on the rows as they
-- are; the other operations act on the objects of their session, which a flush then writes.
unfoldable pub apply : Action → Table → Table
unfolding objects
apply (enqueue d r seen) t = (enqueue_job d r seen t).1
apply (claim worker now read) t = (claim_first worker now read t).1
apply a t = let (before, after) = objects a in flush before after t

unfoldable pub run_actions : List Action → Table → Table
unfolding apply
run_actions [] t = t
run_actions (a ∷ steps) t = run_actions steps (apply a t)

-- Whenever an operation writes an object, its row is still as the session has read it.
abbrev pub SeesCurrent : List Action → Table → Type 0
SeesCurrent [] t = Unit
SeesCurrent (a ∷ steps) t = IsCurrent (objects a).0 (objects a).1 t × SeesCurrent steps (apply a t)

-- Every operation but a replay of the job keeps the attempts of the objects that it changes.
abbrev pub counts_for : Action → String → Bool
counts_for (replay k available_at now seen) i = not (str_eq k i)
counts_for _ i = true

pub objects-Moves : (a : Action) → Moves (counts_for a) (objects a).0 (objects a).1
unfolding objects
objects-Moves (enqueue d r seen) = same-Moves _ []
objects-Moves (claim worker now read) = same-Moves _ []
objects-Moves (expire lease now seen) = expire-Moves _ lease now seen
objects-Moves (complete i result now seen) = complete-Moves _ i result now seen
objects-Moves (fail i error retryable now backoff maximum seen) =
    fail-Moves _ i error retryable now backoff maximum seen
objects-Moves (replay i available_at now seen) =
    replay-Moves _ i available_at now seen (ground (arith, eq_iff i i))

pub apply-IsConsistent :
    (a : Action) (t : Table)
    → IsCurrent (objects a).0 (objects a).1 t
    → IsConsistent t
    → IsConsistent (apply a t)
unfolding apply
apply-IsConsistent (enqueue d r seen) t current c = enqueue_job-Keeps d r seen t c
apply-IsConsistent (claim worker now read) t current c =
    claim_first-IsConsistent worker now read t c
apply-IsConsistent a t current c =
    flush-IsConsistent (counts_for a) (objects a).0 (objects a).1 (objects-Moves a) t current c

-- From consistent rows on, whatever the sessions do and in whatever order, every job stays valid, and no
-- two jobs share an id or an idempotency key, provided that each row that a completion, a failure, a
-- replay or a recovery writes is at that moment as its session has read it. What a request for a job has
-- looked up and the candidates of a claim may be out of date.
pub run_actions-IsConsistent :
    (steps : List Action) (t : Table)
    → SeesCurrent steps t
    → IsConsistent t
    → IsConsistent (run_actions steps t)
unfolding run_actions
run_actions-IsConsistent [] t current c = c
run_actions-IsConsistent (a ∷ steps) t (current, rest) c =
    run_actions-IsConsistent steps (apply a t) rest (apply-IsConsistent a t current c)
