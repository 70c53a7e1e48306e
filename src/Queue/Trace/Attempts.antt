-- ===== src/Queue/Trace/Attempts.antt =====
-- How often a job is handed out, and that a success is final.
use Prim.Native.String.{String}
use deployguardai.Prelude.{
  ℕ, ◌+◌, ◌≡◌, ◌≤◌, ◌∙◌, true, Option, none, some, List, [], ◌∷◌, arith, all, if◌then◌else◌,
}
use deployguardai.Queue.Job.{succeeded, is_status, BackgroundJob, Table, find}
use deployguardai.Queue.Job.Rows.{find-All}
use deployguardai.Queue.Lifecycle.{claim_first}
use deployguardai.Queue.Validity.{IsValid, IsConsistent}
use deployguardai.Queue.Session.Current.{IsCurrent}
use deployguardai.Queue.Trace.{
  Action, enqueue, claim, objects, apply, run_actions, SeesCurrent, counts_for, objects-Moves,
  run_actions-IsConsistent,
}
use deployguardai.Queue.Trace.Step.{
  Next, Next-same, is_job, Next-enqueue, Next-claim, Next-flush, flush-succeeded,
}

-- The job that a claim hands out of the rows.
abbrev pub handed : Action → Table → Option BackgroundJob
handed (claim worker now read) t = (claim_first worker now read t).0
handed _ t = none

-- How many of the steps hand the job `i` out.
unfoldable pub times_handed_out : String → List Action → Table → ℕ
times_handed_out i [] t = 0
times_handed_out i (a ∷ steps) t =
    (if is_job i (handed a t) then 1 else 0) + times_handed_out i steps (apply a t)

-- No step replays the job `i`.
abbrev pub LeavesAlone : String → List Action → Type 0
LeavesAlone i steps = all (λ a. counts_for a i) steps ≡ true

apply-Next :
    (i : String) (a : Action) (t : Table) (j : BackgroundJob)
    → IsCurrent (objects a).0 (objects a).1 t
    → find i t ≡ some j
    → counts_for a i ≡ true
    → Next i (apply a t) (if is_job i (handed a t) then 1 else 0) j
unfolding apply
apply-Next i (enqueue d r seen) t j current h e = Next-enqueue i t j h d r seen
apply-Next i (claim worker now read) t j current h e = Next-claim i t j h worker now read
apply-Next i a t j current h e =
    Next-flush (counts_for a) (objects a).0 (objects a).1 t (objects-Moves a) current i j h e

run_actions-Next :
    (i : String) (steps : List Action) (t : Table) (j : BackgroundJob)
    → SeesCurrent steps t
    → find i t ≡ some j
    → LeavesAlone i steps
    → Next i (run_actions steps t) (times_handed_out i steps t) j
unfolding run_actions times_handed_out
run_actions-Next i [] t j current h alone = Next-same i t j h
run_actions-Next i (a ∷ steps) t j (current, rest) h alone =
    let n = apply-Next i a t j current h (ground arith) in
    let m = run_actions-Next i steps (apply a t) n.row rest n.found (ground arith) in
    record {
      row = m.row;
      found = m.found;
      counted = omega (arith, m.counted, n.counted);
      budget = m.budget ∙ n.budget;
      kept = λ s. m.kept (rw (n.kept s) s) ∙ n.kept s;
    }

-- From consistent rows on, until somebody replays it, a job is handed out at most `max_attempts` times, the
-- attempts made before included: no sequence of claims, expired leases, failures and retries does more,
-- provided that each row that a completion, a failure, a replay or a recovery writes is at that moment as
-- its session has read it.
pub times_handed_out-le :
    (i : String) (steps : List Action) (t : Table) (j : BackgroundJob)
    → SeesCurrent steps t
    → IsConsistent t
    → find i t ≡ some j
    → LeavesAlone i steps
    → j.attempts + times_handed_out i steps t ≤ j.max_attempts
times_handed_out-le i steps t j current c h alone =
    let n = run_actions-Next i steps t j current h alone in
    let v = find-All IsValid i _ (run_actions-IsConsistent steps t current c).valid n.found in
    omega (arith, v.attempts_within, n.counted, n.budget)

apply-succeeded :
    (i : String) (a : Action) (t : Table) (j : BackgroundJob)
    → IsCurrent (objects a).0 (objects a).1 t
    → find i t ≡ some j
    → is_status j.status succeeded ≡ true
    → find i (apply a t) ≡ some j
unfolding apply
apply-succeeded i (enqueue d r seen) t j current h s =
    let n = Next-enqueue i t j h d r seen in rw (← n.kept s) n.found
apply-succeeded i (claim worker now read) t j current h s =
    let n = Next-claim i t j h worker now read in rw (← n.kept s) n.found
apply-succeeded i a t j current h s =
    flush-succeeded (counts_for a) (objects a).0 (objects a).1 t (objects-Moves a) current i j h s

-- The row of a job that has succeeded stays as it is, whatever the sessions do, provided that
-- each row that a completion, a failure, a replay or a recovery writes is at that moment as its session
-- has read it.
pub succeeded_final :
    (i : String) (steps : List Action) (t : Table) (j : BackgroundJob)
    → SeesCurrent steps t
    → find i t ≡ some j
    → is_status j.status succeeded ≡ true
    → find i (run_actions steps t) ≡ some j
unfolding run_actions
succeeded_final i [] t j current h s = h
succeeded_final i (a ∷ steps) t j (current, rest) h s =
    succeeded_final i steps (apply a t) j rest (apply-succeeded i a t j current h s) s
