-- ===== src/Queue/Trace/Step.antt =====
-- What one queue operation does to the row of a given job: its attempts, its budget, its success.
use Prim.Native.String.{String}
use text.Mathlib.Text.{◌==◌ as str_eq}
use text.Mathlib.TextEquality.{eq_iff}
use mathlib.Core.Option.{some-injective}
use mathlib.Core.Option
use deployguardai.Prelude.{
  subst, ◌⊎◌, ℕ, ◌+◌, ◌≡◌, ◌≢◌, refl, sym, ◌∙◌, ap, Bool, true, false, Option, none, some, List, [],
  ◌∷◌, ◌++◌, if◌then◌else◌, inl, inr, arith, Bool-cases, Option-cases, Outcome-cases,
}
use deployguardai.Queue.Job.{succeeded, is_status, BackgroundJob, Table, find, modify}
use deployguardai.Queue.Job.Rows.{
  KeepsKeys, find-All, find-id, find-map, find-modify_self, find-modify_ne,
}
use deployguardai.Queue.Job.Append.{find-append}
use deployguardai.Queue.Lifecycle.{lock, matches, is_ready, claim_first}
use deployguardai.Queue.Enqueue.{Draw, EnqueueRequest, prepare, insert_job, enqueue_job}
use deployguardai.Queue.Validity.{lock-KeepsKeys}
use deployguardai.Queue.Session.{changed_object, flush, flush_row}
use deployguardai.Queue.Session.Current.{
  IsCurrent, Move, Moves, flush_row-KeepsKeys, flush_row-moved,
}

-- The row of `i` after a step that handed it out `n` times.
pub record Next (i : String) (t : Table) (n : ℕ) (j : BackgroundJob) : Type 0 where
  pub row : BackgroundJob
  pub found : find i t ≡ some row
  pub counted : row.attempts ≡ j.attempts + n
  pub budget : row.max_attempts ≡ j.max_attempts
  pub kept : is_status j.status succeeded ≡ true → row ≡ j

pub Next-same : (i : String) (t : Table) (j : BackgroundJob) → find i t ≡ some j → Next i t 0 j
Next-same i t j h = record {
  row = j;
  found = h;
  counted = omega arith;
  budget = refl;
  kept = λ _. refl;
}

-- What a change of a row that has not succeeded does to its counters.
abbrev Counts : ℕ → BackgroundJob → BackgroundJob → Type 0
Counts n x y =
    (is_status x.status succeeded ≡ false)
    × (y.attempts ≡ x.attempts + n)
    × (y.max_attempts ≡ x.max_attempts)

Next-modify :
    (i k : String) (f : BackgroundJob → BackgroundJob) (n : ℕ) (t : Table) (x j : BackgroundJob)
    → KeepsKeys f
    → find k t ≡ some x
    → Counts n x (f x)
    → find i t ≡ some j
    → Next i (modify k f t) (if str_eq k i then n else 0) j
Next-modify i k f n t x j keeps hx (alive, a, b) hj = elim (Bool-cases (str_eq k i)) [
  | inl same ↦
      let e : k ≡ i = (eq_iff k i).0 same in
      let xj : x ≡ j = some-injective _ _ (sym hx ∙ rw (← e) at hj) in
      rw same record {
        row = f x;
        found = rw (← e) (find-modify_self k f keeps t hx);
        counted = rw (← xj) a;
        budget = rw (← xj) b;
        kept = λ s. cc;
      }
  | inr other ↦
      let ne : i ≢ k = ground (arith, eq_iff k i) in
      rw other (Next-same i (modify k f t) j (find-modify_ne k f keeps i t ne ∙ hj))
]

module _ (counts : String → Bool) (before after t : Table) (moves : Moves counts before after)
    (current : IsCurrent before after t) (i : String) (j : BackgroundJob)
    (hj : find i t ≡ some j) where
  pub flush-found : find i (flush before after t) ≡ some (flush_row before after j)
  unfolding flush
  flush-found =
      find-map (flush_row before after) (flush_row-KeepsKeys before after) i t
      ∙ ap (Option.map (flush_row before after)) hj

  seen : (b a : BackgroundJob) → changed_object before after j.id ≡ some (b, a) → b ≡ j
  seen =
      find-All
        (λ row. (b a : BackgroundJob) → changed_object before after row.id ≡ some (b, a) → b ≡ row)
        i t current hj

  -- What a flush does to the row of `i`: nothing, or what its operation has done to the object.
  flush-moved :
      (flush_row before after j ≡ j)
      ⊎ ((a : BackgroundJob) × Move (counts i) j a × (flush_row before after j ≡ a))
  unfolding flush_row
  flush-moved = elim (Option-cases (changed_object before after j.id)) [
    | inl e ↦ inl (rw (e, flush_row) refl)
    | inr ((b, a), e) ↦
        let same = seen b a e in
        let move : Move (counts i) b a =
          subst (λ k. Move (counts k) b a) (find-id i t hj) (moves j.id b a e) in
        inr (
          a,
          subst (λ x. Move (counts i) x a) same move,
          flush_row-moved before after j b a move.columns e same,
        )
  ]

  -- The row of a job that has succeeded is not written.
  pub flush-succeeded : is_status j.status succeeded ≡ true → find i (flush before after t) ≡ some j
  flush-succeeded s = elim flush-moved [
    | inl same ↦ flush-found ∙ ap some same
    | inr (a, move, _) ↦ cc (s, move.alive)
  ]

  pub Next-flush : counts i ≡ true → Next i (flush before after t) 0 j
  Next-flush c = elim flush-moved [
    | inl same ↦ Next-same i (flush before after t) j (flush-found ∙ ap some same)
    | inr (a, move, done) ↦ record {
      row = a;
      found = flush-found ∙ ap some done;
      counted = omega (arith, move.counted c);
      budget = ap (λ (x : BackgroundJob). x.max_attempts) move.columns;
      kept = λ s. cc (s, move.alive);
    }
  ]

lock-Counts :
    (worker : String) (now : ℕ) (x : BackgroundJob)
    → is_ready now x ≡ true
    → Counts 1 x (lock worker now x)
unfolding lock is_ready
lock-Counts worker now x r = ground arith

abbrev pub is_job : String → Option BackgroundJob → Bool
is_job i none = false
is_job i (some x) = str_eq x.id i

module _ (i : String) (t : Table) (j : BackgroundJob) (hj : find i t ≡ some j) where
  pub Next-enqueue :
      (d : Draw) (r : EnqueueRequest) (seen : Table) → Next i (enqueue_job d r seen t).1 0 j
  unfolding enqueue_job insert_job
  Next-enqueue d r seen = elim (Outcome-cases (prepare d r)) [
    | inl (x, e) ↦ rw (e, enqueue_job) (Next-same i t j hj)
    | inr (new, e) ↦
        let stay = Next-same i t j hj in
        let longer = Next-same i (t ++ new ∷ []) j (find-append new i t hj) in
        rw (e, enqueue_job) (ground (arith, stay, longer))
  ]

  -- A claim counts where it hands out the job in question.
  pub Next-claim :
      (worker : String) (now : ℕ) (read : List BackgroundJob)
      → Next i
          (claim_first worker now read t).1
          (if is_job i (claim_first worker now read t).0 then 1 else 0)
          j
  unfolding claim_first
  Next-claim worker now [] = Next-same i t j hj
  Next-claim worker now (c ∷ cs) =
      let rest = Next-claim worker now cs in
      elim (Option-cases (find c.id t)) [
        | inl e ↦ rw (e, matches) rest
        | inr (x, e) ↦ elim (Bool-cases (is_ready now x)) [
          | inr busy ↦ rw (e, matches) (rw busy rest)
          | inl ready ↦
              let f = lock worker now in
              let hit = find-modify_self c.id f (lock-KeepsKeys now worker) t e in
              let n =
                Next-modify i c.id f 1 t x j (lock-KeepsKeys now worker) e
                  (lock-Counts worker now x ready) hj in
              rw (e, matches) (rw (ready, hit) (rw (find-id c.id t e) n))
        ]
      ]
