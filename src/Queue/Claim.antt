-- ===== src/Queue/Claim.antt =====
-- Which job `claim_next_job` hands out.
pub mod Exclusive
pub mod Oldest
use Prim.Native.String.{String, count}
use deployguardai.Prelude.{
  ℕ, ◌≡◌, ◌||◌, ltb, refl, Bool, true, false, Option, none, some, List, [], ◌∷◌, Outcome, returns,
  raises, arith, inl, inr, ap, All, All-select, All-weaken, All-both, All-⊥, select, select-All,
  take, Option-cases, Bool-cases, sym,
}
use deployguardai.Prelude.Texts.{strip, is_blank}
use deployguardai.Prelude.Sort.{
  sort, All-sort, All-of_sort, IsSorted, IsTotal, IsTransitive, sort-IsSorted,
}
use deployguardai.Queue.Job.{BackgroundJob, Table, find, modify}
use deployguardai.Queue.Job.Rows.{IsUnique, find-own, find-modify_self}
use deployguardai.Queue.Lifecycle.{
  QueueError, Effect, is_ready, comes_first, candidates, lock, matches, claim_first, claim_next_job,
}
use deployguardai.Queue.Validity.{IsConsistent, lock-KeepsKeys}

comes_first-IsTotal : IsTotal comes_first
unfolding comes_first
comes_first-IsTotal a b h = ground arith

comes_first-IsTransitive : IsTransitive comes_first
unfolding comes_first
comes_first-IsTransitive a b c h k = ground arith

-- `row` is ready, and no ready row comes before it.
pub record IsOldestReady (now : ℕ) (t : Table) (row : BackgroundJob) : Type 0 where
  pub found : find row.id t ≡ some row
  pub ready : is_ready now row ≡ true
  pub oldest : All (λ x. comes_first row x ≡ true) (select (is_ready now) t)

comes_first_self : (j : BackgroundJob) → comes_first j j ≡ true
unfolding comes_first
comes_first_self j = ground arith

-- What a list of candidates begins with: nothing where no row is ready, else an oldest ready row.
abbrev Begins : (now : ℕ) → Table → List BackgroundJob → Type 0
Begins now t [] = select (is_ready now) t ≡ []
Begins now t (row ∷ _) = IsOldestReady now t row

module _ (now : ℕ) (t : Table) (u : IsUnique t) where
  abbrev IsFoundReady : BackgroundJob → Type 0
  IsFoundReady x = (find x.id t ≡ some x) × (is_ready now x ≡ true)

  ready_rows : All IsFoundReady (select (is_ready now) t)
  ready_rows =
      All-both _ _ (select (is_ready now) t)
        (All-select (λ x. find x.id t ≡ some x) (is_ready now) t (find-own t u))
        (select-All (is_ready now) t)

  sorted-Begins :
      (l : List BackgroundJob) → sort comes_first (select (is_ready now) t) ≡ l → Begins now t l
  sorted-Begins [] e =
      All-⊥ _ (All-of_sort comes_first (λ _. ⊥) (select (is_ready now) t) (rw e tt))
  sorted-Begins (row ∷ rest) e =
      let rows = select (is_ready now) t in
      let sorted : IsSorted comes_first (row ∷ rest) =
        rw e at (sort-IsSorted comes_first comes_first-IsTotal comes_first-IsTransitive rows) in
      let good : All IsFoundReady (row ∷ rest) =
        rw e at (All-sort comes_first IsFoundReady rows ready_rows) in
      record {
        found = good.0.0;
        ready = good.0.1;
        oldest =
            All-of_sort comes_first (λ x. comes_first row x ≡ true) rows
              (rw e (comes_first_self row, sorted.0));
      }

  Begins-take : (l : List BackgroundJob) → Begins now t l → Begins now t (take 20 l)
  Begins-take [] b = b
  Begins-take (row ∷ rest) b = b

  candidates-Begins : Begins now t (candidates now t)
  unfolding candidates
  candidates-Begins =
      Begins-take (sort comes_first (select (is_ready now) t)) (sorted-Begins _ refl)

-- What a claim on the rows that its candidates were read from has done.
abbrev pub Takes : (worker : String) (now : ℕ) → Table → Option BackgroundJob × Table → Type 0
Takes worker now t (none, t') = (select (is_ready now) t ≡ []) × (t' ≡ t)
Takes worker now t (some j, t') =
    (row : BackgroundJob) × IsOldestReady now t row
    × (j ≡ lock worker now row)
    × (t' ≡ modify row.id (lock worker now) t)

claim_first-Takes :
    (worker : String) (now : ℕ) (t : Table) (cs : List BackgroundJob)
    → Begins now t cs
    → Takes worker now t (claim_first worker now cs t)
unfolding claim_first
claim_first-Takes worker now t [] b = (b, refl)
claim_first-Takes worker now t (row ∷ rest) b =
    let hit = find-modify_self row.id (lock worker now) (lock-KeepsKeys now worker) t b.found in
    rw (b.found, matches) (rw (b.ready, hit) (row, b, refl, refl))

-- `worker_id` has 1 to 160 characters behind `strip`.
abbrev pub IsWorkerId : String → Type 0
IsWorkerId worker_id = (is_blank (strip worker_id) || ltb 160 (count (strip worker_id))) ≡ false

-- A claim on the rows that it reads.
pub claim_next_job-Takes :
    (worker_id : String) (now : ℕ) (t : Table)
    → IsConsistent t
    → IsWorkerId worker_id
    → (o : Option BackgroundJob) × (t' : Table) × (claim_next_job worker_id now t ≡ (returns o, t'))
      × Takes (strip worker_id) now t (o, t')
unfolding claim_next_job
claim_next_job-Takes worker_id now t c w =
    let r = claim_first (strip worker_id) now (candidates now t) t in
    let claimed = claim_first-Takes (strip worker_id) now t _ (candidates-Begins now t c.unique) in
    (r.0, r.1, rw (w, claim_next_job) refl, claimed)
