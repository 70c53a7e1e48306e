-- ===== src/Queue/Claim/Exclusive.antt =====
-- Claims that race: each session tries the candidates that it has read, however old they are.
use Prim.Native.String.{String}
use mathlib.Core.Option.{some-injective}
use deployguardai.Prelude.{
  ℕ, ◌≡◌, ◌≢◌, refl, sym, ◌∙◌, subst, true, false, Option, none, some, List, [], ◌∷◌, inl, inr,
  Option-cases, Bool-cases,
}
use deployguardai.Queue.Job.{BackgroundJob, Table, find, modify}
use deployguardai.Queue.Job.Rows.{find-id, find-by_id, find-modify_self}
use deployguardai.Queue.Lifecycle.{is_ready, lock, matches, claim_first}
use deployguardai.Queue.Validity.{lock-KeepsKeys}

-- The job was ready in the rows, and is the locked row now.
pub record WasReady (worker : String) (now : ℕ) (t : Table) (j : BackgroundJob) (t' : Table)
    : Type 0 where
  pub row : BackgroundJob
  pub before : find j.id t ≡ some row
  pub ready : is_ready now row ≡ true
  pub locked : j ≡ lock worker now row
  pub after : find j.id t' ≡ some j

abbrev Handed : (worker : String) (now : ℕ) → Table → Option BackgroundJob × Table → Type 0
Handed worker now t (none, t') = t' ≡ t
Handed worker now t (some j, t') = WasReady worker now t j t'

-- The id of a locked row is that of the row.
relocate :
    (worker : String) (now : ℕ) (i : String) (x : BackgroundJob) (t : Table)
    → find i t ≡ some (lock worker now x)
    → x.id ≡ i
    → find (lock worker now x).id t ≡ some (lock worker now x)
unfolding lock
relocate worker now i x t h same = subst (λ k. find k t ≡ some (lock worker now x)) (sym same) h

claim_first-Handed :
    (worker : String) (now : ℕ) (cs : List BackgroundJob) (t : Table)
    → Handed worker now t (claim_first worker now cs t)
unfolding claim_first
claim_first-Handed worker now [] t = refl
claim_first-Handed worker now (c ∷ cs) t =
    let rest = claim_first-Handed worker now cs t in
    elim (Option-cases (find c.id t)) [
      | inl e ↦ rw (e, matches) rest
      | inr (x, e) ↦ elim (Bool-cases (is_ready now x)) [
        | inr busy ↦ rw (e, matches) (rw busy rest)
        | inl ready ↦
            let f = lock worker now in
            let own = find-by_id c.id t e in
            let same = find-id c.id t e in
            let hit = find-modify_self c.id f (lock-KeepsKeys now worker) t e in
            let w : WasReady worker now t (f x) (modify c.id f t) = record {
              row = x;
              before = unfold lock in own;
              ready = ready;
              locked = refl;
              after = relocate worker now c.id x (modify c.id f t) hit same;
            } in
            rw (e, matches) (rw (ready, hit) w)
      ]
    ]

lock-busy :
    (worker : String) (now later : ℕ) (x : BackgroundJob)
    → is_ready later (lock worker now x) ≡ false
unfolding lock is_ready
lock-busy worker now later x = refl

-- Two workers race for the rows, each with candidates of its own, read at any time before: what the
-- second one gets is another job than the first one's.
pub claim_first_exclusive :
    (w1 w2 : String) (now1 now2 : ℕ) (read1 read2 : List BackgroundJob) (t t1 t2 : Table)
    (j1 j2 : BackgroundJob)
    → claim_first w1 now1 read1 t ≡ (some j1, t1)
    → claim_first w2 now2 read2 t1 ≡ (some j2, t2)
    → j1.id ≢ j2.id
claim_first_exclusive w1 w2 now1 now2 read1 read2 t t1 t2 j1 j2 h1 h2 same =
    let first : WasReady w1 now1 t j1 t1 = rw h1 at (claim_first-Handed w1 now1 read1 t) in
    let second : WasReady w2 now2 t1 j2 t2 = rw h2 at (claim_first-Handed w2 now2 read2 t1) in
    let found : find j2.id t1 ≡ some j1 = subst (λ k. find k t1 ≡ some j1) same first.after in
    let e : second.row ≡ j1 = some-injective _ _ (sym second.before ∙ found) in
    let busy = lock-busy w1 now1 now2 first.row in
    let b : is_ready now2 j1 ≡ false =
      subst (λ x. is_ready now2 x ≡ false) (sym first.locked) busy in
    let a : is_ready now2 j1 ≡ true = subst (λ x. is_ready now2 x ≡ true) e second.ready in cc
