-- ===== src/Queue/Session/Moved.antt =====
-- How each operation changes the objects of its session.
use Prim.Native.String.{String}
use text.Mathlib.Text.{◌==◌ as str_eq}
use text.Mathlib.TextEquality.{eq_iff}
use mathlib.Core.Option
use mathlib.Core.Option.{some-injective}
use deployguardai.Prelude.{
  ℕ, ◌≡◌, ◌≢◌, refl, sym, ◌∙◌, ap, subst, Bool, true, false, Option, none, some, map, arith, inl,
  inr, ◌||◌, Bool-cases, Option-cases,
}
use deployguardai.Prelude.Int.{ℤ, magnitude}
use deployguardai.Queue.Payload.{Entries}
use deployguardai.Queue.Job.{
  JobStatus, queued, running, succeeded, failed, dead_letter, is_status, BackgroundJob, Table, find,
  modify,
}
use deployguardai.Queue.Job.Rows.{KeepsKeys, find-id, find-map, find-modify_self, find-modify_ne}
use deployguardai.Queue.Lifecycle.{
  has_expired, release_expired, requeue_expired_jobs, completed, complete_job, failing, fail_job,
  replayed, replay_dead_letter_job, write_back,
}
use deployguardai.Queue.Validity.{
  completed-IsValid, completed-KeepsKeys, failing-IsValid, failing-KeepsKeys, replayed-IsValid,
  replayed-KeepsKeys, release_expired-IsValid,
}
use deployguardai.Queue.Invariant.{release_if_expired, release_if_expired-KeepsKeys}
use deployguardai.Queue.Session.{changed_object}
use deployguardai.Queue.Session.Current.{Move, Moves}

is_status_self : (s : JobStatus) → is_status s s ≡ true
unfolding is_status
is_status_self queued = refl
is_status_self running = refl
is_status_self succeeded = refl
is_status_self failed = refl
is_status_self dead_letter = refl

-- An object that is as before is not written.
changed_object-same :
    (before after : Table) (k : String) {p : BackgroundJob × BackgroundJob}
    → find k after ≡ find k before
    → changed_object before after k ≢ some p
unfolding changed_object
changed_object-same before after k {p} same e = elim (Option-cases (find k before)) [
  | inl h ↦ cc (rw (h, changed_object) at e)
  | inr (x, h) ↦ (let e' = rw (h, same ∙ h, is_status_self x.status, changed_object) at e in cc)
]

changed_object-some :
    (before after : Table) (k : String) (j j' b a : BackgroundJob)
    → find k before ≡ some j
    → find k after ≡ some j'
    → changed_object before after k ≡ some (b, a)
    → ◌≡◌ {A = BackgroundJob × BackgroundJob} (j, j') (b, a)
unfolding changed_object
changed_object-some before after k j j' b a h h' e =
    elim (Bool-cases (is_status j.status j'.status)) [
      | inl same ↦ (let e' = rw (h, h', same, changed_object) at e in cc)
      | inr other ↦ some-injective _ _ (rw (h, h', other, changed_object) at e)
    ]

-- Where both tables are known.
Move-changed_object :
    (counts : Bool) (before after : Table) (k : String) (j j' b a : BackgroundJob)
    → find k before ≡ some j
    → find k after ≡ some j'
    → changed_object before after k ≡ some (b, a)
    → Move counts j j'
    → Move counts b a
Move-changed_object counts before after k j j' b a h h' e move =
    subst (λ (p : BackgroundJob × BackgroundJob). Move counts p.0 p.1)
      (changed_object-some before after k j j' b a h h' e) move

released :
    (lease now : ℕ) (j : BackgroundJob) {c : Bool}
    → has_expired lease now j ≡ true
    → Move c j (release_expired now j)
unfolding release_expired has_expired is_status
released lease now j late = record {
  columns = ground arith;
  valid = release_expired-IsValid lease now j late;
  alive = ground arith;
  counted = λ _. ground arith;
}

module _ (counts : String → Bool) where
  pub same-Moves : (t : Table) → Moves counts t t
  same-Moves t i b a e = absurd (changed_object-same t t i refl e)

  modify-Moves :
      (i : String) (f : BackgroundJob → BackgroundJob) (t : Table) (j : BackgroundJob)
      → KeepsKeys f
      → find i t ≡ some j
      → Move (counts i) j (f j)
      → Moves counts t (modify i f t)
  modify-Moves i f t j keeps h move k b a e = elim (Bool-cases (str_eq i k)) [
    | inl same ↦
        let ik : i ≡ k = (eq_iff i k).0 same in
        subst (λ x. Move (counts x) b a) ik
          (Move-changed_object (counts i) t (modify i f t) i j (f j) b a h
            (find-modify_self i f keeps t h) (rw (← ik) at e) move)
    | inr other ↦
        let ne : k ≢ i = ground (arith, eq_iff i k) in
        absurd (changed_object-same t (modify i f t) k (find-modify_ne i f keeps k t ne) e)
  ]

  write_back-Moves :
      (i : String) (f : BackgroundJob → BackgroundJob) (t : Table) (j : BackgroundJob)
      → KeepsKeys f
      → find i t ≡ some j
      → Move (counts i) j (f j)
      → Moves counts t (write_back f j t).1
  unfolding write_back
  write_back-Moves i f t j keeps h move = rw (find-id i t h) (modify-Moves i f t j keeps h move)

  pub complete-Moves :
      (i : String) (result : Option Entries) (now : ℕ) (t : Table)
      → Moves counts t (complete_job i result now t).1
  unfolding complete_job completed is_status
  complete-Moves i result now t = elim (Option-cases (find i t)) [
    | inl e ↦ rw (e, complete_job) (same-Moves t)
    | inr (j, e) ↦
        let stay = same-Moves t in
        let step = λ (r : is_status j.status running ≡ true).
          write_back-Moves i (completed result now) t j (completed-KeepsKeys now result) e record {
            columns = refl;
            valid = completed-IsValid result now j r;
            alive = ground arith;
            counted = λ _. refl;
          } in
        rw (e, complete_job) (ground (arith, stay, step))
  ]

  pub fail-Moves :
      (i error : String) (retryable : Bool) (now : ℕ) (backoff maximum : ℤ) (t : Table)
      → Moves counts t (fail_job i error retryable now backoff maximum t).1
  unfolding fail_job failing is_status
  fail-Moves i error retryable now backoff maximum t =
      let b = magnitude backoff in
      let m = magnitude maximum in
      let stay = same-Moves t in
      elim (Option-cases (find i t)) [
        | inl e ↦ rw (e, fail_job) (ground (arith, stay))
        | inr (j, e) ↦
            let step = λ (r : is_status j.status running ≡ true).
              write_back-Moves i (failing error retryable now b m) t j
                (failing-KeepsKeys now error retryable b m) e
                record {
                  columns = ground arith;
                  valid = failing-IsValid error retryable now b m j r;
                  alive = ground arith;
                  counted = λ _. ground arith;
                } in
            rw (e, fail_job) (ground (arith, stay, step))
      ]

  pub replay-Moves :
      (i : String) (available_at : Option ℕ) (now : ℕ) (t : Table)
      → counts i ≡ false
      → Moves counts t (replay_dead_letter_job i available_at now t).1
  unfolding replay_dead_letter_job replayed is_status
  replay-Moves i available_at now t free = elim (Option-cases (find i t)) [
    | inl e ↦ rw (e, replay_dead_letter_job) (same-Moves t)
    | inr (j, e) ↦
        let stay = same-Moves t in
        let step = λ (r : (is_status j.status failed || is_status j.status dead_letter) ≡ true).
          write_back-Moves i (replayed available_at now) t j (replayed-KeepsKeys now available_at) e
            record {
              columns = refl;
              valid = replayed-IsValid available_at now j;
              alive = ground arith;
              counted = λ c. cc;
            } in
        rw (e, replay_dead_letter_job) (ground (arith, stay, step))
  ]

  pub expire-Moves :
      (lease now : ℕ) (t : Table) → Moves counts t (requeue_expired_jobs lease now t).1
  unfolding requeue_expired_jobs
  expire-Moves lease now t i b a e =
      let g = release_if_expired lease now in
      let keeps = release_if_expired-KeepsKeys lease now in
      let after : find i (map g t) ≡ Option.map g (find i t) = find-map g keeps i t in
      elim (Option-cases (find i t)) [
        | inl h ↦ absurd (changed_object-same t (map g t) i (after ∙ rw h (refl)) e)
        | inr (j, h) ↦ elim (Bool-cases (has_expired lease now j)) [
          | inr fresh ↦ absurd (changed_object-same t (map g t) i (after ∙ rw (h, fresh) refl) e)
          | inl late ↦
              Move-changed_object (counts i) t (map g t) i j (release_expired now j) b a h
                (after ∙ rw (h, late) refl) e (released lease now j late)
        ]
      ]

-- A row that no flush writes, and one that the session shows as it is.
pub unwritten :
    (before after : Table) (row : BackgroundJob)
    → changed_object before after row.id ≡ none
    → (b a : BackgroundJob) → changed_object before after row.id ≡ some (b, a)
    → b ≡ row
unwritten before after row h b a e = cc (h, e)

pub shown :
    (before after : Table) (row : BackgroundJob)
    → find row.id before ≡ some row
    → (b a : BackgroundJob) → changed_object before after row.id ≡ some (b, a)
    → b ≡ row
unfolding changed_object
shown before after row h b a e = elim (Option-cases (find row.id after)) [
  | inl gone ↦ (let e' = rw (h, gone, changed_object) at e in cc)
  | inr (x, there) ↦
      ap (λ (p : BackgroundJob × BackgroundJob). p.0)
        (sym (changed_object-some before after row.id row x b a h there e))
]
