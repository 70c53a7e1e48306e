-- ===== src/Queue/Session/Current.antt =====
-- A flush where the written rows are as the session has read them.
use Prim.Native.String.{String}
use text.Mathlib.TextEquality.{eq_iff}
use deployguardai.Prelude.{
  ℕ, ◌≡◌, refl, sym, ◌∙◌, ap, Bool, true, false, Option, none, some, [], ◌∷◌, arith, inl, inr, All,
  Option-cases, ◌==◌, if◌then◌else◌,
}
use deployguardai.Queue.Payload.{Entries}
use deployguardai.Queue.Job.{succeeded, is_status, BackgroundJob, Table}
use deployguardai.Queue.Job.Rows.{KeepsKeys, IsUnique-map, HasUniqueKeys-map}
use deployguardai.Queue.Validity.{IsValid, IsConsistent}
use deployguardai.Queue.Session.{
  same_time, same_text, same_absence, row_written, changed_object, flush_row, flush,
}

-- Every row that the flush writes is as the session has read it.
abbrev pub IsCurrent : (before after t : Table) → Type 0
IsCurrent before after t =
    All (λ row. (b a : BackgroundJob) → changed_object before after row.id ≡ some (b, a) → b ≡ row)
      t

same_time-eq : (x y : Option ℕ) → same_time x y ≡ true → x ≡ y
same_time-eq none none h = refl
same_time-eq (some a) (some b) h = ap some (ground arith)
same_time-eq none (some b) h = cc
same_time-eq (some a) none h = cc

same_text-eq : (x y : Option String) → same_text x y ≡ true → x ≡ y
same_text-eq none none h = refl
same_text-eq (some a) (some b) h = ap some ((eq_iff a b).0 h)
same_text-eq none (some b) h = cc
same_text-eq (some a) none h = cc

same_absence-eq : (x y : Option Entries) → same_absence x y ≡ true → x ≡ y
same_absence-eq none none h = refl
same_absence-eq none (some b) h = cc
same_absence-eq (some a) none h = cc
same_absence-eq (some a) (some b) h = cc

number-eq : (x y : ℕ) → (x == y) ≡ true → x ≡ y
number-eq x y h = ground arith

column_current :
    {A : Type 0} (same : Bool) (old new : A)
    → (same ≡ true → old ≡ new)
    → (if same then old else new) ≡ new
column_current true old new h = h refl
column_current false old new h = refl

-- The columns that an operation may change; the others stay.
abbrev pub with_columns_of : (a b : BackgroundJob) → BackgroundJob
with_columns_of a b = record b {
  status = a.status;
  attempts = a.attempts;
  available_at = a.available_at;
  locked_at = a.locked_at;
  locked_by = a.locked_by;
  last_error = a.last_error;
  result = a.result;
  updated_at = a.updated_at;
  completed_at = a.completed_at;
}

row_written-current : (b a : BackgroundJob) → a ≡ with_columns_of a b → row_written b a b ≡ a
unfolding row_written
row_written-current b a e =
    let attempts = column_current _ b.attempts a.attempts (number-eq b.attempts a.attempts) in
    let available =
      column_current _ b.available_at a.available_at (number-eq b.available_at a.available_at) in
    let since = column_current _ b.locked_at a.locked_at (same_time-eq b.locked_at a.locked_at) in
    let worker = column_current _ b.locked_by a.locked_by (same_text-eq b.locked_by a.locked_by) in
    let error =
      column_current _ b.last_error a.last_error (same_text-eq b.last_error a.last_error) in
    let result = column_current _ b.result a.result (same_absence-eq b.result a.result) in
    let updated =
      column_current _ b.updated_at a.updated_at (number-eq b.updated_at a.updated_at) in
    let completed =
      column_current _ b.completed_at a.completed_at (same_time-eq b.completed_at a.completed_at) in
    rw (row_written, attempts, available, since, worker, error, result, updated, completed) (sym e)

-- How an operation may change an object: `counts` says whether it must keep the attempts.
pub record Move (counts : Bool) (b a : BackgroundJob) : Type 0 where
  pub columns : a ≡ with_columns_of a b
  pub valid : IsValid b → IsValid a
  pub alive : is_status b.status succeeded ≡ false
  pub counted : counts ≡ true → a.attempts ≡ b.attempts

-- Every object that differs is changed in such a way.
abbrev pub Moves : (counts : String → Bool) (before after : Table) → Type 0
Moves counts before after =
    (i : String) (b a : BackgroundJob)
    → changed_object before after i ≡ some (b, a)
    → Move (counts i) b a

pub flush_row-KeepsKeys : (before after : Table) → KeepsKeys (flush_row before after)
unfolding flush_row row_written
flush_row-KeepsKeys before after row = elim (Option-cases (changed_object before after row.id)) [
  | inl e ↦ rw (e, flush_row) (refl, refl)
  | inr ((b, a), e) ↦ rw (e, flush_row) (refl, refl)
]

-- A row that the flush writes is as the operation has made the object.
pub flush_row-moved :
    (before after : Table) (row b a : BackgroundJob)
    → a ≡ with_columns_of a b
    → changed_object before after row.id ≡ some (b, a)
    → b ≡ row
    → flush_row before after row ≡ a
unfolding flush_row
flush_row-moved before after row b a columns e same =
    rw (e, flush_row) (ap (λ x. row_written b a x) (sym same) ∙ row_written-current b a columns)

module _ (counts : String → Bool) (before after : Table) (moves : Moves counts before after) where
  flush-IsValid :
      (t : Table) → IsCurrent before after t → All IsValid t → All IsValid (flush before after t)
  unfolding flush
  flush-IsValid [] c v = tt
  flush-IsValid (row ∷ t) (current, c) (valid, v) =
      let rest = flush-IsValid t c v in
      elim (Option-cases (changed_object before after row.id)) [
        | inl e ↦ (rw (e, flush_row) valid, rest)
        | inr ((b, a), e) ↦
            let same = current b a e in
            let move = moves row.id b a e in
            let moved = flush_row-moved before after row b a move.columns e same in
            (rw moved (move.valid (rw same valid)), rest)
      ]

  -- Where the written rows are current, the flush keeps the jobs consistent.
  pub flush-IsConsistent :
      (t : Table) → IsCurrent before after t → IsConsistent t → IsConsistent (flush before after t)
  unfolding flush
  flush-IsConsistent t current c =
      let keeps = flush_row-KeepsKeys before after in
      record {
        valid = flush-IsValid t current c.valid;
        unique = IsUnique-map _ keeps t c.unique;
        unique_keys = HasUniqueKeys-map _ keeps t c.unique_keys;
      }
