-- ===== src/Queue/Session.antt =====
-- What a session writes to the rows when it commits (backend/app/database.py): its objects stay as they
-- were read, `expire_on_commit=False`, and no version of a row is compared. The operations that change
-- objects work on what the session shows, and a flush then writes the columns that they changed.
pub mod Current
pub mod Moved
use Prim.Native.String.{String}
use text.Mathlib.Text.{◌==◌ as str_eq}
use deployguardai.Prelude.{ℕ, Bool, true, false, Option, none, some, List, map, ◌==◌, if◌then◌else◌}
use deployguardai.Queue.Payload.{Entries}
use deployguardai.Queue.Job.{is_status, BackgroundJob, Table, find}

-- The values of a column before and after, where they can be absent.
abbrev pub same_time : Option ℕ → Option ℕ → Bool
same_time none none = true
same_time (some a) (some b) = a == b
same_time _ _ = false

abbrev pub same_text : Option String → Option String → Bool
same_text none none = true
same_text (some a) (some b) = str_eq a b
same_text _ _ = false

-- A result that is absent before and after is not written; any other one is.
abbrev pub same_absence : Option Entries → Option Entries → Bool
same_absence none none = true
same_absence _ _ = false

-- An update of `row` by the columns in which the object `after` differs from what was loaded.
unfoldable pub row_written : (before after row : BackgroundJob) → BackgroundJob
row_written before after row = record row {
  status = after.status;
  attempts = if before.attempts == after.attempts then row.attempts else after.attempts;
  available_at =
      if before.available_at == after.available_at then row.available_at else after.available_at;
  locked_at = if same_time before.locked_at after.locked_at then row.locked_at else after.locked_at;
  locked_by = if same_text before.locked_by after.locked_by then row.locked_by else after.locked_by;
  last_error =
      if same_text before.last_error after.last_error then row.last_error else after.last_error;
  result = if same_absence before.result after.result then row.result else after.result;
  updated_at = if before.updated_at == after.updated_at then row.updated_at else after.updated_at;
  completed_at =
      if same_time before.completed_at after.completed_at
      then row.completed_at
      else after.completed_at;
}

-- The object of the row `i`, as it was loaded and as it is now, where an operation has changed it:
-- each of them then changes the status.
unfoldable pub changed_object :
    (before after : Table) (i : String) → Option (BackgroundJob × BackgroundJob)
unfolding find is_status
changed_object before after i = elim (find i before) [
  | none ↦ none
  | some b ↦ elim (find i after) [
    | none ↦ none
    | some a ↦ if is_status b.status a.status then none else some (b, a)
  ]
]

unfoldable pub flush_row : (before after : Table) → BackgroundJob → BackgroundJob
unfolding changed_object row_written
flush_row before after row = elim (changed_object before after row.id) [
  | none ↦ row
  | some p ↦ row_written p.0 p.1 row
]

-- The commit of a session whose objects were `before` and are `after`, on the rows `t`.
unfoldable pub flush : (before after : Table) → Table → Table
unfolding flush_row
flush before after t = map (flush_row before after) t
