-- ===== src/Guard.antt =====
-- backend/app/request_guard.py: the middleware in front of the API. Headers are what the code reads
-- of them; logging and the texts of the answers are not modelled.
pub mod Limiter
pub mod Body
pub mod Entries
pub mod Times
pub mod Window
pub mod Forwarded
pub mod Samples
mod Tests
use Prim.Native.String.{String}
use deployguardai.Prelude.{ℕ, Bool, true, false, List, ltb, if◌then◌else◌}
use deployguardai.Prelude.Int.{ℤ, pos, ltb_ℤ}
use deployguardai.Prelude.Texts.{contains}
use deployguardai.Guard.Limiter.{Buckets, writing_methods, is_rate_limited}
use deployguardai.Guard.Body.{Message, Buffered, complete, too_large, pending, buffer}

-- The content-length header: absent, not an integer, or an integer.
pub data ContentLength : Type 0 where
  absent unreadable : ContentLength
  declared : ℤ → ContentLength

pub record Settings : Type 0 where
  pub max_body_bytes : ℕ
  pub limit : ℕ
  pub window : ℕ

pub record HttpRequest : Type 0 where
  pub method : String
  pub path : String
  pub client : String
  pub content_length : ContentLength
  -- what the server sends, in order
  pub messages : List Message

-- What the application reads its messages by: the server's own `receive`, or `replay_receive` on the
-- messages that were buffered.
pub data Receive : Type 0 where
  direct replayed : List Message → Receive

-- What comes of a request: an answer of the guard, the application with its `receive`, or no
-- end, where the server sends no more.
pub data Reply : Type 0 where
  invalid_content_length request_body_too_large rate_limit_exceeded : Reply
  forwarded : Receive → Reply
  unfinished : Reply

-- The `status` of the guard's own answers; 0 for what the application answers.
abbrev pub status_of : Reply → ℕ
status_of invalid_content_length = 400
status_of request_body_too_large = 413
status_of rate_limit_exceeded = 429
status_of _ = 0

-- From the rate limiter on, at the time `now`.
unfoldable pub admit : Settings → HttpRequest → (now : ℕ) → Receive → Buckets → Reply × Buckets
admit s r now receive buckets =
    let (limited, buckets') =
      is_rate_limited s.window s.limit r.client r.path r.method now buckets in
    if limited then (rate_limit_exceeded, buckets') else (forwarded receive, buckets')

-- Behind the reading of the body.
unfoldable pub after_body :
    Settings → HttpRequest → (now : ℕ) → Buffered → Buckets → Reply × Buckets
after_body s r now too_large buckets = (request_body_too_large, buckets)
after_body s r now pending buckets = (unfinished, buckets)
after_body s r now (complete buffered) buckets = admit s r now (replayed buffered) buckets

-- The reading of the body, for the methods that have one.
unfoldable pub read_body : Settings → HttpRequest → (now : ℕ) → Buckets → Reply × Buckets
read_body s r now buckets =
    if contains writing_methods r.method
    then after_body s r now (buffer s.max_body_bytes 0 r.messages) buckets
    else admit s r now (direct r.messages) buckets

-- What the content-length header leads to.
unfoldable pub check_length :
    Settings → HttpRequest → (now : ℕ) → ContentLength → Buckets → Reply × Buckets
check_length s r now absent buckets = read_body s r now buckets
check_length s r now unreadable buckets = (invalid_content_length, buckets)
check_length s r now (declared n) buckets =
    if ltb_ℤ (pos s.max_body_bytes) n
    then (request_body_too_large, buckets)
    else read_body s r now buckets

-- `RequestGuardMiddleware.__call__` on an HTTP request.
unfoldable pub guard : Settings → HttpRequest → (now : ℕ) → Buckets → Reply × Buckets
guard s r now buckets = check_length s r now r.content_length buckets
