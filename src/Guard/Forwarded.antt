-- ===== src/Guard/Forwarded.antt =====
-- What the middleware lets through to the application.
use deployguardai.Prelude.{ℕ, ◌≡◌, true, List, ◌++◌, ◌≤◌, arith, inl, inr, Bool-cases}
use deployguardai.Prelude.Int.{ltb_ℤ, pos}
use deployguardai.Prelude.Texts.{contains}
use deployguardai.Guard.{
  ContentLength, absent, unreadable, declared, Settings, HttpRequest, Reply, replayed, direct,
  forwarded, admit, after_body, read_body, check_length, guard,
}
use deployguardai.Guard.Limiter.{Buckets, writing_methods, is_rate_limited}
use deployguardai.Guard.Body.{
  replay_all, Replays, replay_all-Replays, total_size, total_size-replay_all, Message, Buffered,
  complete, too_large, pending, buffer, IsWithin, buffer-IsWithin,
}

-- What the application gets by any number of calls: the buffered messages in order, which the server
-- has sent first, and then empty ones; and no more bytes than the limit.
abbrev pub IsReplay : (limit : ℕ) (sent buffered : List Message) → Type 0
IsReplay limit sent buffered =
    ((rest : List Message) × (sent ≡ buffered ++ rest))
    × ((n : ℕ)
        → Replays n buffered (replay_all n buffered) × (total_size (replay_all n buffered) ≤ limit))

abbrev pub IsBounded : Settings → HttpRequest → Reply → Type 0
IsBounded s r (forwarded (replayed buffered)) = IsReplay s.max_body_bytes r.messages buffered
IsBounded s r (forwarded (direct _)) = ⊥
IsBounded s r _ = Unit

IsWithin-IsReplay :
    (limit : ℕ) (sent buffered : List Message)
    → IsWithin limit 0 sent (complete buffered)
    → IsReplay limit sent buffered
IsWithin-IsReplay limit sent buffered (within, initial) = (
  initial,
  (λ n. (replay_all-Replays n buffered, omega (arith, within, total_size-replay_all n buffered))),
)

module _ (s : Settings) (r : HttpRequest) (now : ℕ) where
  admit-IsBounded :
      (received : List Message) (buckets : Buckets)
      → IsWithin s.max_body_bytes 0 r.messages (complete received)
      → IsBounded s r (admit s r now (replayed received) buckets).0
  unfolding admit
  admit-IsBounded received buckets h =
      elim (Bool-cases (is_rate_limited s.window s.limit r.client r.path r.method now buckets).0) [
        | inl limited ↦ rw limited tt
        | inr free ↦ rw free (IsWithin-IsReplay s.max_body_bytes r.messages received h)
      ]

  after_body-IsBounded :
      (b : Buffered) (buckets : Buckets)
      → IsWithin s.max_body_bytes 0 r.messages b
      → IsBounded s r (after_body s r now b buckets).0
  unfolding after_body
  after_body-IsBounded too_large buckets h = tt
  after_body-IsBounded pending buckets h = tt
  after_body-IsBounded (complete received) buckets h = admit-IsBounded received buckets h

  read_body-IsBounded :
      (buckets : Buckets)
      → contains writing_methods r.method ≡ true
      → IsBounded s r (read_body s r now buckets).0
  unfolding read_body
  read_body-IsBounded buckets writes = rw writes (
      after_body-IsBounded (buffer s.max_body_bytes 0 r.messages) buckets
        (buffer-IsWithin s.max_body_bytes 0 r.messages (omega arith)))

  check_length-IsBounded :
      (length : ContentLength) (buckets : Buckets)
      → contains writing_methods r.method ≡ true
      → IsBounded s r (check_length s r now length buckets).0
  unfolding check_length
  check_length-IsBounded absent buckets writes = read_body-IsBounded buckets writes
  check_length-IsBounded unreadable buckets writes = tt
  check_length-IsBounded (declared n) buckets writes =
      elim (Bool-cases (ltb_ℤ (pos s.max_body_bytes) n)) [
        | inl big ↦ rw big tt
        | inr small ↦ rw small (read_body-IsBounded buckets writes)
      ]

-- What the application receives of a POST, PUT or PATCH request, by however many calls, is the messages
-- that the server sent first, unchanged and in order, and behind them empty ones; its bytes are within
-- the limit, whatever the declared length was.
pub guard-IsBounded :
    (s : Settings) (r : HttpRequest) (now : ℕ) (buckets : Buckets)
    → contains writing_methods r.method ≡ true
    → IsBounded s r (guard s r now buckets).0
unfolding guard
guard-IsBounded s r now buckets writes =
    check_length-IsBounded s r now r.content_length buckets writes
