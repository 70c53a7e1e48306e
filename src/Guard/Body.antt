-- ===== src/Guard/Body.antt =====
-- The reading of a request's body in `RequestGuardMiddleware.__call__`, and what the application reads
-- of it in place of the server's messages.
use deployguardai.Prelude.{
  ℕ, zero, suc, ◌+◌, ◌≡◌, ◌≤◌, refl, Bool, true, false, List, [], ◌∷◌, ◌++◌, arith, ltb,
  if◌then◌else◌, length, ap, inl, inr, Bool-cases,
}

-- An ASGI message, with the bytes of its body; `disconnect` is any other type.
pub data Message : Type 0 where
  http_request : (body : List ℕ) (more_body : Bool) → Message
  disconnect : Message

pub data Buffered : Type 0 where
  complete : List Message → Buffered
  too_large pending : Buffered

abbrev pub also : Message → Buffered → Buffered
also m (complete ms) = complete (m ∷ ms)
also m too_large = too_large
also m pending = pending

-- The `while` loop, with the number of bytes received before; `pending` where the messages run out.
unfoldable pub buffer : (limit received : ℕ) → List Message → Buffered
buffer limit received [] = pending
buffer limit received (disconnect ∷ ms) = complete (disconnect ∷ [])
buffer limit received (http_request body more ∷ ms) =
    let rest = buffer limit (received + length body) ms in
    if ltb limit (received + length body)
    then too_large
    else if more
    then also (http_request body more) rest
    else complete (http_request body more ∷ [])

-- What `replay_receive` answers where the messages have run out.
abbrev pub empty_request : Message
empty_request = http_request [] false

-- `replay_receive`, with the messages that are left behind it.
unfoldable pub replay_receive : List Message → Message × List Message
replay_receive [] = (empty_request, [])
replay_receive (m ∷ ms) = (m, ms)

-- What the application gets by `n` calls of `replay_receive`.
unfoldable pub replay_all : (n : ℕ) → List Message → List Message
unfolding replay_receive
replay_all zero ms = []
replay_all (suc n) ms = let (m, rest) = replay_receive ms in m ∷ replay_all n rest

-- The bytes of the messages.
unfoldable pub total_size : List Message → ℕ
total_size [] = 0
total_size (disconnect ∷ ms) = total_size ms
total_size (http_request body _ ∷ ms) = length body + total_size ms

-- The messages are those that the server sent, up to some point, and within the limit.
abbrev pub IsWithin : (limit received : ℕ) → List Message → Buffered → Type 0
IsWithin limit received sent (complete ms) =
    (received + total_size ms ≤ limit) × ((rest : List Message) × (sent ≡ ms ++ rest))
IsWithin limit received sent _ = Unit

also-IsWithin :
    (limit received : ℕ) (body : List ℕ) (more : Bool) (ms : List Message) (b : Buffered)
    → IsWithin limit (received + length body) ms b
    → IsWithin limit received (http_request body more ∷ ms) (also (http_request body more) b)
unfolding total_size
also-IsWithin limit received body more ms (complete got) (within, (rest, e)) =
    (omega (arith, within), (rest, ap (λ xs. http_request body more ∷ xs) e))
also-IsWithin limit received body more ms too_large h = tt
also-IsWithin limit received body more ms pending h = tt

-- What the guard buffers.
pub buffer-IsWithin :
    (limit received : ℕ) (ms : List Message)
    → received ≤ limit
    → IsWithin limit received ms (buffer limit received ms)
unfolding buffer total_size
buffer-IsWithin limit received [] le = tt
buffer-IsWithin limit received (disconnect ∷ ms) le = (omega (arith, le), (ms, refl))
buffer-IsWithin limit received (http_request body more ∷ ms) le =
    elim (Bool-cases (ltb limit (received + length body))) [
      | inl big ↦ rw big tt
      | inr small ↦
          let le' : received + length body ≤ limit = ground arith in
          elim (Bool-cases more) [
            | inl again ↦
                rw (small, again)
                  (also-IsWithin limit received body true ms _
                    (buffer-IsWithin limit (received + length body) ms le'))
            | inr last ↦ rw (small, last) (omega (arith, le'), (ms, refl))
          ]
    ]

-- What `n` calls give of the buffered messages: these in order, and then empty ones.
abbrev pub Replays : (n : ℕ) (sent given : List Message) → Type 0
Replays zero sent given = given ≡ []
Replays (suc n) [] given =
    (rest : List Message) × (given ≡ empty_request ∷ rest) × Replays n [] rest
Replays (suc n) (m ∷ sent) given = (rest : List Message) × (given ≡ m ∷ rest) × Replays n sent rest

pub replay_all-Replays : (n : ℕ) (ms : List Message) → Replays n ms (replay_all n ms)
unfolding replay_all
replay_all-Replays zero ms = refl
replay_all-Replays (suc n) [] = (replay_all n [], refl, replay_all-Replays n [])
replay_all-Replays (suc n) (m ∷ ms) = (replay_all n ms, refl, replay_all-Replays n ms)

replay_all-empty : (n : ℕ) → total_size (replay_all n []) ≡ 0
unfolding replay_all total_size
replay_all-empty zero = refl
replay_all-empty (suc n) = omega (arith, replay_all-empty n)

pub total_size-replay_all :
    (n : ℕ) (ms : List Message) → total_size (replay_all n ms) ≤ total_size ms
unfolding replay_all total_size
total_size-replay_all zero ms = omega arith
total_size-replay_all (suc n) [] = omega (arith, replay_all-empty n)
total_size-replay_all (suc n) (disconnect ∷ ms) = total_size-replay_all n ms
total_size-replay_all (suc n) (http_request body more ∷ ms) =
    omega (arith, total_size-replay_all n ms)
