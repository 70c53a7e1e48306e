-- ===== src/Guard/Limiter.antt =====
-- `_is_rate_limited` of backend/app/request_guard.py. The monotonic clock counts units; the buckets
-- are a dictionary in the order of its insertions.
use Prim.Native.String.{String}
use text.Mathlib.Text.{◌==◌ as str_eq}
use deployguardai.Prelude.{
  ℕ, ◌+◌, Bool, true, false, not, ◌&&◌, List, [], ◌∷◌, ◌++◌, ltb, leb, length, select,
  if◌then◌else◌,
}
use deployguardai.Prelude.Texts.{contains}

-- The client's host and the path.
abbrev pub Key : Type 0
Key = String × String

abbrev pub Buckets : Type 0
Buckets = List (Key × List ℕ)

unfoldable pub same_key : Key → Key → Bool
same_key (c, p) (c', p') = str_eq c c' && str_eq p p'

abbrev pub writing_methods : List String
writing_methods = "POST" ∷ "PUT" ∷ "PATCH" ∷ []

abbrev pub limited_paths : List String
limited_paths =
    "/api/v1/auth/development-session" ∷ "/api/v1/webhooks/github" ∷ "/api/v1/telemetry/events" ∷ []

-- `self._buckets[key]` of a `defaultdict(deque)`.
unfoldable pub bucket_of : Key → Buckets → List ℕ
unfolding same_key
bucket_of k [] = []
bucket_of k ((k', b) ∷ bs) = if same_key k' k then b else bucket_of k bs

-- The dictionary with the bucket of `k` changed in place.
unfoldable pub store : Key → List ℕ → Buckets → Buckets
unfolding same_key
store k b [] = (k, b) ∷ []
store k b ((k', b') ∷ bs) = if same_key k' k then (k', b) ∷ bs else (k', b') ∷ store k b bs

-- `time > cutoff`, where the cutoff is `now - window`.
abbrev pub is_recent : (window now : ℕ) → ℕ → Bool
is_recent window now since = ltb now (since + window)

-- `while bucket and bucket[0] <= cutoff: bucket.popleft()`
unfoldable pub drop_expired : (window now : ℕ) → List ℕ → List ℕ
drop_expired window now [] = []
drop_expired window now (since ∷ b) =
    if is_recent window now since then since ∷ b else drop_expired window now b

-- `item_bucket and item_bucket[-1] > cutoff`
unfoldable pub ends_recent : (window now : ℕ) → List ℕ → Bool
ends_recent window now [] = false
ends_recent window now (since ∷ []) = is_recent window now since
ends_recent window now (_ ∷ since ∷ b) = ends_recent window now (since ∷ b)

-- The buckets that are kept once there are more than 4096.
unfoldable pub compact : (window now : ℕ) → Buckets → Buckets
unfolding ends_recent
compact window now bs =
    if ltb 4096 (length bs) then select (λ e. ends_recent window now e.1) bs else bs

-- Behind the tests of the method and the path.
unfoldable pub hit : (window limit : ℕ) → Key → (now : ℕ) → Buckets → Bool × Buckets
unfolding drop_expired bucket_of store compact
hit window limit k now bs =
    let bucket = drop_expired window now (bucket_of k bs) in
    if leb limit (length bucket)
    then (true, store k bucket bs)
    else (false, compact window now (store k (bucket ++ now ∷ []) bs))

unfoldable pub is_rate_limited :
    (window limit : ℕ) (client path method : String) (now : ℕ) → Buckets → Bool × Buckets
unfolding hit
is_rate_limited window limit client path method now bs =
    if not (contains writing_methods method)
    then (false, bs)
    else if not (contains limited_paths path)
    then (false, bs)
    else hit window limit (client, path) now bs
