-- ===== src/Queue/Payload.antt =====
-- backend/app/job_queue.py, `_SENSITIVE_PAYLOAD_KEY` and `_validate_payload`: which payloads and
-- results may be stored with a job. A Python value is read as far as the validator looks at it: a
-- number keeps its literal text, a tuple counts as a list, the keys of a mapping are texts, and
-- `opaque` is any value that `json.dumps` refuses.
pub mod Accepted
mod Tests
use Prim.Native.String.{String}
use deployguardai.Prelude.Codes.{codes}
use deployguardai.Prelude.{
  ℕ, ◌+◌, Bool, true, false, ◌&&◌, ◌||◌, not, List, [], ◌∷◌, ◌++◌, Outcome, Done, returns, ◌>>◌,
  raise_if, leb, ◌==◌, if◌then◌else◌, any,
}

mutual
  pub data Value : Type 0 where
    null : Value
    boolean : Bool → Value
    number : String → Value
    text : String → Value
    items : Items → Value
    mapping : Entries → Value
    opaque : Value

  pub data Items : Type 0 where
    nil : Items
    cons : Value → Items → Items

  pub data Entries : Type 0 where
    end : Entries
    entry : String → Value → Entries → Entries

pub data Step : Type 0 where
  key : String → Step
  index : ℕ → Step

-- `path`, as its parts: `payload.a[0]` is `key "a" ∷ index 0 ∷ []`.
abbrev pub Trail : Type 0
Trail = List Step

pub data PayloadError : Type 0 where
  looks_like_credential not_json : Trail → PayloadError

-- The words of `_SENSITIVE_PAYLOAD_KEY`.
abbrev pub credential_words : List String
credential_words =
    "token" ∷ "secret" ∷ "password" ∷ "passwd" ∷ "private_key" ∷ "api_key" ∷ "authorization"
    ∷ "credential" ∷ []

-- `re.IGNORECASE` on a text pattern: besides A to Z, the dotted and dotless i, the long s and the
-- Kelvin sign match an ASCII letter.
unfoldable pub fold_case : ℕ → ℕ
fold_case c =
    if leb b'A' c && leb c b'Z'
    then c + 32
    else if c == 0x130 || c == 0x131
    then b'i'
    else if c == 0x17F
    then b's'
    else if c == 0x212A
    then b'k'
    else c

-- `(?:$|_)`; `$` matches before a final line break too.
unfoldable pub at_end : List ℕ → Bool
at_end [] = true
at_end (c ∷ []) = c == b'_' || c == 10
at_end (c ∷ _ ∷ _) = c == b'_'

unfoldable pub word_here : List ℕ → List ℕ → Bool
unfolding fold_case at_end
word_here [] s = at_end s
word_here (w ∷ ws) [] = false
word_here (w ∷ ws) (c ∷ s) = fold_case c == w && word_here ws s

unfoldable pub credential_here : List ℕ → Bool
unfolding word_here
credential_here s = any (λ w. word_here (codes w) s) credential_words

-- A match that begins with an underscore.
unfoldable pub after_underscore : List ℕ → Bool
unfolding credential_here
after_underscore [] = false
after_underscore (c ∷ s) = (c == b'_' && credential_here s) || after_underscore s

-- `re.sub(r"(?<!^)([A-Z])", r"_\1", key_text)`, behind the first character.
unfoldable pub split_words : List ℕ → List ℕ
split_words [] = []
split_words (c ∷ s) =
    if leb b'A' c && leb c b'Z' then b'_' ∷ c ∷ split_words s else c ∷ split_words s

unfoldable pub normalized_key : List ℕ → List ℕ
unfolding split_words
normalized_key [] = []
normalized_key (c ∷ s) = c ∷ split_words s

unfoldable pub is_sensitive : String → Bool
unfolding after_underscore normalized_key
is_sensitive k = let s = normalized_key (codes k) in credential_here s || after_underscore s

-- `json.dumps(value)` succeeds.
unfoldable mutual
  pub dumps : Value → Bool
  dumps null = true
  dumps (boolean _) = true
  dumps (number _) = true
  dumps (text _) = true
  dumps (items vs) = dumps_items vs
  dumps (mapping es) = dumps_entries es
  dumps opaque = false

  pub dumps_items : Items → Bool
  dumps_items nil = true
  dumps_items (cons v vs) = dumps v && dumps_items vs

  pub dumps_entries : Entries → Bool
  dumps_entries end = true
  dumps_entries (entry _ v es) = dumps v && dumps_entries es

-- `_validate_payload`: the entries or the items in order, then the value as a whole.
unfoldable mutual
  pub validate_payload : Trail → Value → Outcome PayloadError Done
  validate_payload path (mapping es) =
      validate_entries path es >> raise_if (not (dumps (mapping es))) (not_json path)
  validate_payload path (items vs) =
      validate_items path 0 vs >> raise_if (not (dumps (items vs))) (not_json path)
  validate_payload path opaque = raise_if (not (dumps opaque)) (not_json path)
  validate_payload path null = raise_if (not (dumps null)) (not_json path)
  validate_payload path (boolean b) = raise_if (not (dumps (boolean b))) (not_json path)
  validate_payload path (number n) = raise_if (not (dumps (number n))) (not_json path)
  validate_payload path (text s) = raise_if (not (dumps (text s))) (not_json path)

  pub validate_items : Trail → ℕ → Items → Outcome PayloadError Done
  validate_items path i nil = returns tt
  validate_items path i (cons v vs) =
      validate_payload (path ++ index i ∷ []) v >> validate_items path (i + 1) vs

  pub validate_entries : Trail → Entries → Outcome PayloadError Done
  validate_entries path end = returns tt
  validate_entries path (entry k v es) =
      raise_if (is_sensitive k) (looks_like_credential (path ++ key k ∷ []))
      >> (validate_payload (path ++ key k ∷ []) v >> validate_entries path es)
