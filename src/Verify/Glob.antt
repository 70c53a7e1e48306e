-- ===== src/Verify/Glob.antt =====
-- `fnmatch.fnmatchcase`, by which verify/deployguard_verify/policy.py matches a path to a pattern:
-- `*` stands for any text, the slash included, `?` for a character, `[...]` for one of a set.
use Prim.Native.String.{String}
use deployguardai.Prelude.Codes.{codes}
use deployguardai.Prelude.{
  ℕ, zero, suc, Bool, true, false, not, ◌&&◌, ◌||◌, List, [], ◌∷◌, Option, none, some, leb, ◌==◌,
  if◌then◌else◌, any,
}

-- An entry of a set: the characters from `low` to `high`, none where `high` is less.
pub record Span : Type 0 where
  pub low : ℕ
  pub high : ℕ

pub data Token : Type 0 where
  star one : Token
  lit : ℕ → Token
  class : (negated : Bool) → List Span → Token

-- `c-d` in a set, where both ends are there; any other character stands for itself.
unfoldable pub spans : List ℕ → List Span
spans [] = []
spans (c ∷ []) = record { low = c; high = c } ∷ []
spans (c ∷ d ∷ []) = record { low = c; high = c } ∷ record { low = d; high = d } ∷ []
spans (c ∷ d ∷ e ∷ s) =
    let range = record { low = c; high = e } ∷ spans s in
    let single = record { low = c; high = c } ∷ spans (d ∷ e ∷ s) in
    if d == b'-' then range else single

-- The text before the first `]` and the text behind it.
unfoldable pub until_close : List ℕ → Option (List ℕ × List ℕ)
until_close [] = none
until_close (c ∷ s) =
    if c == b']'
    then some ([], s)
    else elim (until_close s) [ none ↦ none | some (inner, rest) ↦ some (c ∷ inner, rest) ]

-- A `]` that stands first in a set belongs to it.
unfoldable pub set_body : List ℕ → Option (List ℕ × List ℕ)
unfolding until_close
set_body [] = none
set_body (c ∷ s) =
    if c == b']'
    then elim (until_close s) [ none ↦ none | some (inner, rest) ↦ some (c ∷ inner, rest) ]
    else until_close (c ∷ s)

-- Behind a `[`: the set and the rest of the pattern, `none` where nothing closes it.
unfoldable pub read_set : List ℕ → Option (Token × List ℕ)
unfolding set_body spans
read_set [] = none
read_set (c ∷ s) =
    if c == b'!'
    then elim (set_body s) [
      | none ↦ none
      | some (inner, rest) ↦ some (class true (spans inner), rest)
    ]
    else elim (set_body (c ∷ s)) [
      | none ↦ none
      | some (inner, rest) ↦ some (class false (spans inner), rest)
    ]

-- The pattern's tokens. Each takes at least one character, so the length of the pattern is fuel
-- enough.
unfoldable pub tokens_from : ℕ → List ℕ → List Token
unfolding read_set
tokens_from zero s = []
tokens_from (suc fuel) [] = []
tokens_from (suc fuel) (c ∷ s) =
    let behind = tokens_from fuel s in
    let set = λ (t : Token × List ℕ). t.0 ∷ tokens_from fuel t.1 in
    if c == b'*'
    then star ∷ behind
    else if c == b'?'
    then one ∷ behind
    else if c == b'['
    then elim (read_set s) [ none ↦ lit c ∷ behind | some t ↦ set t ]
    else lit c ∷ behind

abbrev length : List ℕ → ℕ
length [] = 0
length (_ ∷ s) = suc (length s)

unfoldable pub tokens : String → List Token
unfolding tokens_from
tokens pattern = let p = codes pattern in tokens_from (length p) p

unfoldable pub accepts : Token → ℕ → Bool
accepts star c = true
accepts one c = true
accepts (lit d) c = c == d
accepts (class negated set) c =
    let found = any (λ span. leb span.low c && leb c span.high) set in
    if negated then not found else found

-- `rest` matches some end of the text.
unfoldable pub at_some_end : (List ℕ → Bool) → List ℕ → Bool
at_some_end rest [] = rest []
at_some_end rest (c ∷ s) = rest (c ∷ s) || at_some_end rest s

unfoldable pub match : List Token → List ℕ → Bool
unfolding accepts at_some_end
match [] [] = true
match [] (_ ∷ _) = false
match (star ∷ ts) s = at_some_end (match ts) s
match (t ∷ ts) [] = false
match (t ∷ ts) (c ∷ s) = accepts t c && match ts s

unfoldable pub fnmatchcase : (path pattern : String) → Bool
unfolding tokens match
fnmatchcase path pattern = match (tokens pattern) (codes path)
