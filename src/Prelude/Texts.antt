-- ===== src/Prelude/Texts.antt =====
-- Python's `str` as native text: `len`, `strip`, prefixes by characters, membership.
use Prim.Native.Nat.{ℕ, zero, suc}
use Prim.Native.Char.{Char, code}
use Prim.Native.String.{String, compare}
use Prim.Native.Nat.{Ordering}
use mathlib.Core.Bool.{Bool, true, false, ◌&&◌, ◌||◌}
use mathlib.Core.List.{List}
use text.Mathlib.Text.{◌==◌ as str_eq}
use deployguardai.Prelude.Tests.{leb, ◌==◌, if◌then◌else◌}
use deployguardai.Prelude.Lists.{any}

-- The code points that `str.isspace` accepts, which `str.strip()` removes.
unfoldable pub is_space : ℕ → Bool
is_space c =
    (leb 9 c && leb c 13)
    || (leb 28 c && leb c 32)
    || c == 0x85
    || c == 0xA0
    || c == 0x1680
    || (leb 0x2000 c && leb c 0x200A)
    || c == 0x2028
    || c == 0x2029
    || c == 0x202F
    || c == 0x205F
    || c == 0x3000

unfoldable pub lstrip : String → String
unfolding is_space
lstrip String.[] = String.[]
lstrip (String.◌∷◌ c s) = if is_space (code c) then lstrip s else String.◌∷◌ c s

-- Puts a character back in front of a text that is stripped on the right.
abbrev pub keep_unless_trailing : Char → String → String
keep_unless_trailing c String.[] = if is_space (code c) then String.[] else String.◌∷◌ c String.[]
keep_unless_trailing c (String.◌∷◌ d s) = String.◌∷◌ c (String.◌∷◌ d s)

unfoldable pub rstrip : String → String
unfolding is_space
rstrip String.[] = String.[]
rstrip (String.◌∷◌ c s) = keep_unless_trailing c (rstrip s)

unfoldable pub strip : String → String
unfolding lstrip rstrip
strip s = rstrip (lstrip s)

-- `s[:n]`
unfoldable pub prefix : ℕ → String → String
prefix zero s = String.[]
prefix (suc n) String.[] = String.[]
prefix (suc n) (String.◌∷◌ c s) = String.◌∷◌ c (prefix n s)

-- `s + t`
unfoldable pub str_append : String → String → String
str_append String.[] t = t
str_append (String.◌∷◌ c s) t = String.◌∷◌ c (str_append s t)

-- `not s`
abbrev pub is_blank : String → Bool
is_blank String.[] = true
is_blank (String.◌∷◌ _ _) = false

-- `s in texts`
abbrev pub contains : List String → String → Bool
contains xs s = any (λ x. str_eq s x) xs

-- Python's `a <= b` on texts: by code points.
abbrev pub str_leb : String → String → Bool
str_leb a b = elim (compare a b) [ Ordering.gt ↦ false | _ ↦ true ]
