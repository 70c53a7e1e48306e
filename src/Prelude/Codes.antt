-- ===== src/Prelude/Codes.antt =====
-- Texts as their code points: `str.lower`, `startswith`, `endswith` and `in`.
use Prim.Native.Nat.{ℕ, ◌+◌}
use Prim.Native.Char.{code}
use Prim.Native.String.{String}
use mathlib.Core.Bool.{Bool, true, false, ◌&&◌, ◌||◌}
use mathlib.Core.List.{List, [], ◌∷◌, ◌++◌, reverse}
use deployguardai.Prelude.Tests.{leb, ◌==◌, if◌then◌else◌}

abbrev pub codes : String → List ℕ
codes String.[] = []
codes (String.◌∷◌ c s) = code c ∷ codes s

-- `str.lower` as far as ASCII texts are looked for in the result: besides A to Z, the Kelvin sign
-- and the dotted capital I are the only characters whose lower case holds an ASCII character.
unfoldable pub lower_code : ℕ → List ℕ
lower_code c =
    if leb b'A' c && leb c b'Z'
    then (c + 32) ∷ []
    else if c == 0x212A
    then b'k' ∷ []
    else if c == 0x130
    then b'i' ∷ 0x307 ∷ []
    else c ∷ []

unfoldable pub lower : List ℕ → List ℕ
unfolding lower_code
lower [] = []
lower (c ∷ s) = lower_code c ++ lower s

unfoldable pub starts_with : List ℕ → List ℕ → Bool
starts_with s [] = true
starts_with [] (p ∷ ps) = false
starts_with (c ∷ s) (p ∷ ps) = c == p && starts_with s ps

unfoldable pub ends_with : List ℕ → List ℕ → Bool
unfolding starts_with
ends_with s p = starts_with (reverse s) (reverse p)

-- `p in s`
unfoldable pub holds : List ℕ → List ℕ → Bool
unfolding starts_with
holds [] p = starts_with [] p
holds (c ∷ s) p = starts_with (c ∷ s) p || holds s p
