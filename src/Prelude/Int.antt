-- ===== src/Prelude/Int.antt =====
-- Python's integers where the code tests their sign: `negsuc n` is -(n + 1).
use Prim.Native.Nat.{ℕ, suc, ◌+◌, ◌-◌}
use mathlib.Core.Bool.{Bool, true, false}
use deployguardai.Prelude.Tests.{ltb, leb, if◌then◌else◌}

pub data ℤ : Type 0 where
  pos : ℕ → ℤ
  negsuc : ℕ → ℤ

abbrev pub is_negative : ℤ → Bool
is_negative (pos _) = false
is_negative (negsuc _) = true

-- `max(0, n)`
abbrev pub magnitude : ℤ → ℕ
magnitude (pos n) = n
magnitude (negsuc _) = 0

abbrev pub neg_part : ℤ → ℕ
neg_part (pos _) = 0
neg_part (negsuc n) = suc n

-- a - b, as an integer.
abbrev pub sub_ℕ : ℕ → ℕ → ℤ
sub_ℕ a b = if leb b a then pos (a - b) else negsuc (b - a - 1)

infixl 65 ◌+ℤ◌
unfoldable pub ◌+ℤ◌ : ℤ → ℤ → ℤ
a +ℤ b = sub_ℕ (magnitude a + magnitude b) (neg_part a + neg_part b)

abbrev pub ltb_ℤ : ℤ → ℤ → Bool
ltb_ℤ a b = ltb (magnitude a + neg_part b) (magnitude b + neg_part a)
