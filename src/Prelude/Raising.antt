-- ===== src/Prelude/Raising.antt =====
-- A computation that returns or raises.
use mathlib.Core.Path.{◌≡◌, refl}
use mathlib.Core.Logic.{◌⊎◌, inl, inr}
use mathlib.Core.Bool.{Bool, true, false}
use native.Mathlib.Omega.{arith}

-- The value of a call that returns nothing.
abbrev pub Done : Type 0
Done = Unit

pub data Outcome {ℓ κ} (E : Type ℓ) (A : Type κ) : Type (ℓ ⊔ κ) where
  returns : A → Outcome E A
  raises : E → Outcome E A

infixl 5 ◌>>=◌ ◌>>◌
abbrev pub ◌>>=◌ {ℓ κ μ} :
    {E : Type ℓ} {A : Type κ} {B : Type μ} → Outcome E A → (A → Outcome E B) → Outcome E B
returns a >>= f = f a
raises e >>= f = raises e

abbrev pub ◌>>◌ {ℓ κ} : {E : Type ℓ} {B : Type κ} → Outcome E Done → Outcome E B → Outcome E B
m >> k = m >>= λ _. k

-- `if bad: raise e`
abbrev pub raise_if {ℓ} : {E : Type ℓ} → Bool → E → Outcome E Done
raise_if true e = raises e
raise_if false e = returns tt

pub Outcome-cases {ℓ κ} :
    {E : Type ℓ} {A : Type κ} (m : Outcome E A)
    → ((e : E) × (m ≡ raises e)) ⊎ ((a : A) × (m ≡ returns a))
Outcome-cases (returns a) = inr (a, refl)
Outcome-cases (raises e) = inl (e, refl)

-- A sequence that returns has returned from its first part.
pub bind-returns {ℓ κ μ} :
    {E : Type ℓ} {A : Type κ} {B : Type μ} (m : Outcome E A) (f : A → Outcome E B) {b : B}
    → (m >>= f) ≡ returns b
    → (a : A) × (m ≡ returns a) × (f a ≡ returns b)
bind-returns (returns a) f h = (a, refl, h)
bind-returns (raises e) f h = ground arith

pub returns-injective {ℓ κ} :
    {E : Type ℓ} {A : Type κ} {a b : A} → ◌≡◌ {A = Outcome E A} (returns a) (returns b) → a ≡ b
returns-injective h = cc

pub seq-returns {ℓ κ} :
    {E : Type ℓ} {B : Type κ} (m : Outcome E Done) (k : Outcome E B) {b : B}
    → (m >> k) ≡ returns b
    → (m ≡ returns tt) × (k ≡ returns b)
seq-returns m k h = let (_, e, f) = bind-returns m (λ _. k) h in (e, f)

pub raise_if-returns {ℓ} :
    {E : Type ℓ} (b : Bool) (e : E) {d : Done} → raise_if b e ≡ returns d → b ≡ false
raise_if-returns true e h = ground arith
raise_if-returns false e h = refl

pub raises-ne-returns {ℓ κ} :
    {E : Type ℓ} {A : Type κ} {e : E} {a : A} → ◌≡◌ {A = Outcome E A} (raises e) (returns a) → ⊥
raises-ne-returns h = cc
