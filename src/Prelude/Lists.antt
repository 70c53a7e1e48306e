-- ===== src/Prelude/Lists.antt =====
-- Lists measured by native numbers, Python's `any` and `all`, and predicates on every element.
use Prim.Native.Nat.{ℕ, zero, suc, ◌+◌}
use mathlib.Core.Path.{◌≡◌, refl, sym, subst}
use mathlib.Core.Option.{Option, none, some, some-injective}
use mathlib.Core.Logic.{inl, inr}
use mathlib.Core.Bool.{Bool, true, false, ◌&&◌, ◌||◌}
use mathlib.Core.List.{List, [], ◌∷◌, ◌++◌, map}
use native.Mathlib.Omega.{arith}
use deployguardai.Prelude.Tests.{if◌then◌else◌, Bool-cases, is_some}

module _ {ℓ} {A : Type ℓ} where
  abbrev pub length : List A → ℕ
  length [] = 0
  length (x ∷ xs) = suc (length xs)

  abbrev pub take : ℕ → List A → List A
  take zero xs = []
  take (suc n) [] = []
  take (suc n) (x ∷ xs) = x ∷ take n xs

  -- Python's `any(p(x) for x in xs)` and `all(p(x) for x in xs)`.
  abbrev pub any : (A → Bool) → List A → Bool
  any p [] = false
  any p (x ∷ xs) = p x || any p xs

  abbrev pub all : (A → Bool) → List A → Bool
  all p [] = true
  all p (x ∷ xs) = p x && all p xs

  -- `[x for x in xs if p(x)]`
  abbrev pub select : (A → Bool) → List A → List A
  select p [] = []
  select p (x ∷ xs) = if p x then x ∷ select p xs else select p xs

  -- `not xs`
  abbrev pub is_empty : List A → Bool
  is_empty [] = true
  is_empty (_ ∷ _) = false

  pub length-append : (xs ys : List A) → length (xs ++ ys) ≡ length xs + length ys
  length-append [] ys = omega arith
  length-append (x ∷ xs) ys = omega (arith, length-append xs ys)

module _ {ℓ κ} {A : Type ℓ} (P : A → Type κ) where
  -- `P` holds of every element.
  abbrev pub All : List A → Type κ
  All [] = Unit
  All (x ∷ xs) = P x × All xs

  pub All-append : (xs ys : List A) → All xs → All ys → All (xs ++ ys)
  All-append [] ys _ k = k
  All-append (x ∷ xs) ys (p, h) k = (p, All-append xs ys h k)

  pub All-map_self : (f : A → A) (xs : List A) → ((x : A) → P x → P (f x)) → All xs → All (map f xs)
  All-map_self f [] keep _ = tt
  All-map_self f (x ∷ xs) keep (p, h) = (keep x p, All-map_self f xs keep h)

  pub All-select : (p : A → Bool) (xs : List A) → All xs → All (select p xs)
  All-select p [] _ = tt
  All-select p (x ∷ xs) (h, a) = elim (Bool-cases (p x)) [
    | inl e ↦ rw e (h, All-select p xs a)
    | inr e ↦ rw e (All-select p xs a)
  ]

-- Every selected element passes the test.
pub select-All {ℓ} : {A : Type ℓ} (p : A → Bool) (xs : List A) → All (λ x. p x ≡ true) (select p xs)
select-All p [] = tt
select-All p (x ∷ xs) = elim (Bool-cases (p x)) [
  | inl e ↦ rw e (e, select-All p xs)
  | inr e ↦ rw e (select-All p xs)
]

pub All-weaken {ℓ κ μ} :
    {A : Type ℓ} (P : A → Type κ) (Q : A → Type μ) (xs : List A)
    → ((x : A) → P x → Q x)
    → All P xs
    → All Q xs
All-weaken P Q [] f _ = tt
All-weaken P Q (x ∷ xs) f (p, h) = (f x p, All-weaken P Q xs f h)

pub All-both {ℓ κ μ} :
    {A : Type ℓ} (P : A → Type κ) (Q : A → Type μ) (xs : List A)
    → All P xs
    → All Q xs
    → All (λ x. P x × Q x) xs
All-both P Q [] _ _ = tt
All-both P Q (x ∷ xs) (p, h) (q, k) = ((p, q), All-both P Q xs h k)

pub All-⊥ {ℓ} : {A : Type ℓ} (xs : List A) → All (λ _. ⊥) xs → xs ≡ []
All-⊥ [] h = refl
All-⊥ (x ∷ xs) h = absurd h.0

module _ {ℓ} {A : Type ℓ} where
  -- The first element that passes the test, as a query for one row gives it.
  unfoldable pub first : (A → Bool) → List A → Option A
  first p [] = none
  first p (x ∷ xs) = if p x then some x else first p xs

  -- The elements that pass the test are changed in place.
  unfoldable pub update_where : (A → Bool) → (A → A) → List A → List A
  update_where p f [] = []
  update_where p f (x ∷ xs) = (if p x then f x else x) ∷ update_where p f xs

  pub first-passes : (p : A → Bool) (xs : List A) {x : A} → first p xs ≡ some x → p x ≡ true
  unfolding first
  first-passes p [] h = cc
  first-passes p (y ∷ ys) h = elim (Bool-cases (p y)) [
    | inl e ↦ subst (λ z. p z ≡ true) (some-injective _ _ (rw e at h)) e
    | inr e ↦ first-passes p ys (rw e at h)
  ]

  -- A change that a query does not see leaves the row that the query finds in its place.
  pub first-update_where_if :
      (q p : A → Bool) (f : A → A) (xs : List A)
      → ((x : A) → p x ≡ true → q (f x) ≡ q x)
      → {x : A} → first q xs ≡ some x
      → first q (update_where p f xs) ≡ some (if p x then f x else x)
  unfolding first update_where
  first-update_where_if q p f [] keep h = cc
  first-update_where_if q p f (y ∷ ys) keep {x} h = elim (Bool-cases (q y)) [
    | inl here ↦
        let e : y ≡ x = some-injective _ _ (rw here at h) in
        elim (Bool-cases (p y)) [
          | inl changed ↦
              let k = keep y changed in
              rw (changed, k, here)
                (subst (λ z. some (f y) ≡ some (if p z then f z else z)) e (rw changed refl))
          | inr same ↦
              rw (same, here) (subst (λ z. some y ≡ some (if p z then f z else z)) e (rw same refl))
        ]
    | inr later ↦
        let rest = first-update_where_if q p f ys keep (rw later at h) in
        elim (Bool-cases (p y)) [
          | inl changed ↦ (let k = keep y changed in rw (changed, k, later) rest)
          | inr same ↦ rw (same, later) rest
        ]
  ]

  pub first-update_where :
      (q p : A → Bool) (f : A → A) (xs : List A)
      → ((x : A) → q (f x) ≡ q x)
      → {x : A} → first q xs ≡ some x
      → first q (update_where p f xs) ≡ some (if p x then f x else x)
  first-update_where q p f xs keep h = first-update_where_if q p f xs (λ x _. keep x) h

  pub All-update_where {κ} :
      (P : A → Type κ) (p : A → Bool) (f : A → A) (xs : List A)
      → ((x : A) → P x → P (f x))
      → All P xs
      → All P (update_where p f xs)
  unfolding update_where
  All-update_where P p f [] keep h = tt
  All-update_where P p f (x ∷ xs) keep (h, hs) = elim (Bool-cases (p x)) [
    | inl e ↦ rw e (keep x h, All-update_where P p f xs keep hs)
    | inr e ↦ rw e (h, All-update_where P p f xs keep hs)
  ]

  pub All-first {κ} :
      (P : A → Type κ) (p : A → Bool) (xs : List A) {x : A} → All P xs → first p xs ≡ some x → P x
  unfolding first
  All-first P p [] a h = cc
  All-first P p (y ∷ ys) (a, as') h = elim (Bool-cases (p y)) [
    | inl e ↦ subst P (some-injective _ _ (rw e at h)) a
    | inr e ↦ All-first P p ys as' (rw e at h)
  ]

pub first-append {ℓ} :
    {A : Type ℓ} (p : A → Bool) (xs ys : List A)
    → is_some (first p xs) ≡ true
    → is_some (first p (xs ++ ys)) ≡ true
unfolding first
first-append p [] ys h = cc
first-append p (x ∷ xs) ys h = ground (arith, first-append p xs ys)

-- What is appended is found where nothing was.
pub first-snoc {ℓ} :
    {A : Type ℓ} (p : A → Bool) (xs : List A) (y : A)
    → p y ≡ true
    → is_some (first p xs) ≡ false
    → first p (xs ++ y ∷ []) ≡ some y
unfolding first
first-snoc p [] y h free = rw h refl
first-snoc p (x ∷ xs) y h free = ground (arith, first-snoc p xs y h)

pub is_some-update_where {ℓ} :
    {A : Type ℓ} (q p : A → Bool) (f : A → A) (xs : List A)
    → ((x : A) → q (f x) ≡ q x)
    → is_some (first q xs) ≡ true
    → is_some (first q (update_where p f xs)) ≡ true
unfolding first update_where
is_some-update_where q p f [] keep h = cc
is_some-update_where q p f (x ∷ xs) keep h =
    ground (arith, keep x, is_some-update_where q p f xs keep)

-- What a query finds is found by any other query that it passes.
pub first-witness {ℓ} :
    {A : Type ℓ} (p q : A → Bool) (xs : List A) {x : A}
    → first p xs ≡ some x
    → q x ≡ true
    → is_some (first q xs) ≡ true
unfolding first
first-witness p q [] h e = cc
first-witness p q (y ∷ ys) {x} h e = elim (Bool-cases (q y)) [
  | inl here ↦ rw here refl
  | inr away ↦ elim (Bool-cases (p y)) [
    | inl hit ↦
        let same : y ≡ x = some-injective _ _ (rw hit at h) in
        let h' : q y ≡ true = subst (λ z. q z ≡ true) (sym same) e in cc
    | inr miss ↦ rw away (first-witness p q ys (rw miss at h) e)
  ]
]

pub is_some-snoc {ℓ} :
    {A : Type ℓ} (p : A → Bool) (xs : List A) (y : A)
    → p y ≡ true
    → is_some (first p (xs ++ y ∷ [])) ≡ true
unfolding first
is_some-snoc p [] y h = rw h refl
is_some-snoc p (x ∷ xs) y h = ground (arith, is_some-snoc p xs y h)
