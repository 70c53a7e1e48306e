-- ===== src/Prelude/Sort.antt =====
-- Python's `sorted`: a stable sort by an order, as insertion sort.
use mathlib.Core.Logic.{inl, inr}
use mathlib.Core.Path.{◌≡◌}
use mathlib.Core.Bool.{Bool, true, false}
use mathlib.Core.List.{List, [], ◌∷◌, Perm}
use mathlib.Core.List.Perm
use deployguardai.Prelude.Tests.{if◌then◌else◌, Bool-cases}
use deployguardai.Prelude.Lists.{All, All-weaken}

module _ {ℓ} {A : Type ℓ} (leq : A → A → Bool) where
  unfoldable pub insert : A → List A → List A
  insert x [] = x ∷ []
  insert x (y ∷ ys) = if leq x y then x ∷ y ∷ ys else y ∷ insert x ys

  unfoldable pub sort : List A → List A
  unfolding insert
  sort [] = []
  sort (x ∷ xs) = insert x (sort xs)

  pub insert-perm : (x : A) (ys : List A) → Perm (insert x ys) (x ∷ ys)
  unfolding insert
  insert-perm x [] = Perm.refl _
  insert-perm x (y ∷ ys) = elim (Bool-cases (leq x y)) [
    | inl first ↦ rw first (Perm.refl _)
    | inr later ↦ rw later (Perm.trans (Perm.cons y (insert-perm x ys)) (Perm.swap x y ys))
  ]

  pub sort-perm : (xs : List A) → Perm (sort xs) xs
  unfolding sort
  sort-perm [] = Perm.refl _
  sort-perm (x ∷ xs) = Perm.trans (insert-perm x (sort xs)) (Perm.cons x (sort-perm xs))

  module _ {κ} (P : A → Type κ) where
    pub All-insert : (x : A) (ys : List A) → P x → All P ys → All P (insert x ys)
    unfolding insert
    All-insert x [] p h = (p, tt)
    All-insert x (y ∷ ys) p (q, h) = elim (Bool-cases (leq x y)) [
      | inl first ↦ rw first (p, (q, h))
      | inr later ↦ rw later (q, All-insert x ys p h)
    ]

    pub All-sort : (xs : List A) → All P xs → All P (sort xs)
    unfolding sort
    All-sort [] h = tt
    All-sort (x ∷ xs) (p, h) = All-insert x (sort xs) p (All-sort xs h)

    pub All-of_insert : (x : A) (ys : List A) → All P (insert x ys) → P x × All P ys
    unfolding insert
    All-of_insert x [] (p, _) = (p, tt)
    All-of_insert x (y ∷ ys) h = elim (Bool-cases (leq x y)) [
      | inl first ↦ rw first at h
      | inr later ↦ let (q, h') = rw later at h in let (p, a) = All-of_insert x ys h' in (p, (q, a))
    ]

    -- What holds of the sorted elements holds of all.
    pub All-of_sort : (xs : List A) → All P (sort xs) → All P xs
    unfolding sort
    All-of_sort [] h = tt
    All-of_sort (x ∷ xs) h = let (p, a) = All-of_insert x (sort xs) h in (p, All-of_sort xs a)

  -- Each element comes before all that follow.
  abbrev pub IsSorted : List A → Type 0
  IsSorted [] = Unit
  IsSorted (x ∷ xs) = All (λ y. leq x y ≡ true) xs × IsSorted xs

  abbrev pub IsTotal : Type ℓ
  IsTotal = (x y : A) → leq x y ≡ false → leq y x ≡ true

  abbrev pub IsTransitive : Type ℓ
  IsTransitive = (x y z : A) → leq x y ≡ true → leq y z ≡ true → leq x z ≡ true

  module _ (total : IsTotal) (trans : IsTransitive) where
    insert-IsSorted : (x : A) (ys : List A) → IsSorted ys → IsSorted (insert x ys)
    unfolding insert
    insert-IsSorted x [] h = (tt, tt)
    insert-IsSorted x (y ∷ ys) (before, h) = elim (Bool-cases (leq x y)) [
      | inl first ↦
          rw first ((first, All-weaken _ _ ys (λ z le. trans x y z first le) before), (before, h))
      | inr later ↦
          rw later
            (All-insert (λ z. leq y z ≡ true) x ys (total x y later) before, insert-IsSorted x ys h)
    ]

    pub sort-IsSorted : (xs : List A) → IsSorted (sort xs)
    unfolding sort
    sort-IsSorted [] = tt
    sort-IsSorted (x ∷ xs) = insert-IsSorted x (sort xs) (sort-IsSorted xs)
