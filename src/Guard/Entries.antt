-- ===== src/Guard/Entries.antt =====
-- The buckets of the rate limiter as a dictionary.
use text.Mathlib.TextEquality.{eq_iff}
use deployguardai.Prelude.{
  ℕ, ◌≡◌, refl, sym, ◌∙◌, subst, Bool, true, false, ◌||◌, List, [], ◌∷◌, arith, inl, inr, select,
  if◌then◌else◌, Bool-cases,
}
use deployguardai.Guard.Limiter.{Key, Buckets, same_key, bucket_of, store}

pub same_key_eq : (k q : Key) → same_key k q ≡ true → k ≡ q
unfolding same_key
same_key_eq (c, p) (c', p') h = ground (arith, eq_iff c c', eq_iff p p')

pub same_key_refl : (k : Key) → same_key k k ≡ true
unfolding same_key
same_key_refl (c, p) = rw ((eq_iff c c).1 refl, (eq_iff p p).1 refl) refl

same_key_sym : (k q : Key) → same_key k q ≡ same_key q k
same_key_sym k q = elim (Bool-cases (same_key k q)) [
  | inl same ↦ subst (λ x. same_key k x ≡ same_key x k) (same_key_eq k q same) refl
  | inr other ↦ elim (Bool-cases (same_key q k)) [
    | inr away ↦ other ∙ sym away
    | inl same ↦ subst (λ x. same_key x q ≡ same_key q x) (same_key_eq q k same) refl
  ]
]

-- Some entry has the key.
abbrev pub has : Key → Buckets → Bool
has k [] = false
has k ((k', _) ∷ bs) = same_key k' k || has k bs

-- No two entries have the same key.
abbrev pub AreDistinct : Buckets → Type 0
AreDistinct [] = Unit
AreDistinct ((k, _) ∷ bs) = (has k bs ≡ false) × AreDistinct bs

pub bucket_of-store :
    (k q : Key) (b : List ℕ) (bs : Buckets)
    → bucket_of q (store k b bs) ≡ (if same_key k q then b else bucket_of q bs)
unfolding bucket_of store
bucket_of-store k q b [] = ground arith
bucket_of-store k q b ((k', b') ∷ bs) = elim (Bool-cases (same_key k' k)) [
  | inl same ↦ rw same (rw (same_key_eq k' k same) (ground arith))
  | inr other ↦ rw other (elim (Bool-cases (same_key k' q)) [
    | inr away ↦ rw away (bucket_of-store k q b bs)
    | inl here ↦
        let other' : same_key k q ≡ false =
          subst (λ x. same_key k x ≡ false) (same_key_eq k' q here) (same_key_sym k k' ∙ other) in
        rw (here, other') refl
  ])
]

has-store :
    (k q : Key) (b : List ℕ) (bs : Buckets)
    → has q bs ≡ false
    → same_key k q ≡ false
    → has q (store k b bs) ≡ false
unfolding store
has-store k q b [] h o = ground arith
has-store k q b ((k', b') ∷ bs) h o = ground (arith, has-store k q b bs)

pub AreDistinct-store :
    (k : Key) (b : List ℕ) (bs : Buckets) → AreDistinct bs → AreDistinct (store k b bs)
unfolding store
AreDistinct-store k b [] d = (refl, tt)
AreDistinct-store k b ((k', b') ∷ bs) (free, d) = elim (Bool-cases (same_key k' k)) [
  | inl same ↦ rw same (free, d)
  | inr other ↦
      rw other (has-store k k' b bs free (same_key_sym k k' ∙ other), AreDistinct-store k b bs d)
]

pub has-select :
    (q : Key) (p : Key × List ℕ → Bool) (bs : Buckets)
    → has q bs ≡ false
    → has q (select p bs) ≡ false
has-select q p [] h = refl
has-select q p (e ∷ bs) h = ground (arith, has-select q p bs)

pub AreDistinct-select :
    (p : Key × List ℕ → Bool) (bs : Buckets) → AreDistinct bs → AreDistinct (select p bs)
AreDistinct-select p [] d = tt
AreDistinct-select p (e ∷ bs) (free, d) = elim (Bool-cases (p e)) [
  | inl kept ↦ rw kept (has-select e.0 p bs free, AreDistinct-select p bs d)
  | inr gone ↦ rw gone (AreDistinct-select p bs d)
]

pub bucket_of-missing : (q : Key) (bs : Buckets) → has q bs ≡ false → bucket_of q bs ≡ []
unfolding bucket_of
bucket_of-missing q [] h = refl
bucket_of-missing q (e ∷ bs) h = ground (arith, bucket_of-missing q bs)
