-- ===== src/Impact/Marks.antt =====
-- Lemmas on the marks of the search of `calculate_blast_radius` (backend/app/engines.py).
use Prim.Native.String.{String}
use text.Mathlib.Text.{◌==◌ as str_eq}
use text.Mathlib.TextEquality.{eq_iff}
use mathlib.Core.Bool.{true≢false}
use deployguardai.Prelude.{
  ◌≡◌, ◌≤◌, refl, sym, ◌∙◌, ap, subst, Bool, true, false, ◌||◌, none, some, List, [], ◌∷◌, ◌++◌,
  map, arith, inl, inr, Bool-cases, if◌then◌else◌, any, first, All,
}
use deployguardai.Prelude.Sort.{insert, sort}
use deployguardai.Impact.Graph.{
  Mark, find_mark, put_mark, is_id, is_better, start_mark, distinct_ids, sorted_set,
}

-- Behind a change of the marks of one service, its own are the new ones, the others stay.
pub find_mark-put_mark :
    (v : String) (m : Mark) (marks : List Mark)
    → find_mark v (put_mark m marks) ≡ (if str_eq m.id v then some m else find_mark v marks)
unfolding put_mark first
find_mark-put_mark v m [] = refl
find_mark-put_mark v m (x ∷ xs) = elim (Bool-cases (str_eq x.id m.id)) [
  | inl own ↦
      let e : x.id ≡ m.id = (eq_iff x.id m.id).0 own in
      rw own (elim (Bool-cases (str_eq m.id v)) [
        | inl here ↦ rw here refl
        | inr away ↦
            (let k : str_eq x.id v ≡ false = ap (λ z. str_eq z v) e ∙ away in rw (away, k) refl)
      ])
  | inr other ↦ rw other (elim (Bool-cases (str_eq x.id v)) [
    | inr away ↦ rw away (find_mark-put_mark v m xs)
    | inl here ↦ elim (Bool-cases (str_eq m.id v)) [
      | inr k ↦ rw (here, k) refl
      | inl k ↦
          let e : x.id ≡ m.id = (eq_iff x.id v).0 here ∙ sym ((eq_iff m.id v).0 k) in
          absurd (true≢false (sym ((eq_iff x.id m.id).1 e) ∙ other))
    ]
  ])
]

pub any-append {ℓ} :
    {A : Type ℓ} (p : A → Bool) (xs ys : List A) → any p (xs ++ ys) ≡ (any p xs || any p ys)
any-append p [] ys = refl
any-append p (x ∷ xs) ys = ground (arith, any-append p xs ys)

-- A sort keeps what is there.
any-insert {ℓ} :
    {A : Type ℓ} (leq : A → A → Bool) (p : A → Bool) (x : A) (ys : List A)
    → any p (insert leq x ys) ≡ (p x || any p ys)
unfolding insert
any-insert leq p x [] = refl
any-insert leq p x (y ∷ ys) = ground (arith, any-insert leq p x ys)

pub any-sort {ℓ} :
    {A : Type ℓ} (leq : A → A → Bool) (p : A → Bool) (xs : List A) → any p (sort leq xs) ≡ any p xs
unfolding sort
any-sort leq p [] = refl
any-sort leq p (x ∷ xs) = ground (arith, any-insert leq p x (sort leq xs), any-sort leq p xs)

any-distinct_ids :
    (v : String) (vs : List String) → any (is_id v) (distinct_ids vs) ≡ any (is_id v) vs
unfolding distinct_ids
any-distinct_ids v [] = refl
any-distinct_ids v (x ∷ xs) = elim (Bool-cases (any (is_id x) xs)) [
  | inr new ↦ rw new (ground (arith, any-distinct_ids v xs))
  | inl old ↦ rw old (elim (Bool-cases (str_eq x v)) [
    | inr away ↦ rw away (any-distinct_ids v xs)
    | inl here ↦
        let e : x ≡ v = (eq_iff x v).0 here in
        rw here (any-distinct_ids v xs ∙ subst (λ z. any (is_id z) xs ≡ true) e old)
  ])
]

pub any-sorted_set :
    (v : String) (vs : List String) → any (is_id v) (sorted_set vs) ≡ any (is_id v) vs
unfolding sorted_set
any-sorted_set v vs = any-sort _ (is_id v) (distinct_ids vs) ∙ any-distinct_ids v vs

-- The marks at the start are those of the changed services.
pub find_mark-start :
    (v : String) (vs : List String)
    → find_mark v (map start_mark vs) ≡ (if any (is_id v) vs then some (start_mark v) else none)
unfolding first
find_mark-start v [] = refl
find_mark-start v (x ∷ xs) = elim (Bool-cases (str_eq x v)) [
  | inr away ↦ rw away (find_mark-start v xs)
  | inl here ↦ rw here (ap (λ z. some (start_mark z)) ((eq_iff x v).0 here))
]

-- Every mark of the one is followed by one of the other that is not further.
abbrev pub Improves : (old new : List Mark) → Type 0
Improves old new =
    (v : String) (m : Mark)
    → find_mark v old ≡ some m
    → (m' : Mark) × (find_mark v new ≡ some m') × (m'.hops ≤ m.hops)

better-hops : (c m : Mark) → is_better c (some m) ≡ true → c.hops ≤ m.hops
unfolding is_better
better-hops c m h = ground arith

pub put_mark-Improves :
    (c : Mark) (marks : List Mark)
    → is_better c (find_mark c.id marks) ≡ true
    → Improves marks (put_mark c marks)
put_mark-Improves c marks b v m h = elim (Bool-cases (str_eq c.id v)) [
  | inr away ↦ (m, find_mark-put_mark v c marks ∙ rw away h, omega arith)
  | inl here ↦
      let e : c.id ≡ v = (eq_iff c.id v).0 here in
      let own = subst (λ z. is_better c (find_mark z marks) ≡ true) e b in
      (c, find_mark-put_mark v c marks ∙ rw here refl, better-hops c m (rw h at own))
]

pub All-put_mark {κ} :
    (P : Mark → Type κ) (m : Mark) (marks : List Mark)
    → P m
    → All P marks
    → All P (put_mark m marks)
unfolding put_mark
All-put_mark P m [] p _ = (p, tt)
All-put_mark P m (x ∷ xs) p (q, h) = elim (Bool-cases (str_eq x.id m.id)) [
  | inl own ↦ rw own (p, h)
  | inr other ↦ rw other (q, All-put_mark P m xs p h)
]
