-- ===== src/Queue/Job/Rows.antt =====
-- The table of jobs under updates that keep the primary key and the idempotency key.
use Prim.Native.String.{String}
use text.Mathlib.Text.{◌==◌ as str_eq}
use text.Mathlib.TextEquality.{eq_iff}
use mathlib.Core.Option
use mathlib.Core.Option.{some-injective}
use deployguardai.Prelude.{
  ◌≡◌, ◌≢◌, refl, sym, ◌∙◌, ap, subst, false, Option, none, some, [], ◌∷◌, map, inl, inr, arith,
  if◌then◌else◌, All, All-weaken, All-both, Bool-cases,
}
use deployguardai.Queue.Job.{BackgroundJob, Table, find, find_key, modify}

abbrev pub KeepsKeys : (BackgroundJob → BackgroundJob) → Type 0
KeepsKeys g = (j : BackgroundJob) → ((g j).id ≡ j.id) × ((g j).idempotency_key ≡ j.idempotency_key)

-- No two rows share the primary key.
abbrev pub IsUnique : Table → Type 0
IsUnique [] = Unit
IsUnique (j ∷ t) = (find j.id t ≡ none) × IsUnique t

abbrev pub IsFreeKey : Option String → Table → Type 0
IsFreeKey none t = Unit
IsFreeKey (some k) t = find_key k t ≡ none

-- No two rows share an idempotency key.
abbrev pub HasUniqueKeys : Table → Type 0
HasUniqueKeys [] = Unit
HasUniqueKeys (j ∷ t) = IsFreeKey j.idempotency_key t × HasUniqueKeys t

pub find-id : (i : String) (t : Table) {j : BackgroundJob} → find i t ≡ some j → j.id ≡ i
unfolding find
find-id i [] h = cc
find-id i (x ∷ t) {j} h = elim (Bool-cases (str_eq x.id i)) [
  | inl same ↦ ground (arith, eq_iff x.id i)
  | inr other ↦ find-id i t (rw other at h)
]

pub find-All {ℓ} :
    (P : BackgroundJob → Type ℓ) (i : String) (t : Table) {j : BackgroundJob}
    → All P t
    → find i t ≡ some j
    → P j
unfolding find
find-All P i [] a h = cc
find-All P i (x ∷ t) {j} a h = elim (Bool-cases (str_eq x.id i)) [
  | inl same ↦ subst P (some-injective _ _ (rw same at h)) a.0
  | inr other ↦ find-All P i t a.1 (rw other at h)
]

-- The update of one row, as a change of any row.
abbrev pub where_id : String → (BackgroundJob → BackgroundJob) → BackgroundJob → BackgroundJob
where_id i f j = if str_eq j.id i then f j else j

pub modify-eq-map :
    (i : String) (f : BackgroundJob → BackgroundJob) (t : Table)
    → modify i f t ≡ map (where_id i f) t
unfolding modify
modify-eq-map i f [] = refl
modify-eq-map i f (j ∷ t) = rw (modify-eq-map i f t)

module _ (g : BackgroundJob → BackgroundJob) (keeps : KeepsKeys g) where
  pub find-map : (i : String) (t : Table) → find i (map g t) ≡ Option.map g (find i t)
  unfolding find
  find-map i [] = refl
  find-map i (j ∷ t) = ground (arith, (keeps j).0, find-map i t)

  pub find_key-map : (k : String) (t : Table) → find_key k (map g t) ≡ Option.map g (find_key k t)
  unfolding find_key
  find_key-map k [] = refl
  find_key-map k (j ∷ t) = ground (arith, (keeps j).1, find_key-map k t)

  pub IsUnique-map : (t : Table) → IsUnique t → IsUnique (map g t)
  IsUnique-map [] u = tt
  IsUnique-map (j ∷ t) (free, u) =
      (rw ((keeps j).0) (find-map j.id t ∙ ap (Option.map g) free), IsUnique-map t u)

  IsFreeKey-map : (k : Option String) (t : Table) → IsFreeKey k t → IsFreeKey k (map g t)
  IsFreeKey-map none t h = tt
  IsFreeKey-map (some k) t h = find_key-map k t ∙ ap (Option.map g) h

  pub HasUniqueKeys-map : (t : Table) → HasUniqueKeys t → HasUniqueKeys (map g t)
  HasUniqueKeys-map [] u = tt
  HasUniqueKeys-map (j ∷ t) (free, u) =
      (rw ((keeps j).1) (IsFreeKey-map j.idempotency_key t free), HasUniqueKeys-map t u)

pub find-by_id :
    (i : String) (t : Table) {j : BackgroundJob} → find i t ≡ some j → find j.id t ≡ some j
find-by_id i t {j} h = subst (λ k. find k t ≡ some j) (sym (find-id i t h)) h

module _ (i : String) (f : BackgroundJob → BackgroundJob) (keeps : KeepsKeys f) where
  pub KeepsKeys-at : KeepsKeys (where_id i f)
  KeepsKeys-at j = ground (arith, keeps j)

  pub IsUnique-modify : (t : Table) → IsUnique t → IsUnique (modify i f t)
  IsUnique-modify t u = rw modify-eq-map (IsUnique-map _ KeepsKeys-at t u)

  pub HasUniqueKeys-modify : (t : Table) → HasUniqueKeys t → HasUniqueKeys (modify i f t)
  HasUniqueKeys-modify t u = rw modify-eq-map (HasUniqueKeys-map _ KeepsKeys-at t u)

  pub find-modify_self :
      (t : Table) {j : BackgroundJob} → find i t ≡ some j → find i (modify i f t) ≡ some (f j)
  find-modify_self t {j} h =
      rw (modify-eq-map, find-map (where_id i f) KeepsKeys-at, h)
        (ground (arith, find-id i t h, eq_iff j.id i))

  pub find-modify_ne : (k : String) (t : Table) → k ≢ i → find k (modify i f t) ≡ find k t
  unfolding find modify
  find-modify_ne k [] ne = refl
  find-modify_ne k (j ∷ t) ne =
      ground (arith, keeps j, eq_iff j.id i, eq_iff j.id k, find-modify_ne k t)

pub modify-absent :
    (i : String) (f : BackgroundJob → BackgroundJob) (t : Table)
    → find i t ≡ none
    → modify i f t ≡ t
unfolding find modify
modify-absent i f [] h = refl
modify-absent i f (j ∷ t) h = ground (arith, modify-absent i f t)

-- With unique ids an update changes the one row that `find` shows.
pub All-modify {ℓ} :
    (P : BackgroundJob → Type ℓ) (i : String) (f : BackgroundJob → BackgroundJob) (t : Table)
    → IsUnique t
    → {j : BackgroundJob} → find i t ≡ some j
    → All P t
    → P (f j)
    → All P (modify i f t)
unfolding find modify
All-modify P i f [] u h a p = tt
All-modify P i f (x ∷ t) (free, u) {j} h (px, a) p = elim (Bool-cases (str_eq x.id i)) [
  | inl same ↦
      let e : find i t ≡ none = rw ((eq_iff x.id i).0 same) at free in
      rw (same, modify-absent i f t e)
        (subst (λ y. P (f y)) (sym (some-injective _ _ (rw same at h))) p, a)
  | inr other ↦ rw other (px, All-modify P i f t u (rw other at h) a p)
]

find-none-All : (i : String) (t : Table) → find i t ≡ none → All (λ x. str_eq x.id i ≡ false) t
unfolding find
find-none-All i [] h = tt
find-none-All i (x ∷ t) h = elim (Bool-cases (str_eq x.id i)) [
  | inl same ↦ cc (rw same at h)
  | inr other ↦ (other, find-none-All i t (rw other at h))
]

-- With unique ids every row is the one that its id finds.
pub find-own : (t : Table) → IsUnique t → All (λ x. find x.id t ≡ some x) t
unfolding find
find-own [] u = tt
find-own (y ∷ t) (free, u) = (
  rw ((eq_iff y.id y.id).1 refl) refl,
  All-weaken _ _ t (λ x (other, own). ground (arith, eq_iff y.id x.id, eq_iff x.id y.id))
      (All-both _ _ t (find-none-All y.id t free) (find-own t u)),
)
