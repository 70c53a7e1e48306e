-- ===== src/Queue/Job/Append.antt =====
-- A row at the end of the table of jobs.
use Prim.Native.String.{String}
use text.Mathlib.Text.{◌==◌ as str_eq}
use text.Mathlib.TextEquality.{eq_iff}
use deployguardai.Prelude.{
  ◌≡◌, ◌≢◌, refl, sym, Bool, false, Option, none, some, [], ◌∷◌, ◌++◌, inl, inr, arith,
  if◌then◌else◌, Option-cases, any,
}
use deployguardai.Queue.Job.{BackgroundJob, Table, find, find_key, has_key}
use deployguardai.Queue.Job.Rows.{IsUnique, IsFreeKey, HasUniqueKeys}

module _ (j : BackgroundJob) where
  pub find-append :
      (i : String) (t : Table) {row : BackgroundJob}
      → find i t ≡ some row
      → find i (t ++ j ∷ []) ≡ some row
  unfolding find
  find-append i [] h = cc
  find-append i (x ∷ t) {row} h = ground (arith, find-append i t {row = row})

  pub find_key-append_some :
      (k : String) (t : Table) {row : BackgroundJob}
      → find_key k t ≡ some row
      → find_key k (t ++ j ∷ []) ≡ some row
  unfolding find_key
  find_key-append_some k [] h = cc
  find_key-append_some k (x ∷ t) {row} h = ground (arith, find_key-append_some k t {row = row})

  pub find_key-append_none :
      (k : String) (t : Table)
      → find_key k t ≡ none
      → find_key k (t ++ j ∷ []) ≡ (if has_key k j then some j else none)
  unfolding find_key
  find_key-append_none k [] h = refl
  find_key-append_none k (x ∷ t) h = ground (arith, find_key-append_none k t)

  find-append_none :
      (i : String) (t : Table) → find i t ≡ none → i ≢ j.id → find i (t ++ j ∷ []) ≡ none
  unfolding find
  find-append_none i [] h ne = ground (arith, eq_iff j.id i)
  find-append_none i (x ∷ t) h ne = ground (arith, find-append_none i t)

  -- No row of the table has the new row's id.
  abbrev pub is_taken : Table → Bool
  is_taken t = any (λ row. str_eq row.id j.id) t

  pub IsUnique-append : (t : Table) → is_taken t ≡ false → IsUnique t → IsUnique (t ++ j ∷ [])
  unfolding find
  IsUnique-append [] h u = (refl, tt)
  IsUnique-append (x ∷ t) h (free, u) = (
    find-append_none x.id t free (ground (arith, eq_iff x.id j.id)),
    IsUnique-append t (ground arith) u,
  )

  has_key-false : (k : String) → j.idempotency_key ≢ some k → has_key k j ≡ false
  unfolding has_key
  has_key-false k ne = elim (Option-cases j.idempotency_key) [
    | inl e ↦ rw (e, has_key) refl
    | inr (k', e) ↦ rw (e, has_key) (ground (arith, eq_iff k' k))
  ]

  IsFreeKey-append :
      (k : Option String) (t : Table)
      → IsFreeKey k t
      → (k ≡ j.idempotency_key → k ≡ none)
      → IsFreeKey k (t ++ j ∷ [])
  IsFreeKey-append none t h ne = tt
  IsFreeKey-append (some k) t h ne =
      rw (find_key-append_none k t h, has_key-false k (λ e. cc (ne (sym e)))) refl

  pub IsFreeKey-tail :
      (k : Option String) (x : BackgroundJob) (t : Table) → IsFreeKey k (x ∷ t) → IsFreeKey k t
  unfolding find_key
  IsFreeKey-tail none x t h = tt
  IsFreeKey-tail (some k) x t h = ground arith

  own_key_taken :
      (k : Option String) (x : BackgroundJob) (t : Table)
      → IsFreeKey k (x ∷ t)
      → x.idempotency_key ≡ k
      → k ≡ none
  unfolding find_key has_key
  own_key_taken none x t h e = refl
  own_key_taken (some k) x t h e = ground (arith, eq_iff k k)

  pub HasUniqueKeys-append :
      (t : Table) → IsFreeKey j.idempotency_key t → HasUniqueKeys t → HasUniqueKeys (t ++ j ∷ [])
  HasUniqueKeys-append [] f u = (f, tt)
  HasUniqueKeys-append (x ∷ t) f (free, u) =
      let f' = IsFreeKey-tail j.idempotency_key x t f in
      (
        IsFreeKey-append x.idempotency_key t free
            (λ e. rw e (own_key_taken j.idempotency_key x t f e)),
        HasUniqueKeys-append t f' u,
      )
