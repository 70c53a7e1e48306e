-- ===== src/Queue/Payload/Accepted.antt =====
-- What `_validate_payload` lets through, against the keys and the leaves of a value.
use Prim.Native.String.{String}
use deployguardai.Prelude.{
  ℕ, ◌+◌, ◌≡◌, ◌↔◌, Bool, true, false, ◌&&◌, not, [], ◌∷◌, ◌++◌, returns, arith,
}
use deployguardai.Queue.Payload.{
  Value, null, boolean, number, text, items, mapping, opaque, Items, nil, cons, Entries, end, entry,
  Trail, key, index, is_sensitive, dumps, dumps_items, dumps_entries, validate_payload,
  validate_items, validate_entries,
}

-- Every key at every depth satisfies `p`, and no leaf is opaque.
unfoldable mutual
  pub is_clean : (String → Bool) → Value → Bool
  is_clean p null = true
  is_clean p (boolean _) = true
  is_clean p (number _) = true
  is_clean p (text _) = true
  is_clean p (items vs) = clean_items p vs
  is_clean p (mapping es) = clean_entries p es
  is_clean p opaque = false

  pub clean_items : (String → Bool) → Items → Bool
  clean_items p nil = true
  clean_items p (cons v vs) = is_clean p v && clean_items p vs

  pub clean_entries : (String → Bool) → Entries → Bool
  clean_entries p end = true
  clean_entries p (entry k v es) = p k && (is_clean p v && clean_entries p es)

abbrev pub is_safe_key : String → Bool
is_safe_key k = not (is_sensitive k)

-- A clean value is dumped.
mutual
  unfolding is_clean dumps

  clean-dumps : (v : Value) → is_clean is_safe_key v ≡ true → dumps v ≡ true
  clean-dumps null h = h
  clean-dumps (boolean _) h = h
  clean-dumps (number _) h = h
  clean-dumps (text _) h = h
  clean-dumps (items vs) h = clean-dumps_items vs h
  clean-dumps (mapping es) h = clean-dumps_entries es h
  clean-dumps opaque h = h

  clean-dumps_items : (vs : Items) → clean_items is_safe_key vs ≡ true → dumps_items vs ≡ true
  clean-dumps_items nil h = h
  clean-dumps_items (cons v vs) h = ground (arith, clean-dumps v, clean-dumps_items vs)

  clean-dumps_entries :
      (es : Entries) → clean_entries is_safe_key es ≡ true → dumps_entries es ≡ true
  clean-dumps_entries end h = h
  clean-dumps_entries (entry k v es) h = ground (arith, clean-dumps v, clean-dumps_entries es)

mutual
  unfolding is_clean validate_payload

  accepts :
      (p : Trail) (v : Value) → is_clean is_safe_key v ≡ true → validate_payload p v ≡ returns tt
  accepts p (items vs) h = ground (arith, accepts_items p 0 vs, clean-dumps (items vs))
  accepts p (mapping es) h = ground (arith, accepts_entries p es, clean-dumps (mapping es))
  accepts p v h = ground (arith, clean-dumps v)

  accepts_items :
      (p : Trail) (i : ℕ) (vs : Items)
      → clean_items is_safe_key vs ≡ true
      → validate_items p i vs ≡ returns tt
  accepts_items p i nil h = ground arith
  accepts_items p i (cons v vs) h =
      ground (arith, accepts (p ++ index i ∷ []) v, accepts_items p (i + 1) vs)

  accepts_entries :
      (p : Trail) (es : Entries)
      → clean_entries is_safe_key es ≡ true
      → validate_entries p es ≡ returns tt
  accepts_entries p end h = ground arith
  accepts_entries p (entry k v es) h =
      ground (arith, accepts (p ++ key k ∷ []) v, accepts_entries p es)

mutual
  unfolding is_clean validate_payload dumps

  accepted :
      (p : Trail) (v : Value) → validate_payload p v ≡ returns tt → is_clean is_safe_key v ≡ true
  accepted p (items vs) h = ground (arith, accepted_items p 0 vs)
  accepted p (mapping es) h = ground (arith, accepted_entries p es)
  accepted p v h = ground arith

  accepted_items :
      (p : Trail) (i : ℕ) (vs : Items)
      → validate_items p i vs ≡ returns tt
      → clean_items is_safe_key vs ≡ true
  accepted_items p i nil h = ground arith
  accepted_items p i (cons v vs) h =
      ground (arith, accepted (p ++ index i ∷ []) v, accepted_items p (i + 1) vs)

  accepted_entries :
      (p : Trail) (es : Entries)
      → validate_entries p es ≡ returns tt
      → clean_entries is_safe_key es ≡ true
  accepted_entries p end h = ground arith
  accepted_entries p (entry k v es) h =
      ground (arith, accepted (p ++ key k ∷ []) v, accepted_entries p es)

-- The validator returns exactly for the values in which no key, at any depth, looks like a
-- credential and no leaf is refused by `json.dumps`.
pub validate_payload_iff :
    (path : Trail) (v : Value)
    → (validate_payload path v ≡ returns tt) ↔ (is_clean is_safe_key v ≡ true)
validate_payload_iff path v = (accepted path v, accepts path v)
