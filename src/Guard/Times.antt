-- ===== src/Guard/Times.antt =====
-- The times of a bucket: which of them lie in the window.
use deployguardai.Prelude.{
  ℕ, ◌≡◌, ◌≤◌, refl, sym, ◌∙◌, ap, true, false, List, [], ◌∷◌, ◌++◌, arith, inl, inr, select,
  Bool-cases, All, All-append, All-weaken,
}
use deployguardai.Guard.Limiter.{is_recent, drop_expired, ends_recent}

-- The times of a list that lie in the window.
abbrev pub recent : (window now : ℕ) → List ℕ → List ℕ
recent window now times = select (is_recent window now) times

abbrev pub IsAscending : List ℕ → Type 0
IsAscending [] = Unit
IsAscending (x ∷ xs) = All (λ y. x ≤ y) xs × IsAscending xs

IsAscending-snoc :
    (xs : List ℕ) (n : ℕ) → All (λ y. y ≤ n) xs → IsAscending xs → IsAscending (xs ++ n ∷ [])
IsAscending-snoc [] n past a = (tt, tt)
IsAscending-snoc (x ∷ xs) n (p, past) (below, a) =
    (All-append (λ y. x ≤ y) xs (n ∷ []) below (p, tt), IsAscending-snoc xs n past a)

module _ (window now : ℕ) where
  recent-All :
      (x : ℕ) (xs : List ℕ)
      → is_recent window now x ≡ true
      → All (λ y. x ≤ y) xs
      → recent window now xs ≡ xs
  recent-All x [] r h = refl
  recent-All x (y ∷ ys) r (le, h) =
      let e : is_recent window now y ≡ true = ground arith in
      rw e (ap (λ zs. y ∷ zs) (recent-All x ys r h))

  -- Popping from the front leaves what lies in the window.
  pub drop_expired-recent :
      (xs : List ℕ) → IsAscending xs → drop_expired window now xs ≡ recent window now xs
  unfolding drop_expired
  drop_expired-recent [] a = refl
  drop_expired-recent (x ∷ xs) (below, a) = elim (Bool-cases (is_recent window now x)) [
    | inl fresh ↦ rw fresh (ap (λ zs. x ∷ zs) (sym (recent-All x xs fresh below)))
    | inr old ↦ rw old (drop_expired-recent xs a)
  ]

  -- A bucket whose last time is out of the window holds none in it.
  pub ends_recent-none :
      (xs : List ℕ) → IsAscending xs → ends_recent window now xs ≡ false → recent window now xs ≡ []
  unfolding ends_recent
  ends_recent-none [] a h = refl
  ends_recent-none (x ∷ []) a h = rw h refl
  ends_recent-none (x ∷ y ∷ xs) ((le, below), a) h = ground (arith, ends_recent-none (y ∷ xs) a h)

  pub recent-append :
      (xs ys : List ℕ) → recent window now (xs ++ ys) ≡ recent window now xs ++ recent window now ys
  recent-append [] ys = refl
  recent-append (x ∷ xs) ys = ground (arith, recent-append xs ys)

  pub recent-later :
      (later : ℕ) (xs : List ℕ)
      → now ≤ later
      → recent window later (recent window now xs) ≡ recent window later xs
  recent-later later [] le = refl
  recent-later later (x ∷ xs) le = ground (arith, recent-later later xs le)

  IsAscending-drop_expired :
      (xs : List ℕ) → IsAscending xs → IsAscending (drop_expired window now xs)
  unfolding drop_expired
  IsAscending-drop_expired [] a = tt
  IsAscending-drop_expired (x ∷ xs) (below, a) = elim (Bool-cases (is_recent window now x)) [
    | inl fresh ↦ rw fresh (below, a)
    | inr old ↦ rw old (IsAscending-drop_expired xs a)
  ]

  past-drop_expired :
      (m : ℕ) (xs : List ℕ) → All (λ y. y ≤ m) xs → All (λ y. y ≤ m) (drop_expired window now xs)
  unfolding drop_expired
  past-drop_expired m [] h = tt
  past-drop_expired m (x ∷ xs) (p, h) = elim (Bool-cases (is_recent window now x)) [
    | inl fresh ↦ rw fresh (p, h)
    | inr old ↦ rw old (past-drop_expired m xs h)
  ]

-- At the time `now` a bucket stands for the times that were let through.
pub record Tracks (window now : ℕ) (bucket times : List ℕ) : Type 0 where
  pub ascending : IsAscending bucket
  pub past : All (λ y. y ≤ now) bucket
  pub same : recent window now bucket ≡ recent window now times

module _ (window now : ℕ) (bucket times : List ℕ) (t : Tracks window now bucket times) where
  pub Tracks-later : (later : ℕ) → now ≤ later → Tracks window later bucket times
  Tracks-later later le = record {
    ascending = t.ascending;
    past = All-weaken _ _ bucket (λ y h. omega (arith, h, le)) t.past;
    same =
        sym (recent-later window now later bucket le)
        ∙ (ap (recent window later) t.same ∙ recent-later window now later times le);
  }

  pub Tracks-drop_expired : Tracks window now (drop_expired window now bucket) times
  Tracks-drop_expired = record {
    ascending = IsAscending-drop_expired window now bucket t.ascending;
    past = past-drop_expired window now now bucket t.past;
    same =
        ap (recent window now) (drop_expired-recent window now bucket t.ascending)
        ∙ (recent-later window now now bucket (omega arith) ∙ t.same);
  }

  pub Tracks-append : Tracks window now (bucket ++ now ∷ []) (times ++ now ∷ [])
  Tracks-append = record {
    ascending = IsAscending-snoc bucket now t.past t.ascending;
    past = All-append _ bucket (now ∷ []) t.past (omega arith, tt);
    same =
        recent-append window now bucket (now ∷ [])
        ∙ (ap (λ xs. xs ++ recent window now (now ∷ [])) t.same
            ∙ sym (recent-append window now times (now ∷ [])));
  }

  pub Tracks-none : ends_recent window now bucket ≡ false → Tracks window now [] times
  Tracks-none h = record {
    ascending = tt;
    past = tt;
    same = sym (ends_recent-none window now bucket t.ascending h) ∙ t.same;
  }
