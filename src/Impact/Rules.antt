-- ===== src/Impact/Rules.antt =====
-- Rules for an offer, an edge, a visit and the whole search of `calculate_blast_radius`
-- (backend/app/engines.py).
use Prim.Native.String.{String}
use text.Mathlib.Text.{◌==◌ as str_eq}
use text.Mathlib.TextEquality.{eq_iff}
use mathlib.Core.Option.{some-injective}
use deployguardai.Prelude.{
  ℕ, zero, suc, ◌≡◌, ◌<◌, refl, sym, ◌∙◌, subst, Bool, true, ◌&&◌, some, List, [], ◌∷◌, ◌++◌, arith,
  inl, inr, leb, Bool-cases, Option-cases, if◌then◌else◌, any, select, All, All-weaken,
}
use deployguardai.Prelude.Sort.{All-sort}
use deployguardai.Impact.Graph.{
  Edge, Mark, Search, find_mark, put_mark, is_known, is_better, offer, candidate, relax, relax_all,
  visit, rounds, outgoing, leaves, edge_leb,
}
use deployguardai.Impact.Marks.{find_mark-put_mark, any-sort}

-- An active edge leads from `v` to `w`.
unfoldable pub is_linked : List Edge → (v w : String) → Bool
is_linked edges v w = any (λ e. leaves v e && str_eq e.target w) edges

select-links :
    (v : String) (edges : List Edge)
    → All (λ e. is_linked edges v e.target ≡ true) (select (leaves v) edges)
unfolding is_linked
select-links v [] = tt
select-links v (e ∷ es) =
    let rest =
      All-weaken _ (λ f. is_linked (e ∷ es) v f.target ≡ true) (select (leaves v) es)
        (λ f h. ground (arith, h)) (select-links v es) in
    let chosen = select (leaves v) es in
    let Linked : Edge → Type 0 = λ f. is_linked (e ∷ es) v f.target ≡ true in
    elim (Bool-cases (leaves v e)) [
      | inr away ↦ subst (λ b. All Linked (if b then e ∷ chosen else chosen)) (sym away) rest
      | inl here ↦
          let own = (eq_iff e.target e.target).1 refl in
          subst (λ b. All Linked (if b then e ∷ chosen else chosen)) (sym here)
            (rw (here, own) refl, rest)
    ]

pub outgoing-links :
    (v : String) (edges : List Edge)
    → All (λ e. is_linked edges v e.target ≡ true) (outgoing v edges)
unfolding outgoing
outgoing-links v edges = All-sort edge_leb _ (select (leaves v) edges) (select-links v edges)

any-select {ℓ} :
    {A : Type ℓ} (p q : A → Bool) (xs : List A) → any q (select p xs) ≡ any (λ x. p x && q x) xs
any-select p q [] = refl
any-select p q (x ∷ xs) = ground (arith, any-select p q xs)

pub linked-outgoing :
    (v w : String) (edges : List Edge)
    → any (λ (e : Edge). str_eq e.target w) (outgoing v edges) ≡ is_linked edges v w
unfolding outgoing is_linked
linked-outgoing v w edges =
    any-sort edge_leb _ (select (leaves v) edges)
    ∙ any-select (leaves v) (λ e. str_eq e.target w) edges

module _ (mul : ℕ → ℕ → ℕ) (ids : List String) where
  abbrev pub taken : Mark → Search → Search
  taken c s = record { marks = put_mark c s.marks; queue = s.queue ++ c.id ∷ [] }

  pub offer_rule {κ} :
      (P : Search → Type κ) (c : Mark) (s : Search)
      → P s
      → (is_known ids c.id ≡ true → is_better c (find_mark c.id s.marks) ≡ true → P (taken c s))
      → P (offer ids c s)
  unfolding offer
  offer_rule P c s p better = elim (Bool-cases (is_known ids c.id)) [
    | inr k ↦ rw (offer, k) p
    | inl k ↦ elim (Bool-cases (is_better c (find_mark c.id s.marks))) [
      | inr b ↦ rw (offer, k, b) p
      | inl b ↦ rw (offer, k, b) (better k b)
    ]
  ]

  -- No edge improves the marks of its own source.
  pub offer-source :
      (v : String) (m : Mark) (e : Edge) (s : Search)
      → find_mark v s.marks ≡ some m
      → find_mark v (offer ids (candidate mul m e) s).marks ≡ some m
  unfolding is_better
  offer-source v m e s h =
      offer_rule (λ t. find_mark v t.marks ≡ some m) (candidate mul m e) s h
        (λ k b.
          find_mark-put_mark v (candidate mul m e) s.marks ∙ elim (Bool-cases (str_eq e.target v)) [
            | inr away ↦ rw away h
            | inl loop ↦
                let same : e.target ≡ v = (eq_iff e.target v).0 loop in
                let b' =
                  subst (λ z. is_better (candidate mul m e) (find_mark z s.marks) ≡ true) same b in
                absurd (ground (arith, rw h at b'))
          ])

  pub relax_all_rule {κ} :
      (P : Search → Type κ) (v : String) (m : Mark) (es : List Edge)
      → All (λ e. (s : Search) → P s → P (offer ids (candidate mul m e) s)) es
      → (s : Search) → find_mark v s.marks ≡ some m
      → P s
      → P (relax_all mul ids v es s) × (find_mark v (relax_all mul ids v es s).marks ≡ some m)
  unfolding relax_all relax
  relax_all_rule P v m [] keep s h p = (p, h)
  relax_all_rule P v m (e ∷ es) (k, keep) s h p =
      let next = offer ids (candidate mul m e) s in
      let ih = relax_all_rule P v m es keep next (offer-source v m e s h) (k s p) in
      let same : next ≡ relax mul ids v e s = rw (relax, h) refl in
      subst
        (λ t.
          P (relax_all mul ids v es t) × (find_mark v (relax_all mul ids v es t).marks ≡ some m))
        same ih

  module _ (edges : List Edge) (max_hops : ℕ) where
    pub visit_rule {κ} :
        (P : Search → Type κ) (v : String) (s : Search)
        → P s
        → ((m : Mark)
            → find_mark v s.marks ≡ some m
            → m.hops < max_hops
            → P (relax_all mul ids v (outgoing v edges) s))
        → P (visit mul ids edges max_hops v s)
    unfolding visit
    visit_rule P v s p keep = elim (Option-cases (find_mark v s.marks)) [
      | inl e ↦ rw (visit, e) p
      | inr (m, e) ↦ elim (Bool-cases (leb max_hops m.hops)) [
        | inl far ↦ rw (visit, e, far) p
        | inr near ↦ rw (visit, e, near) (keep m e (ground arith))
      ]
    ]

    -- What every visit keeps holds at the end, where the queue is empty.
    pub rounds_rule {κ} :
        (P : Search → Type κ)
        → ((v : String) (rest : List String) (marks : List Mark)
            → P record { marks = marks; queue = v ∷ rest }
            → P (visit mul ids edges max_hops v record { marks = marks; queue = rest }))
        → (fuel : ℕ) (marks : List Mark) (queue : List String) {result : List Mark}
        → rounds mul fuel ids edges max_hops marks queue ≡ some result
        → P record { marks = marks; queue = queue }
        → P record { marks = result; queue = [] }
    unfolding rounds
    rounds_rule P keep fuel marks [] h p =
        subst (λ t. P record { marks = t; queue = [] }) (some-injective _ _ h) p
    rounds_rule P keep zero marks (v ∷ rest) h p = cc
    rounds_rule P keep (suc n) marks (v ∷ rest) h p =
        let s = visit mul ids edges max_hops v record { marks = marks; queue = rest } in
        rounds_rule P keep n s.marks s.queue h (keep v rest marks p)
