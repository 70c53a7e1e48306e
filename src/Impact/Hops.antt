-- ===== src/Impact/Hops.antt =====
-- Walks within the limit, and what the search of `calculate_blast_radius` (backend/app/engines.py)
-- has marked at its end.
use Prim.Native.String.{String}
use text.Mathlib.Text.{◌==◌ as str_eq}
use text.Mathlib.TextEquality.{eq_iff}
use mathlib.Core.Bool.{true≢false}
use mathlib.Core.Option.{some-injective}
use deployguardai.Prelude.{
  ℕ, suc, ◌≡◌, ◌≤◌, ◌⊎◌, refl, sym, ◌∙◌, ap, subst, true, none, some, List, [], ◌∷◌, arith, inl,
  inr, leb, Bool-cases, Option-cases, if◌then◌else◌, any, All,
}
use deployguardai.Impact.Graph.{
  Edge, Mark, Search, find_mark, put_mark, is_known, is_id, is_better, offer, candidate, relax,
  relax_all, visit, rounds, outgoing, start_mark, start, sorted_set,
}
use deployguardai.Impact.Marks.{
  Improves, put_mark-Improves, find_mark-put_mark, find_mark-start, any-append, any-sorted_set,
}
use deployguardai.Impact.Rules.{
  is_linked, linked-outgoing, taken, offer_rule, offer-source, relax_all_rule, visit_rule,
  rounds_rule,
}
use deployguardai.Impact.Reached.{Walk, at_start, hop}

-- A mark of the service that is not further than `n`.
abbrev pub Near : (v : String) (n : ℕ) → List Mark → Type 0
Near v n marks = (m : Mark) × (find_mark v marks ≡ some m) × (m.hops ≤ n)

Near-Improves :
    (v : String) (n : ℕ) (old new : List Mark) → Improves old new → Near v n old → Near v n new
Near-Improves v n old new better (m, h, k) =
    let (m', h', k') = better v m h in (m', h', omega (arith, k, k'))

none-ne-some {ℓ} : {A : Type ℓ} {a : A} → none ≡ some a → ⊥
none-ne-some h = cc

All-edges : (P : Edge → Type 0) → ((e : Edge) → P e) → (es : List Edge) → All P es
All-edges P f [] = tt
All-edges P f (e ∷ es) = (f e, All-edges P f es)

module _ (mul : ℕ → ℕ → ℕ) (changed ids : List String) (edges : List Edge) (max_hops : ℕ) where
  -- The targets of a service are one hop further at most.
  abbrev IsClosed : String → ℕ → List Mark → Type 0
  IsClosed v n marks =
      (w : String) → is_linked edges v w ≡ true → is_known ids w ≡ true → Near w (suc n) marks

  -- A marked service waits in the queue, is at the limit, or has its targets marked.
  data IsSettled (s : Search) (v : String) (m : Mark) : Type 0 where
    waits : is_known s.queue v ≡ true → IsSettled s v m
    is_last : max_hops ≤ m.hops → IsSettled s v m
    is_done : IsClosed v m.hops s.marks → IsSettled s v m

  -- Every marked service but `u` is settled.
  abbrev AllBut : (u : String) → Search → Type 0
  AllBut u s = (v : String) (m : Mark) → find_mark v s.marks ≡ some m → (v ≡ u) ⊎ IsSettled s v m

  AllBut-taken :
      (u : String) (c : Mark) (s : Search)
      → is_better c (find_mark c.id s.marks) ≡ true
      → AllBut u s
      → AllBut u (taken mul ids c s)
  AllBut-taken u c s b a v m h = elim (Bool-cases (str_eq c.id v)) [
    | inl here ↦ inr (waits (any-append (is_id v) s.queue (c.id ∷ []) ∙ ground (arith, here)))
    | inr away ↦
        let old : find_mark v s.marks ≡ some m =
          subst (λ z. (if z then some c else find_mark v s.marks) ≡ some m) away
            (sym (find_mark-put_mark v c s.marks) ∙ h) in
        elim (a v m old) [
          | inl e ↦ inl e
          | inr (waits k) ↦
              inr (waits (any-append (is_id v) s.queue (c.id ∷ []) ∙ ground (arith, k)))
          | inr (is_last k) ↦ inr (is_last k)
          | inr (is_done k) ↦ inr (
              is_done (λ w l i.
                Near-Improves w (suc m.hops) s.marks (put_mark c s.marks)
                  (put_mark-Improves c s.marks b) (k w l i)))
        ]
  ]

  offer-Near :
      (w : String) (n : ℕ) (c : Mark) (s : Search)
      → Near w n s.marks
      → Near w n (offer ids c s).marks
  offer-Near w n c s p =
      offer_rule mul ids (λ t. Near w n t.marks) c s p
        (λ _ b. Near-Improves w n s.marks (put_mark c s.marks) (put_mark-Improves c s.marks b) p)

  -- An offered service is as near as the offer.
  offer-own :
      (c : Mark) (s : Search) → is_known ids c.id ≡ true → Near c.id c.hops (offer ids c s).marks
  unfolding offer is_better
  offer-own c s k = elim (Bool-cases (is_better c (find_mark c.id s.marks))) [
    | inl b ↦
        rw (offer, k, b)
          (c, find_mark-put_mark c.id c s.marks ∙ rw ((eq_iff c.id c.id).1 refl) refl, omega arith)
    | inr b ↦ elim (Option-cases (find_mark c.id s.marks)) [
      | inl e ↦ absurd (true≢false (rw (e, is_better) at b))
      | inr (m, e) ↦ (let b' = rw e at b in rw (offer, k, b) (m, e, ground arith))
    ]
  ]

  relax_all-Near :
      (w : String) (n : ℕ) (v : String) (m : Mark) (es : List Edge) (s : Search)
      → find_mark v s.marks ≡ some m
      → Near w n s.marks
      → Near w n (relax_all mul ids v es s).marks
  relax_all-Near w n v m es s h p =
      (relax_all_rule mul ids (λ t. Near w n t.marks) v m es
        (All-edges
          (λ e. (t : Search) → Near w n t.marks → Near w n (offer ids (candidate mul m e) t).marks)
          (λ e t. offer-Near w n (candidate mul m e) t) es)
        s h p).0

  -- Behind its visit, the targets of a service are one hop further at most.
  relax_all-closes :
      (w : String) (v : String) (m : Mark) (es : List Edge) (s : Search)
      → find_mark v s.marks ≡ some m
      → any (λ (e : Edge). str_eq e.target w) es ≡ true
      → is_known ids w ≡ true
      → Near w (suc m.hops) (relax_all mul ids v es s).marks
  unfolding relax_all relax
  relax_all-closes w v m [] s h l k = cc
  relax_all-closes w v m (e ∷ es) s h l k =
      let next = offer ids (candidate mul m e) s in
      let same : next ≡ relax mul ids v e s = rw (relax, h) refl in
      let kept = offer-source mul ids v m e s h in
      subst (λ t. Near w (suc m.hops) (relax_all mul ids v es t).marks) same
        (elim (Bool-cases (str_eq e.target w)) [
          | inr away ↦ relax_all-closes w v m es next kept (rw away at l) k
          | inl here ↦
              let t : e.target ≡ w = (eq_iff e.target w).0 here in
              let own =
                offer-own (candidate mul m e) s (subst (λ z. is_known ids z ≡ true) (sym t) k) in
              relax_all-Near w (suc m.hops) v m es next kept
                (subst (λ z. Near z (suc m.hops) next.marks) t own)
        ])

  relax_all-AllBut :
      (v : String) (m : Mark) (es : List Edge) (s : Search)
      → find_mark v s.marks ≡ some m
      → AllBut v s
      → AllBut v (relax_all mul ids v es s)
        × (find_mark v (relax_all mul ids v es s).marks ≡ some m)
  relax_all-AllBut v m es s h a =
      relax_all_rule mul ids (AllBut v) v m es
        (All-edges (λ e. (t : Search) → AllBut v t → AllBut v (offer ids (candidate mul m e) t))
          (λ e t p.
            offer_rule mul ids (AllBut v) (candidate mul m e) t p
              (λ _ b. AllBut-taken v (candidate mul m e) t b p))
          es)
        s h a

  abbrev AllSettled : Search → Type 0
  AllSettled s = (v : String) (m : Mark) → find_mark v s.marks ≡ some m → IsSettled s v m

  settles :
      (v : String) (s : Search)
      → AllBut v s
      → ((m : Mark) → find_mark v s.marks ≡ some m → IsSettled s v m)
      → AllSettled s
  settles v s a own w m h = elim (a w m h) [
    | inr k ↦ k
    | inl e ↦
        subst (λ z. IsSettled s z m) (sym e) (own m (subst (λ z. find_mark z s.marks ≡ some m) e h))
  ]

  visit-AllSettled :
      (v : String) (s : Search) → AllBut v s → AllSettled (visit mul ids edges max_hops v s)
  unfolding visit
  visit-AllSettled v s a = elim (Option-cases (find_mark v s.marks)) [
    | inl e ↦ rw (visit, e) (settles v s a (λ m h. absurd (none-ne-some (sym e ∙ h))))
    | inr (m, e) ↦ elim (Bool-cases (leb max_hops m.hops)) [
      | inl far ↦
          rw (visit, e, far)
            (settles v s a (λ m' h.
              (let k = ap (λ (z : Mark). z.hops) (some-injective _ _ (sym e ∙ h)) in
                is_last (ground (arith, k)))))
      | inr near ↦
          let (a', kept) = relax_all-AllBut v m (outgoing v edges) s e a in
          rw (visit, e, near)
            (settles v (relax_all mul ids v (outgoing v edges) s) a' (λ m' h.
              let k = some-injective _ _ (sym kept ∙ h) in
              is_done (λ w l i.
                subst
                  (λ (z : Mark).
                    Near w (suc z.hops) (relax_all mul ids v (outgoing v edges) s).marks)
                  k
                  (relax_all-closes w v m (outgoing v edges) s e (linked-outgoing v w edges ∙ l)
                    i))))
    ]
  ]

  popped-AllBut :
      (v : String) (rest : List String) (marks : List Mark)
      → AllSettled record { marks = marks; queue = v ∷ rest }
      → AllBut v record { marks = marks; queue = rest }
  popped-AllBut v rest marks a w m h = elim (a w m h) [
    | is_last k ↦ inr (is_last k)
    | is_done k ↦ inr (is_done k)
    | waits k ↦ elim (Bool-cases (str_eq v w)) [
      | inl own ↦ inl (sym ((eq_iff v w).0 own))
      | inr other ↦ inr (waits (rw other at k))
    ]
  ]

  -- The changed services are marked with no hops from the start on.
  abbrev KeepsStart : Search → Type 0
  KeepsStart s = (v : String) → is_known changed v ≡ true → Near v 0 s.marks

  visit-Near :
      (w : String) (n : ℕ) (v : String) (s : Search)
      → Near w n s.marks
      → Near w n (visit mul ids edges max_hops v s).marks
  visit-Near w n v s p =
      visit_rule mul ids edges max_hops (λ t. Near w n t.marks) v s p
        (λ m h _. relax_all-Near w n v m (outgoing v edges) s h p)

  start-AllSettled : AllSettled (start changed) × KeepsStart (start changed)
  unfolding start
  start-AllSettled = (
    (λ v m h. elim (Bool-cases (is_known (sorted_set changed) v)) [
      | inl k ↦ waits k
      | inr k ↦
          (let e = find_mark-start v (sorted_set changed) in
            absurd (none-ne-some (sym (rw k at e) ∙ h)))
    ]),
    (λ v k.
        let e = find_mark-start v (sorted_set changed) in
        let i = any-sorted_set v changed ∙ k in (start_mark v, rw i at e, omega arith)),
  )

  end_state :
      (fuel : ℕ) (marks : List Mark)
      → rounds mul fuel ids edges max_hops (start changed).marks (start changed).queue ≡ some marks
      → AllSettled record { marks = marks; queue = [] }
        × KeepsStart record { marks = marks; queue = [] }
  unfolding start
  end_state fuel marks h =
      rounds_rule mul ids edges max_hops (λ t. AllSettled t × KeepsStart t)
        (λ v rest marks (a, b). (
          visit-AllSettled v record { marks = marks; queue = rest } (popped-AllBut v rest marks a),
          λ w k. visit-Near w 0 v record { marks = marks; queue = rest } (b w k),
        ))
        fuel _ _ h start-AllSettled

  -- Where the search ends, a service that a walk from a changed service reaches within the limit is
  -- marked, and no walk to it is shorter than what is marked.
  pub Walk-Near :
      (fuel : ℕ) (marks : List Mark) (o : String) (n : ℕ) (v : String)
      → rounds mul fuel ids edges max_hops (start changed).marks (start changed).queue ≡ some marks
      → Walk changed ids edges o n v
      → n ≤ max_hops
      → Near v n marks
  Walk-Near fuel marks _ _ _ h (at_start v k) near = (end_state fuel marks h).1 v k
  Walk-Near fuel marks _ _ _ h (hop o n u v walk l k) near =
      let (m, e, le) = Walk-Near fuel marks o n u h walk (omega (arith, near)) in
      elim ((end_state fuel marks h).0 u m e) [
        | waits q ↦ absurd (true≢false (sym q))
        | is_last far ↦ absurd (omega (arith, far, le, near))
        | is_done c ↦ (let (m', e', le') = c v l k in (m', e', omega (arith, le', le)))
      ]
