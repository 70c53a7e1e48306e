-- ===== src/Impact/Ends.antt =====
-- A measure of the search of `calculate_blast_radius` (backend/app/engines.py).
use Prim.Native.String.{String}
use text.Mathlib.Text.{◌==◌ as str_eq}
use text.Mathlib.TextEquality.{eq_iff}
use mathlib.Core.Option
use deployguardai.Prelude.{
  ℕ, zero, suc, ◌+◌, ◌-◌, ◌*◌, ◌≡◌, ◌≤◌, ◌<◌, refl, sym, ap, subst, true, Option, none, some, List,
  [], ◌∷◌, map, arith, inl, inr, length, length-append, Bool-cases, if◌then◌else◌, All, All-weaken,
  All-first, All-select, select,
}
use deployguardai.Prelude.Sort.{All-sort}
use deployguardai.Impact.Graph.{
  Node, Edge, Mark, Search, full_confidence, find_mark, has_mark_id, put_mark, is_known, is_better,
  offer, candidate, visit, rounds, outgoing, leaves, edge_leb, start_mark, start, sorted_set,
  known_ids,
}
use deployguardai.Impact.Result.{Scoring, BlastRadius, blast_radius_of, calculate_blast_radius}
use deployguardai.Impact.Marks.{All-put_mark, find_mark-put_mark}
use deployguardai.Impact.Rules.{offer_rule, relax_all_rule, visit_rule}

abbrev span : ℕ
span = suc full_confidence

module _ (max_hops : ℕ) where
  -- How much better the marks of a service can get.
  abbrev room : Option Mark → ℕ
  room none = suc max_hops * span
  room (some m) = m.hops * span + (full_confidence - m.confidence)

  abbrev IsBounded : Mark → Type 0
  IsBounded m = (m.hops ≤ max_hops) × (m.confidence ≤ full_confidence)

  better-room :
      (c : Mark) (old : Option Mark)
      → IsBounded c
      → is_better c old ≡ true
      → room (some c) < room old
  unfolding is_better
  better-room c none (h, k) b = omega (arith, h, k)
  better-room c (some m) (h, k) b = ground (arith, h, k)

  abbrev total : (ids : List String) → List Mark → ℕ
  total [] marks = 0
  total (v ∷ vs) marks = room (find_mark v marks) + total vs marks

  -- A visit lowers this by the service that it takes, and no offer raises it.
  abbrev pub work : (ids : List String) → Search → ℕ
  work ids s = 2 * total ids s.marks + length s.queue

  module _ (c : Mark) (marks : List Mark) (h : IsBounded c)
      (b : is_better c (find_mark c.id marks) ≡ true) where
    -- The room of one service is smaller behind the offer where it is the offer's, else the same.
    room-put_mark :
        (v : String)
        → room (find_mark v (put_mark c marks)) + (if str_eq c.id v then 1 else 0)
          ≤ room (find_mark v marks)
    room-put_mark v =
        let e = find_mark-put_mark v c marks in
        elim (Bool-cases (str_eq c.id v)) [
          | inr away ↦ rw (e, away) (omega arith)
          | inl here ↦
              let same : c.id ≡ v = (eq_iff c.id v).0 here in
              let less =
                better-room c (find_mark v marks) h
                  (subst (λ z. is_better c (find_mark z marks) ≡ true) same b) in
              rw (e, here) (omega (arith, less))
        ]

    total-put_mark_le : (vs : List String) → total vs (put_mark c marks) ≤ total vs marks
    total-put_mark_le [] = omega arith
    total-put_mark_le (v ∷ vs) = omega (arith, room-put_mark v, total-put_mark_le vs)

    total-put_mark :
        (vs : List String) → is_known vs c.id ≡ true → total vs (put_mark c marks) < total vs marks
    total-put_mark [] k = cc
    total-put_mark (v ∷ vs) k = elim (Bool-cases (str_eq v c.id)) [
      | inr away ↦ (let ih = total-put_mark vs (rw away at k) in omega (arith, room-put_mark v, ih))
      | inl here ↦
          let own : str_eq c.id v ≡ true = (eq_iff c.id v).1 (sym ((eq_iff v c.id).0 here)) in
          let less = room-put_mark v in omega (arith, rw own at less, total-put_mark_le vs)
    ]

  module _ (mul : ℕ → ℕ → ℕ) (ids : List String) (edges : List Edge)
      (below : (a b : ℕ) → a ≤ full_confidence → b ≤ full_confidence → mul a b ≤ full_confidence)
      (clamped : All (λ (e : Edge). e.confidence ≤ full_confidence) edges) where
    -- The marks stay in their bounds, and the work within what it was.
    abbrev Within : ℕ → Search → Type 0
    Within n s = All IsBounded s.marks × (work ids s ≤ n)

    offer-Within :
        (n : ℕ) (c : Mark) (s : Search) → IsBounded c → Within n s → Within n (offer ids c s)
    offer-Within n c s h (a, w) =
        offer_rule mul ids (Within n) c s (a, w)
          (λ known better. (
            All-put_mark IsBounded c s.marks h a,
            omega (
              arith,
              w,
              total-put_mark c s.marks h better ids known,
              length-append s.queue (c.id ∷ []),
            ),
          ))

    visit-Within :
        (n : ℕ) (v : String) (s : Search) → Within n s → Within n (visit mul ids edges max_hops v s)
    unfolding outgoing
    visit-Within n v s (a, w) =
        visit_rule mul ids edges max_hops (Within n) v s (a, w)
          (λ m h near.
            let (_, full) = All-first IsBounded (has_mark_id v) s.marks a h in
            (relax_all_rule mul ids (Within n) v m (outgoing v edges)
              (All-weaken _ _ (outgoing v edges)
                (λ e k t p.
                  offer-Within n (candidate mul m e) t
                    (omega (arith, near), below m.confidence e.confidence full k) p)
                (All-sort edge_leb _ (select (leaves v) edges)
                  (All-select _ (leaves v) edges clamped)))
              s h (a, w)).0)

    rounds_returns :
        (n : ℕ) (marks : List Mark) (queue : List String)
        → All IsBounded marks
        → work ids record { marks = marks; queue = queue } ≤ n
        → (result : List Mark) × (rounds mul n ids edges max_hops marks queue ≡ some result)
    unfolding rounds
    rounds_returns n marks [] a w = (marks, refl)
    rounds_returns zero marks (v ∷ rest) a w = absurd (omega (arith, w))
    rounds_returns (suc n) marks (v ∷ rest) a w =
        let s : Search = record { marks = marks; queue = rest } in
        let (a', w') = visit-Within n v s (a, omega (arith, w)) in
        let t = visit mul ids edges max_hops v s in rounds_returns n t.marks t.queue a' w'

    start-IsBounded : (vs : List String) → All IsBounded (map start_mark vs)
    start-IsBounded [] = tt
    start-IsBounded (v ∷ vs) = ((omega arith, omega arith), start-IsBounded vs)

    search_ends :
        (fuel : ℕ) (changed : List String)
        → work ids (start changed) ≤ fuel
        → (result : List Mark) × (rounds mul fuel ids edges max_hops
              (start changed).marks
              (start changed).queue
            ≡ some result)
    unfolding start
    search_ends fuel changed h = rounds_returns fuel _ _ (start-IsBounded (sorted_set changed)) h

-- `calculate_blast_radius` returns: the product of two confidences is a confidence, and those of the
-- edges are, so with as much fuel as the work at the start, or more, there is a result.
pub calculate_blast_radius_ends :
    (mul : ℕ → ℕ → ℕ) (f : Scoring) (nodes : List Node) (edges : List Edge) (changed : List String)
    (max_hops fuel : ℕ)
    → ((a b : ℕ) → a ≤ full_confidence → b ≤ full_confidence → mul a b ≤ full_confidence)
    → All (λ (e : Edge). e.confidence ≤ full_confidence) edges
    → work max_hops (known_ids nodes changed) (start changed) ≤ fuel
    → (r : BlastRadius) × (calculate_blast_radius fuel mul f nodes edges changed max_hops ≡ some r)
unfolding calculate_blast_radius
calculate_blast_radius_ends mul f nodes edges changed max_hops fuel below clamped h =
    let (marks, e) =
      search_ends max_hops mul (known_ids nodes changed) edges below clamped fuel changed h in
    (blast_radius_of f nodes edges marks, ap (Option.map (blast_radius_of f nodes edges)) e)
