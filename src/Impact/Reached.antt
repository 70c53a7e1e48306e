-- ===== src/Impact/Reached.antt =====
-- The marks of the search of `calculate_blast_radius` (backend/app/engines.py), and walks from the
-- changed services.
use Prim.Native.String.{String}
use text.Mathlib.TextEquality.{eq_iff}
use deployguardai.Prelude.{
  ℕ, suc, ◌≡◌, ◌≤◌, refl, sym, ◌∙◌, subst, true, some, List, [], ◌∷◌, map, arith, any, first-passes,
  All, All-weaken, All-first,
}
use deployguardai.Impact.Graph.{
  Edge, Mark, Search, find_mark, has_mark_id, is_id, is_known, candidate, visit, rounds, outgoing,
  start_mark, sorted_set, start,
}
use deployguardai.Impact.Marks.{All-put_mark, any-sorted_set}
use deployguardai.Impact.Rules.{
  is_linked, outgoing-links, offer_rule, relax_all_rule, visit_rule, rounds_rule,
}

-- From a changed service along active edges to known services, in so many hops.
pub data Walk (changed ids : List String) (edges : List Edge) : String → ℕ → String → Type 0 where
  at_start : (v : String) → any (is_id v) changed ≡ true → Walk changed ids edges v 0 v
  hop :
      (o : String) (n : ℕ) (v w : String)
      → Walk changed ids edges o n v
      → is_linked edges v w ≡ true
      → is_known ids w ≡ true
      → Walk changed ids edges o (suc n) w

module _ (mul : ℕ → ℕ → ℕ) (changed ids : List String) (edges : List Edge) (max_hops : ℕ) where
  -- The walk that a mark stands for.
  abbrev pub IsReached : Mark → Type 0
  IsReached m = Walk changed ids edges m.origin m.hops m.id × (m.hops ≤ max_hops)

  found-IsReached :
      (v : String) (marks : List Mark) (m : Mark)
      → All IsReached marks
      → find_mark v marks ≡ some m
      → Walk changed ids edges m.origin m.hops v × (m.hops ≤ max_hops)
  found-IsReached v marks m a h =
      let e : m.id ≡ v = (eq_iff m.id v).0 (first-passes (has_mark_id v) marks h) in
      let (walk, near) = All-first IsReached (has_mark_id v) marks a h in
      (subst (Walk changed ids edges m.origin m.hops) e walk, near)

  visit-IsReached :
      (v : String) (s : Search)
      → All IsReached s.marks
      → All IsReached (visit mul ids edges max_hops v s).marks
  visit-IsReached v s a =
      visit_rule mul ids edges max_hops (λ t. All IsReached t.marks) v s a
        (λ m h near.
          let (walk, _) = found-IsReached v s.marks m a h in
          (relax_all_rule mul ids (λ t. All IsReached t.marks) v m (outgoing v edges)
            (All-weaken _ _ (outgoing v edges)
              (λ e linked t p.
                offer_rule mul ids (λ t. All IsReached t.marks) (candidate mul m e) t p
                  (λ known _.
                    All-put_mark IsReached (candidate mul m e) t.marks
                      (hop m.origin m.hops v e.target walk linked known, omega (arith, near)) p))
              (outgoing-links v edges))
            s h a).0)

  start-IsReached :
      (vs : List String)
      → ((v : String) → any (is_id v) vs ≡ true → any (is_id v) changed ≡ true)
      → All IsReached (map start_mark vs)
  start-IsReached [] h = tt
  start-IsReached (v ∷ vs) h = (
    (at_start v (h v (ground (arith, (eq_iff v v).1 refl))), omega arith),
    start-IsReached vs (λ w k. h w (ground (arith, k))),
  )

  -- Where the search ends, a service that is marked is reached from its origin, a changed service,
  -- along active edges to known services in as many hops as are marked, and within the limit.
  pub found-Walk :
      (fuel : ℕ) (marks : List Mark) (v : String) (m : Mark)
      → rounds mul fuel ids edges max_hops (start changed).marks (start changed).queue ≡ some marks
      → find_mark v marks ≡ some m
      → Walk changed ids edges m.origin m.hops v × (m.hops ≤ max_hops)
  unfolding start
  found-Walk fuel marks v m h found =
      found-IsReached v marks m
        (rounds_rule mul ids edges max_hops (λ t. All IsReached t.marks)
          (λ v rest marks a. visit-IsReached v _ a) fuel _ _ h
          (start-IsReached (sorted_set changed) (λ v k. sym (any-sorted_set v changed) ∙ k)))
        found
