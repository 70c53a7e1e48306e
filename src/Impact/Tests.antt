-- ===== src/Impact/Tests.antt =====
-- The theorems on the blast radius at a sample graph.
use Prim.Native.String.{String}
use deployguardai.Prelude.{ℕ, ◌≡◌, ◌≤◌, refl, some, List, [], ◌∷◌, min, arith, first}
use deployguardai.Prelude.Sort.{sort, insert}
use deployguardai.Impact.Graph.{
  find_mark, known_ids, start, rounds, visit, relax, relax_all, offer, put_mark, is_better,
  outgoing, sorted_set, distinct_ids,
}
use deployguardai.Impact.Result.{BlastRadius, calculate_blast_radius}
use deployguardai.Impact.Rules.{is_linked}
use deployguardai.Impact.Reached.{Walk, at_start, hop, found-Walk}
use deployguardai.Impact.Ends.{work, calculate_blast_radius_ends}
use deployguardai.Impact.Hops.{Near, Walk-Near}
use deployguardai.Impact.Samples.{
  sample_nodes, sample_edges, sample_marks, sample_scoring, reached_at,
}

abbrev ids : List String
ids = known_ids sample_nodes ("a" ∷ [])

abbrev sample_fuel : ℕ
sample_fuel = work 4 ids (start ("a" ∷ []))

calculate_blast_radius_ends_example :
    (r : BlastRadius) × (calculate_blast_radius sample_fuel min sample_scoring sample_nodes
        sample_edges
        ("a" ∷ [])
        4
      ≡ some r)
calculate_blast_radius_ends_example =
    calculate_blast_radius_ends min sample_scoring sample_nodes sample_edges ("a" ∷ []) 4
      sample_fuel (λ a b h k. omega (arith, h, k)) (omega arith, (omega arith, (omega arith, tt)))
      (omega arith)

search_runs :
    rounds min 9 ids sample_edges 4 (start ("a" ∷ [])).marks (start ("a" ∷ [])).queue
    ≡ some sample_marks
unfolding rounds visit relax relax_all offer put_mark is_better outgoing sorted_set distinct_ids
    start known_ids first sort insert
search_runs = refl

marked_c : find_mark "c" sample_marks ≡ some (reached_at "c" 2)
unfolding first
marked_c = refl

found-Walk_example : Walk ("a" ∷ []) ids sample_edges "a" 2 "c" × (2 ≤ 4)
found-Walk_example =
    found-Walk min ("a" ∷ []) ids sample_edges 4 9 sample_marks "c" (reached_at "c" 2) search_runs
      marked_c

-- a to b to c
two_hops : Walk ("a" ∷ []) ids sample_edges "a" 2 "c"
unfolding is_linked known_ids
two_hops = hop "a" 1 "b" "c" (hop "a" 0 "a" "b" (at_start "a" refl) refl refl) refl refl

Walk-Near_example : Near "c" 2 sample_marks
Walk-Near_example =
    Walk-Near min ("a" ∷ []) ids sample_edges 4 9 sample_marks "a" 2 "c" search_runs two_hops
      (omega arith)
