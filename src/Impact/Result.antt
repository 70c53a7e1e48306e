-- ===== src/Impact/Result.antt =====
-- The result of `calculate_blast_radius` (backend/app/engines.py). The rounded product of floats
-- behind an impact score is an argument.
use Prim.Native.String.{String}
use text.Mathlib.Text.{◌==◌ as str_eq}
use mathlib.Core.List.{reverse}
use mathlib.Core.Option
use deployguardai.Prelude.{
  ℕ, suc, Bool, false, not, ◌&&◌, Option, none, some, List, map, ltb, ◌==◌, if◌then◌else◌, first,
  select, or_else,
}
use deployguardai.Prelude.Sort.{sort}
use deployguardai.Prelude.Texts.{str_leb}
use deployguardai.Impact.Graph.{Node, Edge, Mark, find_mark, known_ids, rounds, start}

pub record ImpactNode : Type 0 where
  pub node : Node
  pub impact_score : ℕ
  pub hop_distance : ℕ
  -- the services in the evidence id
  pub evidence : String × String

pub record BlastRadius : Type 0 where
  pub nodes : List ImpactNode
  pub edges : List Edge

-- What is outside: `service_id.replace("-", " ").title()`, and the score of a service that is not
-- changed, from its marks.
pub record Scoring : Type 0 where
  pub title : String → String
  pub damped : Node → (hops confidence : ℕ) → ℕ

-- `nodes_by_id[node_id]`: the last node with the id, or the one made for a changed service.
unfoldable pub node_of : Scoring → List Node → (node_id : String) → Node
node_of f nodes v = or_else (first (λ (n : Node). str_eq n.id v) (reverse nodes)) record {
  id = v;
  label = f.title v;
  kind = "service";
  team = "Unassigned";
  tier = "tier-3";
  health = "unknown";
}

-- `sorted(distance, key=lambda item: (distance[item], item))`
abbrev pub mark_leb : Mark → Mark → Bool
mark_leb m n = if not (m.hops == n.hops) then ltb m.hops n.hops else str_leb m.id n.id

unfoldable pub impact_node : Scoring → List Node → Mark → ImpactNode
impact_node f nodes m =
    let node = node_of f nodes m.id in
    record {
      node = node;
      impact_score = if m.hops == 0 then 100 else f.damped node m.hops m.confidence;
      hop_distance = m.hops;
      evidence = (m.origin, m.id);
    }

-- The edge leads from a service that is reached to one that is one hop further.
unfoldable pub is_result_edge : List Mark → Edge → Bool
is_result_edge marks e = elim (find_mark e.source marks) [
  | none ↦ false
  | some m ↦ elim (find_mark e.target marks) [
    | none ↦ false
    | some n ↦ e.active && n.hops == suc m.hops
  ]
]

abbrev pub ends_leb : Edge → Edge → Bool
ends_leb e f =
    if not (str_eq e.source f.source) then str_leb e.source f.source else str_leb e.target f.target

unfoldable pub blast_radius_of : Scoring → List Node → List Edge → List Mark → BlastRadius
blast_radius_of f nodes edges marks = record {
  nodes = map (impact_node f nodes) (sort mark_leb marks);
  edges = sort ends_leb (select (is_result_edge marks) edges);
}

unfoldable pub calculate_blast_radius :
    (fuel : ℕ) (mul : ℕ → ℕ → ℕ)
    → Scoring
    → List Node
    → List Edge
    → (changed_services : List String) (max_hops : ℕ) → Option BlastRadius
calculate_blast_radius fuel mul f nodes edges changed max_hops =
    let s = start changed in
    Option.map (blast_radius_of f nodes edges)
      (rounds mul fuel (known_ids nodes changed) edges max_hops s.marks s.queue)
