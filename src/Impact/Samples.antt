-- ===== src/Impact/Samples.antt =====
-- A service that two others depend on, one behind the other.
use Prim.Native.String.{String}
use deployguardai.Prelude.{ℕ, true, List, [], ◌∷◌}
use deployguardai.Impact.Graph.{Node, Edge, Mark, full_confidence}
use deployguardai.Impact.Result.{Scoring}

abbrev pub service : (id : String) → Node
service v = record {
  id = v;
  label = v;
  kind = "service";
  team = "core";
  tier = "tier-1";
  health = "healthy";
}

abbrev pub sample_nodes : List Node
sample_nodes = service "a" ∷ service "b" ∷ service "c" ∷ []

abbrev pub calls_edge : (source target : String) → Edge
calls_edge v w = record {
  source = v;
  target = w;
  relation = "runtime-dependency";
  confidence = full_confidence;
  active = true;
}

abbrev pub sample_edges : List Edge
sample_edges = calls_edge "a" "b" ∷ calls_edge "b" "c" ∷ calls_edge "c" "a" ∷ []

abbrev pub reached_at : (id : String) (hops : ℕ) → Mark
reached_at v n = record { id = v; hops = n; confidence = full_confidence; origin = "a" }

abbrev pub sample_marks : List Mark
sample_marks = reached_at "a" 0 ∷ reached_at "b" 1 ∷ reached_at "c" 2 ∷ []

abbrev pub sample_scoring : Scoring
sample_scoring = record { title = λ v. v; damped = λ n hops confidence. 50 }
