-- ===== src/Catalog/Graph.antt =====
-- `_validate_service_dependencies` of backend/app/operations_services.py. Of the dictionary `state`,
-- the services with 1 are those on the path of calls of `visit`, those with 2 are `done`.
use Prim.Native.String.{String}
use text.Mathlib.Text.{◌==◌ as str_eq}
use deployguardai.Prelude.{
  ℕ, zero, suc, Bool, not, Option, none, some, List, [], ◌∷◌, map, select, all, first, length,
  Outcome, Done, returns, raises, raise_if, ◌>>=◌, ◌>>◌, if◌then◌else◌,
}
use deployguardai.Prelude.Texts.{contains}

-- A row of `services`.
pub record ServiceRow : Type 0 where
  pub id : String
  pub workspace_id : String
  pub name : String
  pub slug : String
  pub description : String
  pub tier : String
  pub lifecycle : String
  pub owner_team : String
  pub repository_id : Option String
  pub dependencies : List String
  pub runbook_url : Option String
  pub tags : List String
  pub created_at : ℕ
  pub updated_at : ℕ

-- What a visit raises, or that the fuel is used up.
pub data VisitError : Type 0 where
  service_dependency_cycle out_of_fuel : VisitError

pub data DependencyError : Type 0 where
  service_self_dependency invalid_service_dependency : DependencyError
  by_visit : VisitError → DependencyError

-- `dict[str, list[str]]`, in the order of its keys.
abbrev pub DependencyGraph : Type 0
DependencyGraph = List (String × List String)

abbrev pub has_key_id : (service_id : String) → String × List String → Bool
has_key_id v e = str_eq e.0 v

abbrev pub keys : DependencyGraph → List String
keys g = map (λ e. e.0) g

abbrev pub values_of : Option (String × List String) → List String
values_of none = []
values_of (some e) = e.1

-- `graph.get(node_id, [])`
unfoldable pub dependencies_of : DependencyGraph → (node_id : String) → List String
dependencies_of g v = values_of (first (has_key_id v) g)

-- `graph[service_id] = dependencies`
unfoldable pub set_dependencies :
    (service_id : String) (dependencies : List String) → DependencyGraph → DependencyGraph
set_dependencies v ds [] = (v, ds) ∷ []
set_dependencies v ds (e ∷ g) = if str_eq e.0 v then (v, ds) ∷ g else e ∷ set_dependencies v ds g

unfoldable pub graph_of : (workspace_id : String) → List ServiceRow → DependencyGraph
graph_of w rows =
    map (λ (r : ServiceRow). (r.id, r.dependencies))
      (select (λ (r : ServiceRow). str_eq r.workspace_id w) rows)

abbrev pub Visited : Type 0
Visited = Outcome VisitError (List String)

-- `for dependency_id in ...: visit(dependency_id)`
unfoldable pub visit_all :
    (visit : String → List String → Visited) → List String → (done : List String) → Visited
visit_all visit [] done = returns done
visit_all visit (v ∷ vs) done = visit v done >>= λ done'. visit_all visit vs done'

unfoldable pub visit_node :
    (fuel : ℕ)
    → DependencyGraph
    → (path : List String) (node_id : String) (done : List String) → Visited
visit_node zero g path v done = raises out_of_fuel
visit_node (suc n) g path v done =
    let below = visit_all (visit_node n g (v ∷ path)) (dependencies_of g v) done in
    if contains done v
    then returns done
    else if contains path v
    then raises service_dependency_cycle
    else below >>= λ done'. returns (v ∷ done')

-- `for current_id in graph: visit(current_id)`
unfoldable pub visit_graph : (fuel : ℕ) → DependencyGraph → Visited
visit_graph n g = visit_all (visit_node n g []) (keys g) []

-- A path of calls has the services of the graph at most, and one more.
abbrev pub visit_fuel : DependencyGraph → ℕ
visit_fuel g = suc (length g)

abbrev pub visited : Visited → Outcome DependencyError Done
visited (returns _) = returns tt
visited (raises e) = raises (by_visit e)

unfoldable pub validate_service_dependencies :
    (workspace_id service_id : String) (dependencies : List String)
    → List ServiceRow
    → Outcome DependencyError Done
validate_service_dependencies w v ds rows = do
  raise_if (contains ds v) service_self_dependency
  let graph = graph_of w rows
  raise_if (not (all (contains (keys graph)) ds)) invalid_service_dependency
  let graph' = set_dependencies v ds graph
  visited (visit_graph (visit_fuel graph') graph')
