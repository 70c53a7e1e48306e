-- ===== src/Catalog/Accepted.antt =====
-- The answers of `_validate_service_dependencies` of backend/app/operations_services.py.
use Prim.Native.String.{String}
use mathlib.Core.Bool.{true≢false}
use deployguardai.Prelude.{
  ◌≡◌, refl, sym, ◌∙◌, ap, true, false, List, [], ◌∷◌, all, arith, inl, inr, Outcome, Done, returns,
  raises, length, All-weaken, Bool-cases, Option-cases, first,
}
use deployguardai.Prelude.Texts.{contains}
use deployguardai.Catalog.Graph.{
  ServiceRow, DependencyGraph, DependencyError, by_visit, visited, Visited, service_self_dependency,
  invalid_service_dependency, service_dependency_cycle, out_of_fuel, has_key_id, values_of, keys,
  dependencies_of, set_dependencies, graph_of, visit_node, visit_graph, visit_fuel,
  validate_service_dependencies,
}
use deployguardai.Catalog.Cycles.{
  Depends, visit_node-Visits, visit_all-Visits, ordered-acyclic, directly, through, All-found,
  Loops, visit_node-Loops, visit_all-Loops, All-self,
}
use deployguardai.Catalog.Fuel.{fresh-length, key-contains, visit_node_has_fuel, visit_all_has_fuel}

-- The graph that a request leads to.
abbrev pub requested :
    (workspace_id service_id : String) (dependencies : List String)
    → List ServiceRow
    → DependencyGraph
requested w v ds rows = set_dependencies v ds (graph_of w rows)

-- No service depends on itself, directly or through others.
abbrev pub IsAcyclic : DependencyGraph → Type 0
IsAcyclic g = (v : String) → Depends g v v → ⊥

length-keys : (g : DependencyGraph) → length (keys g) ≡ length g
length-keys [] = refl
length-keys (e ∷ g) = omega (arith, length-keys g)

module _ (g : DependencyGraph) where
  head_has_key :
      (v w : String) → contains (dependencies_of g v) w ≡ true → contains (keys g) v ≡ true
  unfolding dependencies_of
  head_has_key v w h = elim (Option-cases (first (has_key_id v) g)) [
    | inl e ↦ absurd (true≢false (sym h ∙ ap (λ o. contains (values_of o) w) e))
    | inr (x, e) ↦ key-contains v g e
  ]

  Depends-key : (v w : String) → Depends g v w → contains (keys g) v ≡ true
  Depends-key _ _ (directly v w h) = head_has_key v w h
  Depends-key _ _ (through v w x h _) = head_has_key v w h

  graph-IsAcyclic : {done : List String} → visit_graph (visit_fuel g) g ≡ returns done → IsAcyclic g
  unfolding visit_graph
  graph-IsAcyclic {done} h v c =
      let kept =
        visit_all-Visits g (visit_node (visit_fuel g) g []) (visit_node-Visits g (visit_fuel g) [])
          (keys g) [] done tt h in
      ordered-acyclic g done v kept.ordered
        (All-found g (λ x. contains done x ≡ true) (keys g) v kept.there (Depends-key v v c)) c

  graph_loops : visit_graph (visit_fuel g) g ≡ raises service_dependency_cycle → Loops g
  unfolding visit_graph
  graph_loops h =
      visit_all-Loops g (visit_node (visit_fuel g) g []) (keys g) []
        (All-weaken _ _ (keys g) (λ v _ done. visit_node-Loops g (visit_fuel g) [] v done tt)
          (All-self g (keys g)))
        h

  graph_has_fuel : visit_graph (visit_fuel g) g ≡ raises out_of_fuel → ⊥
  unfolding visit_graph
  graph_has_fuel h =
      visit_all_has_fuel g (visit_fuel g) [] (keys g) [] (visit_node_has_fuel g (visit_fuel g) [])
        tt (omega (arith, fresh-length (keys g), length-keys g)) h

-- What the answer to a request says.
pub data Decides (w v : String) (ds : List String) (rows : List ServiceRow)
    : Outcome DependencyError Done → Type 0 where
  is_accepted :
      contains ds v ≡ false
      → all (contains (keys (graph_of w rows))) ds ≡ true
      → IsAcyclic (requested w v ds rows)
      → Decides w v ds rows (returns tt)
  is_own : contains ds v ≡ true → Decides w v ds rows (raises service_self_dependency)
  has_unknown :
      all (contains (keys (graph_of w rows))) ds ≡ false
      → Decides w v ds rows (raises invalid_service_dependency)
  is_cyclic :
      Loops (requested w v ds rows)
      → Decides w v ds rows (raises (by_visit service_dependency_cycle))

visit_graph-Decides :
    (w v : String) (ds : List String) (rows : List ServiceRow) (m : Visited)
    → visit_graph (visit_fuel (requested w v ds rows)) (requested w v ds rows) ≡ m
    → contains ds v ≡ false
    → all (contains (keys (graph_of w rows))) ds ≡ true
    → Decides w v ds rows (visited m)
visit_graph-Decides w v ds rows (returns done) h own known =
    is_accepted own known (graph-IsAcyclic (requested w v ds rows) h)
visit_graph-Decides w v ds rows (raises service_dependency_cycle) h own known =
    is_cyclic (graph_loops (requested w v ds rows) h)
visit_graph-Decides w v ds rows (raises out_of_fuel) h own known =
    absurd (graph_has_fuel (requested w v ds rows) h)

-- The check always comes to an answer, and the answer is right: a request is accepted only where the
-- service is not among its dependencies, all of them are services of the workspace, and no service
-- depends on itself directly or through others in the graph with the request; and where a cycle is
-- reported there is one.
pub validate_service_dependencies-Decides :
    (w v : String) (ds : List String) (rows : List ServiceRow)
    → Decides w v ds rows (validate_service_dependencies w v ds rows)
unfolding validate_service_dependencies
validate_service_dependencies-Decides w v ds rows = elim (Bool-cases (contains ds v)) [
  | inl own ↦ rw (validate_service_dependencies, own) (is_own own)
  | inr other ↦ elim (Bool-cases (all (contains (keys (graph_of w rows))) ds)) [
    | inr unknown ↦ rw (validate_service_dependencies, other, unknown) (has_unknown unknown)
    | inl known ↦
        rw (validate_service_dependencies, other, known)
          (visit_graph-Decides w v ds rows _ refl other known)
  ]
]
