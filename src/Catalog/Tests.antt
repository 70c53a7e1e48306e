-- ===== src/Catalog/Tests.antt =====
-- The check of dependencies at two services.
use Prim.Native.String.{String}
use mathlib.Core.Bool.{true≢false}
use deployguardai.Prelude.{◌≡◌, refl, sym, false, List, [], ◌∷◌, returns, raises, first}
use deployguardai.Catalog.Graph.{
  by_visit, service_dependency_cycle, validate_service_dependencies, visit_graph, visit_all,
  visit_node, set_dependencies, graph_of, dependencies_of,
}
use deployguardai.Catalog.Accepted.{Decides, validate_service_dependencies-Decides}
use deployguardai.Workspace.Samples.{ann}
use deployguardai.Workspace.Store.{role_level}
use deployguardai.Workspace.Access.{membership_for}
use deployguardai.Catalog.Services.{create_service, repository_for_workspace}
use deployguardai.Catalog.Kept.{AreAcyclic}
use deployguardai.Catalog.Cycles.{Depends, directly, through}
use deployguardai.Catalog.Sequence.{
  ServiceCall, create, perform_service, perform_services, AllDrawNew, perform_services-AreAcyclic,
}
use deployguardai.Catalog.Samples.{two_services, no_services, created}

cycle_runs :
    validate_service_dependencies "w1" "b" ("a" ∷ []) two_services
    ≡ raises (by_visit service_dependency_cycle)
unfolding validate_service_dependencies visit_graph visit_all visit_node set_dependencies graph_of
    dependencies_of first
cycle_runs = refl

acyclic_runs : validate_service_dependencies "w1" "c" ("a" ∷ "b" ∷ []) two_services ≡ returns tt
unfolding validate_service_dependencies visit_graph visit_all visit_node set_dependencies graph_of
    dependencies_of first
acyclic_runs = refl

validate_service_dependencies-Decides_example :
    Decides "w1" "b"
      ("a" ∷ [])
      two_services
      (validate_service_dependencies "w1" "b" ("a" ∷ []) two_services)
validate_service_dependencies-Decides_example =
    validate_service_dependencies-Decides "w1" "b" ("a" ∷ []) two_services

abbrev calls : List ServiceCall
calls =
    create false 10 "b" ann "w1" (created "billing" []) "r1"
    ∷ create false 11 "a" ann "w1" (created "api" ("b" ∷ [])) "r2"
    ∷ []

calls_draw_new : AllDrawNew (λ t. t) calls no_services
unfolding perform_service create_service membership_for role_level repository_for_workspace
    validate_service_dependencies visit_graph visit_all visit_node set_dependencies graph_of
    dependencies_of first
calls_draw_new = (λ w. refl, (λ w. refl, tt))

no_chain : (v w : String) → Depends [] v w → ⊥
unfolding dependencies_of first
no_chain _ _ (directly v w h) = true≢false (sym h)
no_chain _ _ (through v w x h rest) = true≢false (sym h)

no_services-AreAcyclic : AreAcyclic no_services.services
unfolding graph_of
no_services-AreAcyclic w v c = no_chain v v c

perform_services-AreAcyclic_example :
    AreAcyclic (perform_services (λ t. t) calls no_services).services
perform_services-AreAcyclic_example =
    perform_services-AreAcyclic (λ t. t) calls no_services calls_draw_new no_services-AreAcyclic
