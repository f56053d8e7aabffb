-- ===== src/Tests/Graphs.antt =====
-- A plan of three steps with dependency annotations.
use pearl_ai.Plan.{ToolCall}
use pearl_ai.Plan.Graph.{
  topological_sort, cycle, sorted, is_annotated, edges_of, index_ids, add_steps, add_dependencies,
  add_edge, ready_from, kahn, release, check_order, pick,
}
use pearl_ai.Plan.Graph.Order.{topological_sort-Ordering, Ordering}
use pearl_ai.Plan.Validator.Dependencies.{
  validate_dependencies, collect_ids, reference_errors, dependency_errors, cycle_errors,
}
use pearl_ai.Plan.Validator.Dependencies.References.{validate_dependencies-References, References}
use pearl_ai.Base.{String, List, Option, [], none, some, refl, ◌∷◌, ◌≡◌, lookup, put}

abbrev call : String → Option String → List String → ToolCall
call name id deps = record {
  object_id = 1;
  tool_name = name;
  args = [];
  kwargs = [];
  step_id = id;
  depends_on = deps;
}

-- The step to write waits for the step to read.
abbrev plan : List ToolCall
plan =
    call "write_file" (some "write") ("read" ∷ [])
    ∷ call "read_file" (some "read") []
    ∷ call "run_tests" none ("read" ∷ "write" ∷ [])
    ∷ []

abbrev loop : List ToolCall
loop = call "a" (some "x") ("y" ∷ []) ∷ call "b" (some "y") ("x" ∷ []) ∷ call "c" none [] ∷ []

plan_sorted :
    topological_sort plan
    ≡ some (
        sorted (
          call "read_file" (some "read") []
          ∷ call "write_file" (some "write") ("read" ∷ [])
          ∷ call "run_tests" none ("read" ∷ "write" ∷ [])
          ∷ []))
unfolding topological_sort is_annotated edges_of index_ids add_steps add_dependencies add_edge
    ready_from kahn release check_order pick lookup put
plan_sorted = refl

loop_cycle : topological_sort loop ≡ some (cycle 1 3)
unfolding topological_sort is_annotated edges_of index_ids add_steps add_dependencies add_edge
    ready_from kahn release check_order pick lookup put
loop_cycle = refl

topological_sort-Ordering_example : Ordering plan (topological_sort plan)
topological_sort-Ordering_example = topological_sort-Ordering plan

plan_accepted : validate_dependencies plan ≡ some []
unfolding validate_dependencies collect_ids reference_errors dependency_errors cycle_errors
    topological_sort is_annotated edges_of index_ids add_steps add_dependencies add_edge ready_from
    kahn release check_order pick lookup put
plan_accepted = refl

validate_dependencies-References_example :
    References plan plan × ((out : List ToolCall) × (topological_sort plan ≡ some (sorted out)))
validate_dependencies-References_example = validate_dependencies-References plan plan_accepted
