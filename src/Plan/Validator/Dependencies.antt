-- ===== src/Plan/Validator/Dependencies.antt =====
-- validate_dependencies, and validate_plan as a whole.
pub mod References
use pearl_ai.Plan.Validator.{plan_errors, PlanError}
use pearl_ai.Plan.Graph.{topological_sort, is_annotated, Sorted, cycle, sorted}
use pearl_ai.Plan.{ToolCall}
use pearl_ai.Base.{
  String, lookup, put, Bool, Dict, List, Option, [], any, false, if◌then◌else◌, is_empty, none, not,
  some, str_eq, ℕ, ◌++◌, ◌+◌, ◌∷◌,
}

pub data DependencyError : Type 0 where
  duplicate_step_id : (step : ℕ) → (id : String) → (first : ℕ) → DependencyError
  depends_on_itself : (step : ℕ) → DependencyError
  unknown_step_id : (step : ℕ) → (dep : String) → DependencyError
  dependency_cycle : (ordered total : ℕ) → DependencyError

-- Phase 1: the errors, and the first step of each id.
unfoldable pub collect_ids : ℕ → Dict ℕ → List ToolCall → List DependencyError × Dict ℕ
unfolding lookup put
collect_ids i seen [] = ([], seen)
collect_ids i seen (step ∷ steps) = elim step.step_id [
  | none ↦ collect_ids (i + 1) seen steps
  | some id ↦ elim (lookup id seen) [
    | none ↦ collect_ids (i + 1) (put id i seen) steps
    | some first ↦
        let (errors, ids) = collect_ids (i + 1) seen steps in
        (duplicate_step_id i id first ∷ errors, ids)
  ]
]

-- `dep == step.step_id`
abbrev pub is_own : String → Option String → Bool
is_own dep none = false
is_own dep (some id) = str_eq dep id

-- Phases 2 and 3.
unfoldable pub dependency_errors : Dict ℕ → ℕ → Option String → List String → List DependencyError
unfolding lookup
dependency_errors seen i id [] = []
dependency_errors seen i id (dep ∷ deps) =
    let rest = dependency_errors seen i id deps in
    if is_own dep id
    then depends_on_itself i ∷ rest
    else elim (lookup dep seen) [ none ↦ unknown_step_id i dep ∷ rest | some j ↦ rest ]

unfoldable pub reference_errors : Dict ℕ → ℕ → List ToolCall → List DependencyError
unfolding dependency_errors
reference_errors seen i [] = []
reference_errors seen i (step ∷ steps) =
    dependency_errors seen i step.step_id step.depends_on ++ reference_errors seen (i + 1) steps

-- Phase 4.
unfoldable pub cycle_errors : Option Sorted → Option (List DependencyError)
cycle_errors none = none
cycle_errors (some (sorted steps)) = some []
cycle_errors (some (cycle ordered total)) = some (dependency_cycle ordered total ∷ [])

-- `validate_dependencies`: the errors of the exception, if there are any.
unfoldable pub validate_dependencies : List ToolCall → Option (List DependencyError)
unfolding collect_ids reference_errors cycle_errors topological_sort
validate_dependencies steps =
    let (duplicates, seen) = collect_ids 1 [] steps in
    let errors = duplicates ++ reference_errors seen 1 steps in
    if is_empty errors then cycle_errors (topological_sort steps) else some errors

-- How `validate_plan` ends.
pub data Validated : Type 0 where
  accepted empty_plan : Validated
  rejected : List PlanError → Validated
  bad_dependencies : List DependencyError → Validated

abbrev pub judged : Option (List DependencyError) → Option Validated
judged none = none
judged (some []) = some accepted
judged (some (e ∷ es)) = some (bad_dependencies (e ∷ es))

-- `validate_plan`
unfoldable pub validate_plan : (String → String) → List String → List ToolCall → Option Validated
unfolding plan_errors validate_dependencies is_annotated
validate_plan suffix exts steps =
    if is_empty steps
    then some empty_plan
    else if not (is_empty (plan_errors suffix exts steps))
    then some (rejected (plan_errors suffix exts steps))
    else if any is_annotated steps
    then judged (validate_dependencies steps)
    else some accepted
