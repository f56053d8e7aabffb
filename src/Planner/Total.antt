-- ===== src/Planner/Total.antt =====
-- validate_plan ends on every plan.
use pearl_ai.Plan.Validator.{plan_errors}
use pearl_ai.Plan.Graph.{topological_sort, is_annotated, Sorted, cycle, pick, sorted}
use pearl_ai.Plan.Graph.Order.{deadlock, in_order, topological_sort-Ordering, unannotated}
use pearl_ai.Plan.Validator.Dependencies.{
  Validated, validate_plan, accepted, DependencyError, collect_ids, cycle_errors, dependency_cycle,
  judged, reference_errors, validate_dependencies,
}
use pearl_ai.Plan.{ToolCall}
use pearl_ai.Base.{
  String, List, some, ◌≡◌, length, Bool, Bool-cases, Option, [], any, false, if◌then◌else◌, inl,
  inr, is_empty, none, not, refl, true, ◌++◌, ◌∙◌, ◌∷◌, if_false, if_true,
}

topological_sort-some : (steps : List ToolCall) → (o : Sorted) × (topological_sort steps ≡ some o)
topological_sort-some steps = elim (topological_sort-Ordering steps) [
  | unannotated b e ↦ (sorted steps, e)
  | in_order order e c r ↦ (sorted (pick steps order), e)
  | deadlock order e stuck ↦ (cycle (length order) (length steps), e)
]

cycle_errors-some :
    (o : Option Sorted) (x : Sorted)
    → o ≡ some x
    → (es : List DependencyError) × (cycle_errors o ≡ some es)
unfolding cycle_errors
cycle_errors-some none x h = cc h
cycle_errors-some (some (sorted steps)) x h = ([], refl)
cycle_errors-some (some (cycle a b)) x h = (dependency_cycle a b ∷ [], refl)

validate_dependencies-some :
    (steps : List ToolCall) → (es : List DependencyError) × (validate_dependencies steps ≡ some es)
unfolding validate_dependencies
validate_dependencies-some steps =
    let (duplicates, seen) = collect_ids 1 [] steps in
    let errors =
      (collect_ids 1 [] steps).0 ++ reference_errors (collect_ids 1 [] steps).1 1 steps in
    let (x, e) = topological_sort-some steps in
    elim (Bool-cases (is_empty errors)) [
      | inl b ↦
          let (es, f) = cycle_errors-some (topological_sort steps) x e in
          (es, if_true (is_empty errors) _ (some errors) b ∙ f)
      | inr b ↦ (errors, if_false (is_empty errors) _ (some errors) b)
    ]

judged-some :
    (o : Option (List DependencyError)) (es : List DependencyError)
    → o ≡ some es
    → (v : Validated) × (judged o ≡ some v)
judged-some none es h = cc h
judged-some (some []) es h = (accepted, refl)
judged-some (some (x ∷ xs)) es h = (Validated.bad_dependencies (x ∷ xs), refl)

if_some {ℓ} :
    {A : Type ℓ} (b : Bool) (x : A) (o : Option A)
    → (a : A) × (o ≡ some a)
    → (a : A) × ((if b then some x else o) ≡ some a)
if_some true x o h = (x, refl)
if_some false x o h = h

if_both {ℓ} :
    {A : Type ℓ} (b : Bool) (x : A) (o : Option A)
    → (a : A) × (o ≡ some a)
    → (a : A) × ((if b then o else some x) ≡ some a)
if_both true x o h = h
if_both false x o h = (x, refl)

-- The checks of a plan end.
pub validate_plan-some :
    (suffix : String → String) (exts : List String) (steps : List ToolCall)
    → (v : Validated) × (validate_plan suffix exts steps ≡ some v)
unfolding validate_plan
validate_plan-some suffix exts steps =
    let (es, e) = validate_dependencies-some steps in
    if_some (is_empty steps) Validated.empty_plan _ (
      if_some (not (is_empty (plan_errors suffix exts steps)))
        (Validated.rejected (plan_errors suffix exts steps)) _
        (if_both (any is_annotated steps) accepted _
          (judged-some (validate_dependencies steps) es e)))
