-- ===== src/Planner/Fit.antt =====
-- What a plan that may be run is, and what the checks of the planner say of it.
use pearl_ai.Planner.Steps.{Surroundings}
use pearl_ai.Planner.Calls.{
  Signature, validate_calls, validate_tool_call, without, keys, required_params,
}
use pearl_ai.Planner.Order.{InOrder}
use pearl_ai.Plan.Graph.{is_annotated}
use pearl_ai.Plan.Validator.Dependencies.{
  Validated, validate_plan, accepted, judged, validate_dependencies,
}
use pearl_ai.Plan.Validator.Reads.{destroys, reads}
use pearl_ai.Plan.Validator.Writes.{writes}
use pearl_ai.Plan.Validator.{plan_errors}
use pearl_ai.Plan.{ToolCall}
use pearl_ai.Tools.{Tool, has_tool}
use pearl_ai.Base.{
  String, true, false, List, [], ◌∷◌, ◌++◌, ◌≤◌, Option, none, some, str_eq, eq_iff, any, All,
  length, ◌≡◌, ◌≢◌, ◌⊎◌, inl, inr, refl, sym, ◌∙◌, ap, arith, Option-cases, Bool-cases, is_empty,
  if◌then◌else◌, if_true, is_empty-nil,
}

-- The call is the sentinel, or one of a tool that is registered, with no argument that the tool does not
-- declare and every argument that it needs.
abbrev pub Callable : List Tool → (String → Signature) → ToolCall → Type 0
Callable tools signature_of call =
    (call.tool_name ≡ "none")
    ⊎ ((has_tool call.tool_name tools ≡ true)
        × (without (keys call.kwargs) (signature_of call.tool_name).allowed ≡ [])
        × (without (required_params (signature_of call.tool_name).parameters) (keys call.kwargs)
            ≡ []))

-- A plan that can be run from its first step to its last.
pub record Executable (env : Surroundings) (steps : List ToolCall) : Type 0 where
  pub few : length steps ≤ 25
  pub ordered : InOrder [] steps
  pub guarded :
      (front back : List ToolCall) (step : ToolCall)
      → steps ≡ front ++ step ∷ back
      → destroys step ≡ true
      → any reads front ≡ true
  pub written_once :
      (p : String) (front mid back : List ToolCall) (s t : ToolCall)
      → p ≢ ""
      → steps ≡ front ++ s ∷ (mid ++ t ∷ back)
      → writes p s ≡ true
      → writes p t ≢ true
  pub callable : All (Callable env.tools env.signature_of) steps

module _ (tools : List Tool) (signature_of : String → Signature) where
  validate_tool_call-Callable :
      (call : ToolCall)
      → validate_tool_call tools signature_of call ≡ none
      → Callable tools signature_of call
  unfolding validate_tool_call
  validate_tool_call-Callable call h =
      let unexpected = without (keys call.kwargs) (signature_of call.tool_name).allowed in
      let missing =
        without (required_params (signature_of call.tool_name).parameters) (keys call.kwargs) in
      elim (Bool-cases (str_eq call.tool_name "none")) [
        | inl b ↦ inl ((eq_iff call.tool_name "none").0 b)
        | inr b ↦ inr (
          ground (arith, b, h),
          is_empty-nil unexpected (ground (arith, b, h)),
          is_empty-nil missing (ground (arith, b, h)),
        )
      ]

  pub validate_calls-Callable :
      (calls : List ToolCall)
      → validate_calls tools signature_of calls ≡ none
      → All (Callable tools signature_of) calls
  unfolding validate_calls
  validate_calls-Callable [] h = tt
  validate_calls-Callable (c ∷ cs) h =
      elim (Option-cases (validate_tool_call tools signature_of c)) [
        | inl e ↦ (
          validate_tool_call-Callable c e,
          validate_calls-Callable cs (rw (e, validate_calls) at h),
        )
        | inr (x, e) ↦ let g : some x ≡ none = rw (e, validate_calls) at h in cc g
      ]

judged-accepted : (o : Option (List _)) → judged o ≡ some accepted → o ≡ some []
judged-accepted none h = cc h
judged-accepted (some []) h = refl
judged-accepted (some (e ∷ es)) h = cc h

module _ (suffix : String → String) (exts : List String) (steps : List ToolCall) where
  -- What `validate_plan` found when it returns.
  pub validate_plan-accepted :
      validate_plan suffix exts steps ≡ some accepted
      → (steps ≢ [])
        × (plan_errors suffix exts steps ≡ [])
        × (any is_annotated steps ≡ true → validate_dependencies steps ≡ some [])
  unfolding validate_plan
  validate_plan-accepted h = elim (Bool-cases (is_empty steps)) [
    | inl b ↦ let g : some Validated.empty_plan ≡ some accepted = rw (b, validate_plan) at h in cc g
    | inr b ↦ elim (Bool-cases (is_empty (plan_errors suffix exts steps))) [
      | inr c ↦
          let g : some (Validated.rejected (plan_errors suffix exts steps)) ≡ some accepted =
            rw (b, c, validate_plan) at h in
          cc g
      | inl c ↦ (
        λ e. (let g : true ≡ false = ap is_empty (sym e) ∙ b in cc g),
        is_empty-nil _ c,
        λ a.
            let g : (if any is_annotated steps
                  then judged (validate_dependencies steps)
                  else some accepted)
                ≡ some accepted =
              rw (b, c, validate_plan) at h in
            judged-accepted (validate_dependencies steps)
              (sym (if_true (any is_annotated steps) _ (some accepted) a) ∙ g),
      )
    ]
  ]
