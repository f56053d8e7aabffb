-- ===== src/Planner/Wired.antt =====
-- The planner inside the executor: what `run` starts from.
use pearl_ai.Planner.Fit.{Executable}
use pearl_ai.Planner.Sound.{steps_of-FromReply, plan-Executable}
use pearl_ai.Planner.Confidence.{PlanConfidence}
use pearl_ai.Executor.Planning.{retry_plan, opening_plan, malformed}
use pearl_ai.Plan.{ToolCall}
use pearl_ai.Planner.Steps.{
  Surroundings, Reply, PlanOutcome, refused, out_of_fuel, Refusal, ambiguous, no_reply, unreadable,
  invalid, plan, replan,
}
use pearl_ai.Planner.Steps
use pearl_ai.Executor.{Environment, Failure, Planned, plan_raised, Limits}
use pearl_ai.Report.{CompletedCall, ProgressEvent}
use pearl_ai.Python.{Exception, plain, is_instance}
use pearl_ai.Base.{String, ℕ, List, [], ◌∷◌, ◌≡◌, Bool-cases, ap, inl, inr, none, sym, ◌||◌, ◌∙◌}

-- The exception that a refusal is; the wording of its message is a parameter.
unfoldable pub exception_of : (Refusal → String) → Refusal → Exception
exception_of wording (no_reply x) = x
exception_of wording (ambiguous prompt) =
    plain ("AmbiguousRequestError" ∷ "ValueError" ∷ "Exception" ∷ []) (wording (ambiguous prompt))
exception_of wording (unreadable e) =
    plain ("ParseError" ∷ "ValueError" ∷ "Exception" ∷ []) (wording (unreadable e))
exception_of wording (invalid v) =
    plain ("PlanValidationError" ∷ "ValueError" ∷ "Exception" ∷ []) (wording (invalid v))
exception_of wording other = plain ("ValueError" ∷ "Exception" ∷ []) (wording other)

-- What the executor sees of a call of the planner. No call is out of fuel.
unfoldable pub seen : (Refusal → String) → PlanOutcome → Planned
unfolding exception_of
seen wording (PlanOutcome.planned steps c) = Planned.planned steps
seen wording (refused why) = plan_raised (exception_of wording why)
seen wording out_of_fuel = plan_raised (plain [] "")

-- The executor's environment calls this planner: each call sends some prompt to the model and gets some
-- reply, which may depend on the world.
pub record IsWired (env : Environment) (s : Surroundings) : Type 0 where
  pub wording : Refusal → String
  pub generate_json : env.files.World → String → Reply
  pub prompt_of : String → String → String
  pub new : env.files.World → ℕ
  pub plans :
      (prompt context : String) (w : env.files.World)
      → (env.plan prompt context w).0
        ≡ seen wording (Steps.plan s (generate_json w) prompt_of (new w) prompt context)
  pub replan_prompt : String → List CompletedCall → Failure → String
  pub replans :
      (prompt : String) (behind_us : List CompletedCall) (failure : Failure) (n : ℕ)
      (w : env.files.World)
      → (env.replan prompt behind_us failure n w).0
        ≡ seen wording
            (Steps.replan s (generate_json w) replan_prompt (new w) prompt behind_us failure n)

seen-planned :
    (wording : Refusal → String) (o : PlanOutcome) (calls : List ToolCall)
    → seen wording o ≡ Planned.planned calls
    → (c : PlanConfidence) × (o ≡ PlanOutcome.planned calls c)
unfolding seen
seen-planned wording (PlanOutcome.planned steps c) calls h =
    let same : steps ≡ calls = cc h in (c, ap (λ xs. PlanOutcome.planned xs c) same)
seen-planned wording (refused why) calls h = cc h
seen-planned wording out_of_fuel calls h = cc h

module _ (env : Environment) (limits : Limits) (s : Surroundings) (wired : IsWired env s) where
  open wired use {wording, generate_json, prompt_of, new, plans, replan_prompt, replans}

  -- A plan that the executor asks for on the way is fit to run, the opening one as well as a new one.
  pub replan-Executable :
      (prompt : String) (behind_us : List CompletedCall) (failure : Failure) (n : ℕ)
      (w : env.files.World) (calls : List ToolCall)
      → (env.replan prompt behind_us failure n w).0 ≡ Planned.planned calls
      → Executable s calls
  unfolding replan
  replan-Executable prompt behind_us failure n w calls h =
      let (c, e) = seen-planned wording _ calls (sym (replans prompt behind_us failure n w) ∙ h) in
      (steps_of-FromReply s n calls c (new w) _ e).0.executable

  retried-Executable :
      (prompt : String) (events : List ProgressEvent) (w : env.files.World) (answer : Planned)
      (calls : List ToolCall)
      → (answer ≡ Planned.planned calls → Executable s calls)
      → (retry_plan env limits answer prompt events w).0 ≡ Planned.planned calls
      → Executable s calls
  unfolding retry_plan
  retried-Executable prompt events w (Planned.planned found) calls first h = first h
  retried-Executable prompt events w (plan_raised exc) calls first h =
      elim (Bool-cases
        (is_instance exc "LLMCancelled" || is_instance exc "AmbiguousRequestError")) [
          | inl b ↦
              let g : plan_raised exc ≡ Planned.planned calls = rw (b, retry_plan) at h in cc g
          | inr b ↦ replan-Executable prompt [] (malformed exc) 0 w calls (rw (b, retry_plan) at h)
        ]

  -- With this planner in the executor, the loop of a run that plans for itself starts with a plan that is
  -- fit to run: whether the first attempt gave it or the second one, behind a plan that was malformed.
  pub opening_plan-Executable :
      (prompt context : String) (events : List ProgressEvent) (w : env.files.World)
      (calls : List ToolCall)
      → (opening_plan env limits none prompt context events w).0 ≡ Planned.planned calls
      → Executable s calls
  unfolding opening_plan
  opening_plan-Executable prompt context events w calls h =
      let (answer, w') = env.plan prompt context w in
      retried-Executable prompt events (env.plan prompt context w).1 (env.plan prompt context w).0
        calls
        (λ e.
          let (c, f) = seen-planned wording _ calls (sym (plans prompt context w) ∙ e) in
          (plan-Executable s (generate_json w) prompt_of (new w) prompt context calls c f).0)
        h
