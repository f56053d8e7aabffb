-- ===== src/Planner/Sound.antt =====
-- What a plan that the planner hands out is fit for.
use pearl_ai.Planner.Intent.{needs_no_tools, needs_clarification}
use pearl_ai.Planner.Confidence.{score_plan, PlanConfidence}
use pearl_ai.Plan.Parser.Described.{parse_plan-IsPlan_iff, IsPlan}
use pearl_ai.Plan.Validator.Dependencies.References.{validate_dependencies-References}
use pearl_ai.Plan.Parser.{parse_plan, Parsed, failed, parsed}
use pearl_ai.Planner.Steps.{
  Surroundings, Reply, after_parse, after_sort, after_validation, planned, replied, scored,
  steps_of, unavailable, ambiguous, no_tool, plan, refused, tool_names,
}
use pearl_ai.Planner.Calls.{validate_calls, validate_tool_call, CallError}
use pearl_ai.Planner.Order.{InOrder, Arranged, topological_sort-InOrder}
use pearl_ai.Plan.Graph.{Sorted, cycle, sorted, topological_sort}
use pearl_ai.Plan.Validator.Dependencies.{Validated, validate_plan, accepted}
use pearl_ai.Plan.Validator.Reads.{plan_errors-guarded}
use pearl_ai.Plan.Validator.Writes.{plan_errors-written_once}
use pearl_ai.Plan.Validator.{plan_errors}
use pearl_ai.Sessions.Values.{Members}
use pearl_ai.Plan.{ToolCall}
use pearl_ai.Base.{
  String, List, [], ◌∷◌, Option, none, some, ◌≡◌, ◌≢◌, ◌⊎◌, inl, inr, refl, sym, ◌∙◌, ap,
  Bool-cases, subst, ℕ,
}
use pearl_ai.Planner.Fit.{Executable, validate_plan-accepted, validate_calls-Callable}

module _ (env : Surroundings) where
  -- The plan of a reply: the calls that the reply describes, arranged, and fit to be run.
  pub record FromReply (new : ℕ) (r : Reply) (steps : List ToolCall) : Type 0 where
    pub payload : Members
    pub calls : List ToolCall
    pub reply : r ≡ replied payload
    pub read : IsPlan env.shown env.loads new (env.dumps payload) calls
    pub arranged : Arranged calls steps
    pub executable : Executable env steps

  accepted-Executable :
      (steps : List ToolCall)
      → InOrder [] steps
      → plan_errors env.suffix env.exts steps ≡ []
      → steps ≢ []
      → validate_calls env.tools env.signature_of steps ≡ none
      → Executable env steps
  accepted-Executable [] o e ne c = absurd (ne refl)
  accepted-Executable (s ∷ ss) o e ne c = record {
    few = (plan_errors-guarded env.suffix env.exts [] ss s e).0;
    ordered = o;
    guarded = λ front back step f.
        (plan_errors-guarded env.suffix env.exts front back step
          (subst (λ xs. plan_errors env.suffix env.exts xs ≡ []) f e)).1;
    written_once = λ p front mid back x y full f.
        plan_errors-written_once env.suffix env.exts p front mid back x y full
          (subst (λ xs. plan_errors env.suffix env.exts xs ≡ []) f e);
    callable = validate_calls-Callable env.tools env.signature_of (s ∷ ss) c;
  }

  no_tool-Executable : (new : ℕ) → Executable env (no_tool new ∷ [])
  unfolding plan_errors validate_calls validate_tool_call
  no_tool-Executable new = accepted-Executable (no_tool new ∷ []) (tt, tt) refl (λ e. cc e) refl

  module _ (replans_used : ℕ) (steps : List ToolCall) (c : PlanConfidence) where
    scored-planned :
        (out : List ToolCall) (o : Option CallError)
        → scored env replans_used out o ≡ planned steps c
        → (out ≡ steps) × (o ≡ none) × (c ≡ score_plan steps replans_used)
    unfolding scored
    scored-planned out none h =
        let same : out ≡ steps = cc h in
        let sure : score_plan out replans_used ≡ c = cc h in
        (same, refl, sym sure ∙ ap (λ xs. score_plan xs replans_used) same)
    scored-planned out (some e) h = cc h

    after_validation-planned :
        (out : List ToolCall) (v : Option Validated)
        → after_validation env replans_used out v ≡ planned steps c
        → (v ≡ some accepted)
          × (out ≡ steps)
          × (validate_calls env.tools env.signature_of steps ≡ none)
          × (c ≡ score_plan steps replans_used)
    unfolding after_validation
    after_validation-planned out none h = cc h
    after_validation-planned out (some Validated.accepted) h =
        let (same, called, sure) =
          scored-planned out (validate_calls env.tools env.signature_of out) h in
        (
          refl,
          same,
          subst (λ xs. validate_calls env.tools env.signature_of xs ≡ none) same called,
          sure,
        )
    after_validation-planned out (some other) h = cc h

    after_sort-planned :
        (o : Option Sorted)
        → after_sort env replans_used o ≡ planned steps c
        → (o ≡ some (sorted steps))
          × (validate_plan env.suffix env.exts steps ≡ some accepted)
          × (validate_calls env.tools env.signature_of steps ≡ none)
          × (c ≡ score_plan steps replans_used)
    unfolding after_sort
    after_sort-planned none h = cc h
    after_sort-planned (some (cycle a b)) h = cc h
    after_sort-planned (some (sorted out)) h =
        let (v, same, called, sure) =
          after_validation-planned out (validate_plan env.suffix env.exts out) h in
        (
          ap (λ xs. some (sorted xs)) same,
          subst (λ xs. validate_plan env.suffix env.exts xs ≡ some accepted) same v,
          called,
          sure,
        )

    after_parse-planned :
        (p : Parsed (List ToolCall))
        → after_parse env replans_used p ≡ planned steps c
        → (calls : List ToolCall) × (p ≡ parsed calls)
          × (after_sort env replans_used (topological_sort calls) ≡ planned steps c)
    unfolding after_parse
    after_parse-planned (failed e) h = cc h
    after_parse-planned (parsed calls) h = (calls, refl, h)

    pub steps_of-FromReply :
        (new : ℕ) (r : Reply)
        → steps_of env replans_used new r ≡ planned steps c
        → FromReply new r steps × (c ≡ score_plan steps replans_used)
    unfolding steps_of
    steps_of-FromReply new (unavailable x) h = cc h
    steps_of-FromReply new (replied payload) h =
        let (calls, read, rest) =
          after_parse-planned (parse_plan env.shown env.loads new (env.dumps payload)) h in
        let (o, v, called, sure) = after_sort-planned (topological_sort calls) rest in
        let (ne, errors, deps) = validate_plan-accepted env.suffix env.exts steps v in
        let (ordered, arranged) =
          topological_sort-InOrder calls steps o
            (λ a. (validate_dependencies-References steps (deps a)).0) in
        (
          record {
            payload = payload;
            calls = calls;
            reply = refl;
            read = (parse_plan-IsPlan_iff env.shown env.loads new (env.dumps payload) calls).0 read;
            arranged = arranged;
            executable = accepted-Executable steps ordered errors ne called;
          },
          sure,
        )

-- Whatever plan the planner hands out can be run as it stands: it has 25 steps at most, every reference of a
-- step names an earlier step, a step that overwrites a file comes behind one that reads, no path but the
-- empty one is written twice, and every step is the sentinel or a call of a registered tool with no
-- undeclared and no missing argument. The plan is the sentinel alone for a request that needs no tools;
-- else it holds the calls that the model's reply describes. Its confidence is that of score_plan.
pub plan-Executable :
    (env : Surroundings) (generate_json : String → Reply) (prompt_of : String → String → String)
    (new : ℕ) (user_prompt context : String) (steps : List ToolCall) (c : PlanConfidence)
    → plan env generate_json prompt_of new user_prompt context ≡ planned steps c
    → Executable env steps
      × (c ≡ score_plan steps 0)
      × ((steps ≡ no_tool new ∷ [])
          ⊎ FromReply env new (generate_json (prompt_of user_prompt context)) steps)
unfolding plan
plan-Executable env generate_json prompt_of new user_prompt context steps c h =
    elim (Bool-cases
      (needs_no_tools env.task_signal env.pure_conversational env.to_lower user_prompt)) [
        | inl b ↦
            let g : planned (no_tool new ∷ []) (score_plan (no_tool new ∷ []) 0) ≡ planned steps c =
              rw (b, plan) at h in
            let same : no_tool new ∷ [] ≡ steps = cc g in
            let sure : score_plan (no_tool new ∷ []) 0 ≡ c = cc g in
            (
              subst (Executable env) same (no_tool-Executable env new),
              sym sure ∙ ap (λ xs. score_plan xs 0) same,
              inl (sym same),
            )
        | inr b ↦
            elim (Bool-cases (
              needs_clarification env.task_signal env.pure_conversational env.to_lower
                (tool_names env.tools) user_prompt)) [
                  | inl a ↦
                      let g : refused (ambiguous user_prompt) ≡ planned steps c =
                        rw (b, a, plan) at h in
                      cc g
                  | inr a ↦
                      let (from, sure) =
                        steps_of-FromReply env 0 steps c new
                          (generate_json (prompt_of user_prompt context)) (rw (b, a, plan) at h) in
                      (from.executable, sure, inr from)
                ]
      ]
