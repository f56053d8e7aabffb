-- ===== src/Planner/Ends.antt =====
-- How a call of the planner ends: with a plan, or with one of its reasons.
use pearl_ai.Planner.Intent.{needs_no_tools, needs_clarification}
use pearl_ai.Plan.Parser.{parse_plan, Parsed, failed, parsed}
use pearl_ai.Plan.Graph.{topological_sort, pick, sorted}
use pearl_ai.Planner.Steps.{
  Surroundings, Reply, replied, unavailable, PlanOutcome, planned, refused, Refusal, cyclic,
  invalid, ambiguous, no_reply, unreadable, bad_call, after_sort, after_validation, no_tool, plan,
  scored, steps_of, tool_names, after_parse,
}
use pearl_ai.Planner.Calls.{validate_calls, CallError}
use pearl_ai.Planner.Confidence.{score_plan}
use pearl_ai.Planner.Sound.{FromReply, steps_of-FromReply}
use pearl_ai.Plan.Parser.Described.{IsPlan, parse_plan-IsPlan_iff}
use pearl_ai.Plan.Graph.Kahn.{IsStuck}
use pearl_ai.Plan.Graph.Order.{
  dependencies, deadlock, in_order, topological_sort-Ordering, unannotated,
}
use pearl_ai.Plan.Validator.Dependencies.{Validated, validate_plan, accepted}
use pearl_ai.Sessions.Values.{Members}
use pearl_ai.Plan.{ToolCall}
use pearl_ai.Planner.Total.{validate_plan-some}
use pearl_ai.Base.{
  String, ℕ, List, some, ◌≡◌, ◌≢◌, length, Bool-cases, Option, [], false, inl, inr, none, refl,
  true, ◌∙◌, ◌∷◌, ap, ◌⊎◌, subst, sym,
}

module _ (env : Surroundings) (new : ℕ) (r : Reply) where
  -- The calls that the reply describes.
  abbrev pub Reads : List ToolCall → Type 0
  Reads calls =
      (payload : Members) × (r ≡ replied payload)
      × IsPlan env.shown env.loads new (env.dumps payload) calls

  -- The steps are the sorted calls of the reply.
  abbrev Sorts : List ToolCall → Type 0
  Sorts steps =
      (calls : List ToolCall) × Reads calls × (topological_sort calls ≡ some (sorted steps))

  -- What justifies a refusal.
  abbrev pub Grounds : Refusal → Type 0
  Grounds (ambiguous prompt) = ⊥
  Grounds (no_reply x) = r ≡ unavailable x
  Grounds (unreadable e) =
      (payload : Members) × (r ≡ replied payload)
      × ((calls : List ToolCall) → ¬ IsPlan env.shown env.loads new (env.dumps payload) calls)
  Grounds (cyclic ordered all) =
      (calls : List ToolCall) × Reads calls
      × ((order : List ℕ) × (ordered ≡ length order)
          × (all ≡ length calls)
          × IsStuck (dependencies calls) (length calls) order)
  Grounds (invalid v) =
      (steps : List ToolCall) × Sorts steps
      × (validate_plan env.suffix env.exts steps ≡ some v)
      × (v ≢ accepted)
  Grounds (bad_call e) =
      (steps : List ToolCall) × Sorts steps
      × (validate_plan env.suffix env.exts steps ≡ some accepted)
      × (validate_calls env.tools env.signature_of steps ≡ some e)

  -- With a plan that is fit to run, or with a refusal that is justified.
  pub data Ends (replans_used : ℕ) (o : PlanOutcome) : Type 0 where
    with_plan :
        (steps : List ToolCall)
        → o ≡ planned steps (score_plan steps replans_used)
        → FromReply env new r steps
        → Ends replans_used o
    without : (why : Refusal) → o ≡ refused why → Grounds why → Ends replans_used o

module _ (env : Surroundings) (replans_used new : ℕ) (r : Reply) where
  module _ (calls : List ToolCall) (read : Reads env new r calls) where
    calls-Ends :
        (steps : List ToolCall) (e : Option CallError)
        → topological_sort calls ≡ some (sorted steps)
        → validate_plan env.suffix env.exts steps ≡ some accepted
        → validate_calls env.tools env.signature_of steps ≡ e
        → steps_of env replans_used new r ≡ scored env replans_used steps e
        → Ends env new r replans_used (steps_of env replans_used new r)
    unfolding scored
    calls-Ends steps none o v c h =
        with_plan steps h
          (steps_of-FromReply env replans_used steps (score_plan steps replans_used) new r h).0
    calls-Ends steps (some e) o v c h = without (bad_call e) h (steps, (calls, read, o), v, c)

    validated-Ends :
        (steps : List ToolCall) (v : Validated)
        → topological_sort calls ≡ some (sorted steps)
        → validate_plan env.suffix env.exts steps ≡ some v
        → steps_of env replans_used new r ≡ after_validation env replans_used steps (some v)
        → Ends env new r replans_used (steps_of env replans_used new r)
    unfolding after_validation
    validated-Ends steps Validated.accepted o v h = calls-Ends steps _ o v refl h
    validated-Ends steps Validated.empty_plan o v h =
        without (invalid Validated.empty_plan) h (steps, (calls, read, o), v, λ e. cc e)
    validated-Ends steps (Validated.rejected es) o v h =
        without (invalid (Validated.rejected es)) h (steps, (calls, read, o), v, λ e. cc e)
    validated-Ends steps (Validated.bad_dependencies es) o v h =
        without (invalid (Validated.bad_dependencies es)) h (steps, (calls, read, o), v, λ e. cc e)

    sorted-Ends :
        steps_of env replans_used new r ≡ after_sort env replans_used (topological_sort calls)
        → Ends env new r replans_used (steps_of env replans_used new r)
    unfolding after_sort
    sorted-Ends h = elim (topological_sort-Ordering calls) [
      | unannotated b e ↦ in_steps calls e
      | in_order order e complete respects ↦ in_steps (pick calls order) e
      | deadlock order e stuck ↦
          without (cyclic (length order) (length calls)) (h ∙ ap (after_sort env replans_used) e)
            (calls, read, (order, refl, refl, stuck))
    ]
      where
        in_steps :
            (steps : List ToolCall)
            → topological_sort calls ≡ some (sorted steps)
            → Ends env new r replans_used (steps_of env replans_used new r)
        in_steps steps e =
            let (v, f) = validate_plan-some env.suffix env.exts steps in
            validated-Ends steps v e f (
              h
              ∙ ap (after_sort env replans_used) e
              ∙ ap (after_validation env replans_used steps) f)

steps_of-Ends :
    (env : Surroundings) (replans_used new : ℕ) (r : Reply)
    → Ends env new r replans_used (steps_of env replans_used new r)
unfolding steps_of
steps_of-Ends env replans_used new (unavailable x) = without (no_reply x) refl refl
steps_of-Ends env replans_used new (replied payload) =
    go (parse_plan env.shown env.loads new (env.dumps payload)) refl
  where
    go :
        (p : Parsed (List ToolCall))
        → parse_plan env.shown env.loads new (env.dumps payload) ≡ p
        → Ends env new
            (replied payload)
            replans_used
            (steps_of env replans_used new (replied payload))
    go (failed x) e = without (unreadable x) (ap (after_parse env replans_used) e) (
      payload,
      refl,
      λ calls is.
          let g : parsed calls ≡ failed x =
            sym ((parse_plan-IsPlan_iff env.shown env.loads new (env.dumps payload) calls).1 is)
            ∙ e in
          cc g,
    )
    go (parsed calls) e =
        sorted-Ends env replans_used new (replied payload) calls
          (
            payload,
            refl,
            (parse_plan-IsPlan_iff env.shown env.loads new (env.dumps payload) calls).0 e,
          )
          (ap (after_parse env replans_used) e)

-- The planner ends on every request. One that needs no tools gets the sentinel alone; one that says
-- nothing is refused as ambiguous; for any other the model is asked, and there is a plan that is fit to run
-- and holds the calls of the reply, or a refusal with its grounds: the client raised; the reply describes no
-- calls; the calls wait for one another; the sorted calls break a rule of the validator, or, when they
-- break none, one of them does not fit the tools.
pub plan-Ends :
    (env : Surroundings) (generate_json : String → Reply) (prompt_of : String → String → String)
    (new : ℕ) (user_prompt context : String)
    → let o = plan env generate_json prompt_of new user_prompt context in
      let idle = needs_no_tools env.task_signal env.pure_conversational env.to_lower user_prompt in
      let vague =
        needs_clarification env.task_signal env.pure_conversational env.to_lower
          (tool_names env.tools)
          user_prompt in
      ((idle ≡ true) × (o ≡ planned (no_tool new ∷ []) (score_plan (no_tool new ∷ []) 0)))
      ⊎ ((idle ≡ false) × (vague ≡ true) × (o ≡ refused (ambiguous user_prompt)))
      ⊎ ((idle ≡ false)
          × (vague ≡ false)
          × Ends env new (generate_json (prompt_of user_prompt context)) 0 o)
unfolding plan
plan-Ends env generate_json prompt_of new user_prompt context =
    let r = generate_json (prompt_of user_prompt context) in
    elim (Bool-cases
      (needs_no_tools env.task_signal env.pure_conversational env.to_lower user_prompt)) [
        | inl b ↦ inl (b, rw (b, plan) refl)
        | inr b ↦
            elim (Bool-cases (
              needs_clarification env.task_signal env.pure_conversational env.to_lower
                (tool_names env.tools) user_prompt)) [
                  | inl a ↦ inr (inl (b, a, rw (b, a, plan) refl))
                  | inr a ↦
                      let asked : plan env generate_json prompt_of new user_prompt context
                          ≡ steps_of env 0 new r =
                        rw (b, a, plan) refl in
                      inr (
                        inr
                          (b, a, subst (Ends env new r 0) (sym asked) (steps_of-Ends env 0 new r)))
                ]
      ]
