-- ===== src/Tests/Planning.antt =====
-- A request that the planner turns into two steps, declared in the wrong order.
use pearl_ai.Tests.Runs.{limits, env as executor_env}
use pearl_ai.Tests.World.{begin}
use pearl_ai.Planner.Wired.{seen, IsWired, opening_plan-Executable}
use pearl_ai.Executor.{Environment, Failure, Planned}
use pearl_ai.Executor.Planning.{opening_plan, plan_with_retry, retry_plan}
use pearl_ai.Report.{CompletedCall}
use pearl_ai.Planner.Steps
use pearl_ai.Python.{Value}
use pearl_ai.Planner.Steps.{
  Surroundings, Reply, replied, refused, plan, steps_of, after_parse, after_sort, after_validation,
  scored, no_tool, tool_names, ambiguous, Refusal, replan, PlanOutcome,
}
use pearl_ai.Planner.Intent.{
  needs_no_tools, needs_clarification, split, cut_word, token_of, strip_start, strip_end,
  is_punctuation,
}
use pearl_ai.Planner.Calls.{
  Parameter, ParameterKind, validate_calls, validate_tool_call, required_params, is_named,
}
use pearl_ai.Planner.Confidence.{score_plan, total}
use pearl_ai.Planner.Confidence.Bounds.{score_plan-bounds, IsExplained}
use pearl_ai.Planner.Confidence.Charged.{deducted}
use pearl_ai.Planner.Sound.{plan-Executable, FromReply}
use pearl_ai.Planner.Fit.{Executable}
use pearl_ai.Planner.Ends.{plan-Ends, Ends}
use pearl_ai.Planner.Prompt.{build_prompt, base_prompt, with_context}
use pearl_ai.Planner.Budget.{build_prompt-fits, room}
use pearl_ai.Context.Allowance.{ContextBudget}
use pearl_ai.Context.Tokens.{estimate_tokens}
use pearl_ai.Plan.Parser.{
  parsed, parse_plan, parse_payload, read_steps, parse_steps, parse_step, parse_fields, read_tool,
  read_arguments, read_id, read_depends_on, read_entries, kwargs_of, argument,
}
use pearl_ai.Plan.Parser.Described.{parse_plan-IsPlan_iff, IsPlan}
use pearl_ai.Plan.Validator.{
  write_errors, value_errors, text_or_empty, scope_errors, read_errors, prefix_errors, plan_errors,
  path_of, extension_errors, count_errors, argument_errors,
}
use pearl_ai.Plan.Validator.Dependencies.{
  validate_plan, validate_dependencies, collect_ids, reference_errors, dependency_errors,
  cycle_errors,
}
use pearl_ai.Plan.Graph.{
  topological_sort, is_annotated, edges_of, index_ids, add_steps, add_dependencies, add_edge,
  ready_from, kahn, release, check_order, pick,
}
use pearl_ai.Plan.{ToolCall}
use pearl_ai.Sessions.Values.{Json, Items, Members, find}
use pearl_ai.Tools.{Tool, has_tool, get_tool}
use pearl_ai.Base.{
  String, ℕ, true, false, List, [], ◌∷◌, some, ◌≡◌, ◌≢◌, ◌⊎◌, ◌↔◌, ◌≤◌, ◌+◌, ◌*◌, All, refl, strip,
  strip_left, strip_right, is_space, lookup, put, starts_with, has_prefix, eq_iff, none, arith,
}

abbrev path_parameter : Parameter
path_parameter = record {
  name = "path";
  kind = ParameterKind.positional_or_keyword;
  has_default = false;
}

abbrev step_json : String → String → Items → Json
step_json name id deps = Json.object (
    Members.member "tool" (Json.text name) (
      Members.member "arguments"
        (Json.object (Members.member "path" (Json.text "src/a.py") Members.end))
        (Members.member "id" (Json.text id)
          (Members.member "depends_on" (Json.array deps) Members.end))))

abbrev payload : Members
payload =
    Members.member "steps"
      (Json.array (
        Items.item (step_json "write_file" "w" (Items.item (Json.text "r") Items.nil))
          (Items.item (step_json "read_file" "r" Items.nil) Items.nil)))
      Members.end

abbrev env : Surroundings
env = record {
  tools =
      (record { name = "read_file"; risk_level = "safe" })
      ∷ (record { name = "write_file"; risk_level = "write" })
      ∷ [];
  signature_of = λ name. record { allowed = "path" ∷ []; parameters = path_parameter ∷ [] };
  suffix = λ path. ".py";
  exts = ".py" ∷ [];
  dumps = λ ms. "{}";
  loads = λ response. some (Json.object payload);
  shown = λ j. "";
  task_signal = λ prompt. true;
  pure_conversational = λ prompt. false;
  to_lower = λ s. s;
}

abbrev step_call : ℕ → String → String → List String → ToolCall
step_call new name id deps = record {
  object_id = new;
  tool_name = name;
  args = [];
  kwargs = ("path", Value.text "src/a.py") ∷ [];
  step_id = some id;
  depends_on = deps;
}

abbrev in_sequence : List ToolCall
in_sequence = step_call 8 "read_file" "r" [] ∷ step_call 7 "write_file" "w" ("r" ∷ []) ∷ []

abbrev generate : String → Reply
generate prompt = replied payload

abbrev prompt_for : String → String → String
prompt_for user_prompt context = user_prompt

planned_in_sequence :
    plan env generate prompt_for 7 "fix it" ""
    ≡ PlanOutcome.planned in_sequence (score_plan in_sequence 0)
unfolding plan needs_no_tools needs_clarification split cut_word strip strip_left strip_right
    is_space steps_of after_parse after_sort after_validation scored parse_plan parse_payload
    read_steps parse_steps parse_step parse_fields read_tool read_arguments read_id read_depends_on
    read_entries kwargs_of argument find validate_calls validate_tool_call required_params is_named
    has_tool get_tool validate_plan plan_errors prefix_errors value_errors argument_errors
    extension_errors scope_errors read_errors write_errors count_errors path_of text_or_empty
    starts_with has_prefix lookup put validate_dependencies collect_ids reference_errors
    dependency_errors cycle_errors topological_sort is_annotated edges_of index_ids add_steps
    add_dependencies add_edge ready_from kahn release check_order pick
planned_in_sequence = refl

greeting :
    plan
      (record env { task_signal = λ s. false; pure_conversational = λ s. true })
      generate
      prompt_for
      7
      "hello"
      ""
    ≡ PlanOutcome.planned (no_tool 7 ∷ []) (score_plan (no_tool 7 ∷ []) 0)
unfolding plan needs_no_tools split cut_word strip strip_left strip_right is_space
greeting = refl

noise :
    plan (record env { task_signal = λ s. false }) generate prompt_for 7 "lpoe" ""
    ≡ refused (ambiguous "lpoe")
unfolding plan needs_no_tools needs_clarification split cut_word strip strip_left strip_right
    is_space token_of strip_start strip_end is_punctuation
noise = refl

plan-Executable_example :
    Executable env in_sequence
    × (score_plan in_sequence 0 ≡ score_plan in_sequence 0)
    × ((in_sequence ≡ no_tool 7 ∷ []) ⊎ FromReply env 7 (replied payload) in_sequence)
plan-Executable_example =
    plan-Executable env generate prompt_for 7 "fix it" "" in_sequence (score_plan in_sequence 0)
      planned_in_sequence

plan-Ends_example :
    let o = plan env generate prompt_for 7 "fix it" "" in
    let idle = needs_no_tools env.task_signal env.pure_conversational env.to_lower "fix it" in
    let vague =
      needs_clarification env.task_signal env.pure_conversational env.to_lower
        (tool_names env.tools)
        "fix it" in
    ((idle ≡ true) × (o ≡ PlanOutcome.planned (no_tool 7 ∷ []) (score_plan (no_tool 7 ∷ []) 0)))
    ⊎ ((idle ≡ false) × (vague ≡ true) × (o ≡ refused (ambiguous "fix it")))
    ⊎ ((idle ≡ false) × (vague ≡ false) × Ends env 7 (replied payload) 0 o)
plan-Ends_example = plan-Ends env generate prompt_for 7 "fix it" ""

parse_plan-IsPlan_iff_example :
    (parse_plan env.shown env.loads 7 "{}" ≡ parsed in_sequence)
    ↔ IsPlan env.shown env.loads 7 "{}" in_sequence
parse_plan-IsPlan_iff_example = parse_plan-IsPlan_iff env.shown env.loads 7 "{}" in_sequence

score_plan-bounds_example :
    let c = score_plan in_sequence 1 in
    (c.scale ≡ 2)
    × (21 * c.scale ≤ c.score)
    × (c.score ≤ 100 * c.scale)
    × (c.score + c.scale * deducted c.plan_factors ≡ total c.step_scores)
    × (deducted c.plan_factors ≤ 30)
    × (c.score ≤ (score_plan in_sequence 0).score)
    × All IsExplained c.step_scores
score_plan-bounds_example =
    score_plan-bounds (step_call 8 "read_file" "r" [])
      (step_call 7 "write_file" "w" ("r" ∷ []) ∷ []) 0 1 (omega arith) (omega arith)

abbrev window : ContextBudget
window = record { n_ctx = 8192; response_tokens = 1024 }

abbrev template : List Tool → String → String
template tools user_prompt = user_prompt

abbrev recent : String
recent = "edited src/a.py"

abbrev nothing : String
nothing = ""

not_nothing : recent ≢ nothing
not_nothing h = let g : false ≡ true = (eq_iff recent nothing).1 h in cc g

build_prompt-fits_example :
    (11 ≤ room env.tools window template "fix it" recent
      → estimate_tokens (build_prompt env.tools window template "fix it" recent) + 1024 ≤ 8192)
    × (room env.tools window template "fix it" recent ≡ 0
        → build_prompt env.tools window template "fix it" recent
          ≡ with_context recent (base_prompt env.tools window template "fix it"))
build_prompt-fits_example = build_prompt-fits env.tools window template "fix it" recent not_nothing

abbrev unworded : Refusal → String
unworded why = ""

abbrev replan_prompt_for : String → List CompletedCall → Failure → String
replan_prompt_for prompt behind_us failure = prompt

-- An executor whose environment calls this planner.
abbrev wired_env : Environment
wired_env = record executor_env {
  plan = λ p c w. (seen unworded (plan env generate prompt_for 7 p c), w);
  replan = λ p done failure n w.
      (seen unworded (Steps.replan env generate replan_prompt_for 7 p done failure n), w);
}

abbrev wiring : IsWired wired_env env
wiring = record {
  wording = unworded;
  generate_json = λ w. generate;
  prompt_of = prompt_for;
  new = λ w. 7;
  plans = λ p c w. refl;
  replan_prompt = replan_prompt_for;
  replans = λ p done failure n w. refl;
}

opened : (opening_plan wired_env limits none "fix it" "" [] begin).0 ≡ Planned.planned in_sequence
unfolding opening_plan plan_with_retry retry_plan seen
opened = rw planned_in_sequence refl

opening_plan-Executable_example : Executable env in_sequence
opening_plan-Executable_example =
    opening_plan-Executable wired_env limits env wiring "fix it" "" [] begin in_sequence opened
