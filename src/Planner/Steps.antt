-- ===== src/Planner/Steps.antt =====
-- plan and replan of src/agent/planner.py.
use pearl_ai.Planner.Intent.{needs_no_tools, needs_clarification}
use pearl_ai.Planner.Calls.{CallError, Signature, validate_calls}
use pearl_ai.Planner.Confidence.{PlanConfidence, score_plan, total}
use pearl_ai.Plan.Parser.{ParseError, Parsed, parsed, failed, parse_plan}
use pearl_ai.Plan.Graph.{Sorted, sorted, cycle, topological_sort}
use pearl_ai.Plan.Validator.Dependencies.{Validated, validate_plan}
use pearl_ai.Plan.{ToolCall}
use pearl_ai.Sessions.Values.{Json, Members}
use pearl_ai.Tools.{Tool}
use pearl_ai.Python.{Exception}
use pearl_ai.Base.{String, ℕ, Bool, List, [], ◌∷◌, Option, none, some, if◌then◌else◌}
use mathlib.Core.List.{map}

-- What `_generate_json` gives for a prompt: the reply as a dictionary, or what the client raises.
pub data Reply : Type 0 where
  replied : Members → Reply
  unavailable : Exception → Reply

-- What ends a call of the planner without a plan.
pub data Refusal : Type 0 where
  -- AmbiguousRequestError
  ambiguous : (prompt : String) → Refusal
  no_reply : Exception → Refusal
  unreadable : ParseError → Refusal
  -- the ValueError of `topological_sort`
  cyclic : (ordered all : ℕ) → Refusal
  -- the PlanValidationError, by how `validate_plan` ends
  invalid : Validated → Refusal
  bad_call : CallError → Refusal

-- How a call ends. With a plan, `last_confidence_score` is set to its confidence; else it is kept.
pub data PlanOutcome : Type 0 where
  planned : List ToolCall → PlanConfidence → PlanOutcome
  refused : Refusal → PlanOutcome
  out_of_fuel : PlanOutcome

-- The one step of a request that needs no tools.
abbrev pub no_tool : ℕ → ToolCall
no_tool new = record {
  object_id = new;
  tool_name = "none";
  args = [];
  kwargs = [];
  step_id = none;
  depends_on = [];
}

-- The surroundings: the tools with their functions' signatures, the suffix of a path, the extensions in the
-- workspace, json, and `str()` of what json gives.
pub record Surroundings : Type 0 where
  pub tools : List Tool
  pub signature_of : String → Signature
  pub suffix : String → String
  pub exts : List String
  pub dumps : Members → String
  pub loads : String → Option Json
  pub shown : Json → String
  -- what the patterns of `conversational` say, and `str.lower`
  pub task_signal : String → Bool
  pub pure_conversational : String → Bool
  pub to_lower : String → String

module _ (env : Surroundings) (replans_used : ℕ) where
  unfoldable pub scored : List ToolCall → Option CallError → PlanOutcome
  unfolding score_plan
  scored steps none = planned steps (score_plan steps replans_used)
  scored steps (some e) = refused (bad_call e)

  unfoldable pub after_validation : List ToolCall → Option Validated → PlanOutcome
  unfolding scored validate_calls
  after_validation steps none = out_of_fuel
  after_validation steps (some Validated.accepted) =
      scored steps (validate_calls env.tools env.signature_of steps)
  after_validation steps (some other) = refused (invalid other)

  unfoldable pub after_sort : Option Sorted → PlanOutcome
  unfolding after_validation validate_plan
  after_sort none = out_of_fuel
  after_sort (some (cycle ordered total)) = refused (cyclic ordered total)
  after_sort (some (sorted steps)) =
      after_validation steps (validate_plan env.suffix env.exts steps)

  unfoldable pub after_parse : Parsed (List ToolCall) → PlanOutcome
  unfolding after_sort topological_sort
  after_parse (failed e) = refused (unreadable e)
  after_parse (parsed steps) = after_sort (topological_sort steps)

  -- From the reply of the model to the plan, which `plan` and `replan` share.
  unfoldable pub steps_of : ℕ → Reply → PlanOutcome
  unfolding after_parse parse_plan
  steps_of new (unavailable x) = refused (no_reply x)
  steps_of new (replied payload) =
      after_parse (parse_plan env.shown env.loads new (env.dumps payload))

-- `_tool_names`
abbrev pub tool_names : List Tool → List String
tool_names tools = map (λ (t : Tool). t.name) tools

-- `build_prompt` and the model; the new objects are numbered from `new`.
module _ (env : Surroundings) (generate_json : String → Reply)
    (prompt_of : String → String → String) where
  -- `plan`
  unfoldable pub plan : ℕ → String → String → PlanOutcome
  unfolding needs_no_tools needs_clarification steps_of score_plan
  plan new user_prompt workspace_context =
      if needs_no_tools env.task_signal env.pure_conversational env.to_lower user_prompt
      then planned (no_tool new ∷ []) (score_plan (no_tool new ∷ []) 0)
      else if needs_clarification env.task_signal env.pure_conversational env.to_lower
          (tool_names env.tools) user_prompt
      then refused (ambiguous user_prompt)
      else steps_of env 0 new (generate_json (prompt_of user_prompt workspace_context))

-- `replan`
module _ {C R : Type 0} (env : Surroundings) (generate_json : String → Reply)
    (prompt_of : String → List C → R → String) where
  unfoldable pub replan : ℕ → String → List C → R → ℕ → PlanOutcome
  unfolding steps_of
  replan new user_prompt completed failure replans_used =
      steps_of env replans_used new (generate_json (prompt_of user_prompt completed failure))
