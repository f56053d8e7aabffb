-- ===== src/Report.antt =====
-- src/agent/execution_model.py: what a run reports, and the pure functions that shape it. The wording of
-- a progress event is kept as the kind of event that the personality puts into words.
use pearl_ai.Plan.{ToolCall}
use pearl_ai.Retry.{ErrorType}
use pearl_ai.Python.{Value, Exception, is_instance, message, str}
use pearl_ai.Base.{
  String, Bool, Dict, List, Option, [], false, if◌then◌else◌, is_empty, keep, len_text, length,
  lower_holds, ltb, map, none, not, some, str_eq, strip, take_text, text_of, true, ℕ, ◌||◌, ◌∷◌,
}

pub data StopReason : Type 0 where
  completed max_iterations fatal_error cancelled awaiting_approval rejected : StopReason

pub data ProgressStatus : Type 0 where
  planning executing_step step_completed step_failed step_retrying replanning : ProgressStatus
  task_completed task_failed run_cancelled approval_awaited run_rejected : ProgressStatus
  checkpoint_created : ProgressStatus

pub data EventKind : Type 0 where
  kind_planning kind_executing kind_success kind_warning kind_replanning kind_failure : EventKind
  kind_completed kind_cancelled kind_approval kind_rejected kind_checkpoint : EventKind

pub record ProgressEvent : Type 0 where
  pub status : ProgressStatus
  pub current_step : ℕ
  pub total_steps : ℕ
  pub current_action : EventKind

pub record ExecutionStep : Type 0 where
  pub iteration : ℕ
  pub tool_name : String
  pub kwargs : Dict Value
  pub result : Value
  pub error : Option String
  pub summary : String
  pub error_type : Option ErrorType

-- The property `succeeded` of a step.
unfoldable pub step_succeeded : ExecutionStep → Bool
step_succeeded s = elim s.error [ none ↦ true | some _ ↦ false ]

pub data ReflectionOutcome : Type 0 where
  complete partial nothing_done : ReflectionOutcome

-- The evidence of a reflection: its counts, in place of the sentences that hold them.
pub record ReflectionResult : Type 0 where
  pub outcome : ReflectionOutcome
  pub counted : List ℕ
  pub failed_tools : List String

unfoldable pub summarize : String → Value → String
unfolding str len_text take_text text_of
summarize tool result =
    let shown = str result in
    text_of (
      "'"
      ∷ tool
      ∷ "' succeeded: "
      ∷ (if ltb 200 (len_text shown) then text_of (take_text 200 shown ∷ "..." ∷ []) else shown)
      ∷ [])

unfoldable pub summarize_failure : String → String → String
unfolding text_of
summarize_failure tool error = text_of ("'" ∷ tool ∷ "' failed: " ∷ error ∷ [])

-- `_reflect`: COMPLETE, PARTIAL or FAILED.
unfoldable pub reflect : List ExecutionStep → StopReason → ℕ → ReflectionResult
unfolding step_succeeded
reflect steps StopReason.completed replans_used = record {
  outcome = complete;
  counted = length steps ∷ (if ltb 0 replans_used then replans_used ∷ [] else []);
  failed_tools = [];
}
reflect steps stop_reason replans_used =
    let succeeded = keep step_succeeded steps in
    let failed = keep (λ s. not (step_succeeded s)) steps in
    if is_empty succeeded
    then record { outcome = nothing_done; counted = []; failed_tools = [] }
    else record {
      outcome = partial;
      counted = length succeeded ∷ length steps ∷ [];
      failed_tools = map (λ (s : ExecutionStep). s.tool_name) failed;
    }

-- What `_describe_planning_failure` gives: the message itself, one of two fixed explanations, or the
-- message behind "Planning failed: ".
unfoldable pub describe_planning_failure : Exception → String
unfolding message strip is_instance lower_holds text_of
describe_planning_failure exc =
    let detail = strip (message exc) in
    if is_instance exc "AmbiguousRequestError"
    then detail
    else if is_instance exc "ValueError"
        || (is_instance exc "JSONDecodeError" || lower_holds "json" detail)
    then "I couldn't turn that into a plan I could run. This usually means the request was too vague for the current model, or it isn't a coding task. Try rephrasing it as a concrete action — for example \"add a docstring to parse_config in src/utils.py\" — or switch to Chat mode to just talk."
    else if str_eq detail ""
    then "Planning failed for an unknown reason. Try rephrasing the request, or switch to Chat mode."
    else text_of ("Planning failed: " ∷ detail ∷ [])

-- The structured verdict of the reflection engine, as far as the executor reads it.
pub record Verdict : Type 0 where
  pub status : String
  pub reason : String
  pub missing_requirements : List String

pub record ExecutionReport : Type 0 where
  pub steps : List ExecutionStep
  pub stop_reason : StopReason
  pub replans_used : ℕ
  pub events : List ProgressEvent
  pub reflection : Option ReflectionResult
  pub llm_reflection : Option Verdict
  pub error : Option String

-- One entry of the history that a replan is given.
pub record CompletedCall : Type 0 where
  pub tool : String
  pub arguments : Dict Value
  pub result : Value

-- `_PausedState`
pub record PausedState : Type 0 where
  pub prompt : String
  pub pending : List ToolCall
  pub steps : List ExecutionStep
  pub events : List ProgressEvent
  pub completed_for_replan : List CompletedCall
  pub replans_used : ℕ
  pub iteration : ℕ
