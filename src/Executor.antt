-- ===== src/Executor.antt =====
-- src/agent/executor.py: the state of the AutonomousExecutor, and what it takes from its surroundings.
pub mod Loop
pub mod Finish
pub mod Planning
pub mod Approval
pub mod Settles
pub mod Returns
pub mod Answers
pub mod Rejects
use pearl_ai.Changes
use pearl_ai.Commands
use pearl_ai.Risk.{max_risk}
use pearl_ai.Changes.Files.{FileSystem}
use pearl_ai.Changes.{ChangeManager}
use pearl_ai.Plan.{ToolCall}
use pearl_ai.Tools.{ToolRun, Tool, get_tool}
use pearl_ai.Commands.{ShellCommandRequest, RunOutcome, CommandApprovalManager}
use pearl_ai.Report.{
  Verdict, StopReason, ProgressStatus, ProgressEvent, PausedState, ExecutionStep, ExecutionReport,
  EventKind, CompletedCall, approval_awaited, kind_approval,
}
use pearl_ai.Python.{Value, Exception, message}
use pearl_ai.Base.{
  String, Bool, Dict, List, Option, [], if◌then◌else◌, leb, length, lower_holds, none, one_of, some,
  str_eq, ℕ, ◌&&◌, ◌++◌, ◌+◌, ◌||◌, ◌∷◌,
}

-- What a failed step tells the planner.
pub record Failure : Type 0 where
  pub tool : String
  -- absent where no tool call failed
  pub arguments : Option (Dict Value)
  pub error : String
  pub error_type : String
  pub suggestion : Option String

-- How a call of the planner ends.
pub data Planned : Type 0 where
  planned : List ToolCall → Planned
  plan_raised : Exception → Planned

-- The result of the verification engine, as far as the executor acts on it.
pub record Verification : Type 0 where
  pub tests_failed : ℕ
  pub evidence : List String

-- Everything around the executor. A world holds the files, the model and the other threads; each call
-- takes the world that it meets and leaves another one. `poll` is the read of the cancel event, which
-- another thread may set at any time.
pub record Environment : Type 1 where
  pub files : FileSystem
  pub tools : List Tool
  pub call_tool : ToolCall → files.World → ToolRun files.World
  pub poll : files.World → Bool × files.World
  pub context : String → files.World → String × files.World
  pub plan : String → String → files.World → Planned × files.World
  pub validate_plan : List ToolCall → files.World → Option Exception
  pub replan : String → List CompletedCall → Failure → ℕ → files.World → Planned × files.World
  pub runner : ShellCommandRequest → files.World → RunOutcome × files.World
  pub create_checkpoint : String → files.World → Bool × files.World
  pub refresh_index : String → files.World → files.World
  pub verifier : Option (List String → files.World → Verification × files.World)
  pub judge :
      String → List ExecutionStep → Option Verification → files.World → Option Verdict × files.World
  -- `json.dumps` of the sorted arguments, each as its `str`
  pub dumps : Dict Value → String

pub record Limits : Type 0 where
  pub max_iterations : ℕ
  pub max_replans : ℕ
  pub max_retries : ℕ
  -- `None` where no reflection engine is wired in, else its cap on reflections
  pub max_reflections : Option ℕ

pub record Executor (W : Type 0) : Type 0 where
  pub patches : ChangeManager
  pub approver : CommandApprovalManager
  pub paused : Option PausedState
  -- whether the staging managers are the active ones
  pub preview : Bool
  pub staging_risks : List String
  pub current_prompt : String
  pub last_verification : Option Verification
  pub last_completed : List CompletedCall
  pub reflections : ℕ
  pub world : W

abbrev pub event : ProgressStatus → ℕ → ℕ → EventKind → ProgressEvent
event status current total action = record {
  status = status;
  current_step = current;
  total_steps = total;
  current_action = action;
}

abbrev pub report_of : List ExecutionStep → StopReason → ℕ → List ProgressEvent → ExecutionReport
report_of steps reason replans events = record {
  steps = steps;
  stop_reason = reason;
  replans_used = replans;
  events = events;
  reflection = none;
  llm_reflection = none;
  error = none;
}

module _ {W : Type 0} where
  unfoldable pub staged_count : Executor W → ℕ
  unfolding Changes.count
  staged_count x = Changes.count x.patches + length x.approver.staged

  unfoldable pub has_staged : Executor W → Bool
  unfolding Changes.has_pending Commands.has_pending
  has_staged x = Changes.has_pending x.patches || Commands.has_pending x.approver

  -- The risk tier of a tool that staged something: "dangerous" where it cannot be found.
  unfoldable pub note_if_staged : List Tool → String → ℕ → Executor W → Executor W
  unfolding staged_count get_tool
  note_if_staged tools name before x = if leb (staged_count x) before then x else record x {
    staging_risks =
        x.staging_risks
        ++ elim (get_tool tools name) [ none ↦ "dangerous" | some t ↦ t.risk_level ] ∷ [];
  }

  unfoldable pub staged_risk_level : Executor W → String
  unfolding max_risk
  staged_risk_level x = max_risk x.staging_risks

  unfoldable pub discard_staged : Executor W → Executor W
  unfolding Changes.discard_all Commands.discard_all
  discard_staged x = record x {
    patches = (Changes.discard_all x.patches).1;
    approver = (Commands.discard_all x.approver).1;
  }

  -- `_check_awaiting_approval`: the report of the pause, if something is staged.
  -- The event is appended to the list that the paused state shares.
  unfoldable pub check_awaiting_approval :
      PausedState → Executor W → Option ExecutionReport × Executor W
  unfolding has_staged
  check_awaiting_approval s x =
      let total = length s.steps + length s.pending in
      let events = s.events ++ event approval_awaited (length s.steps) total kind_approval ∷ [] in
      if has_staged x
      then (
        some (report_of s.steps StopReason.awaiting_approval s.replans_used events),
        record x { paused = some (record s { events = events }) },
      )
      else (none, x)

unfoldable pub is_file_tool : String → Bool
is_file_tool name = one_of name ("read_file" ∷ "write_file" ∷ "replace_in_file" ∷ "edit_lines" ∷ [])

-- `_recovery_suggestion`; `none` is the empty text, which the caller leaves out.
unfoldable pub recovery_suggestion : String → Exception → Option String
unfolding is_file_tool message lower_holds
recovery_suggestion tool exc =
    let msg = message exc in
    if is_file_tool tool
      && (lower_holds "no such file" msg
          || (lower_holds "not found" msg || lower_holds "does not exist" msg))
    then some
        "The target file was not found. Use search_code to locate the correct path before attempting another file operation."
    else if is_file_tool tool
        && (lower_holds "permission" msg
            || (lower_holds "access" msg || lower_holds "workspace" msg))
    then some "The path is outside the workspace boundary. Use list_files to discover valid paths."
    else if str_eq tool "search_code" && (lower_holds "invalid" msg || lower_holds "regex" msg)
    then some "The search pattern was invalid. Simplify the pattern and retry."
    else none
