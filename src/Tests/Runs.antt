-- ===== src/Tests/Runs.antt =====
-- One environment, and runs in it: a plan of one call, which stages an edit and a command.
use pearl_ai.Plan.{ToolCall}
use pearl_ai.Executor.{
  Limits, Executor, Environment, planned, check_awaiting_approval, event, has_staged,
  note_if_staged, report_of, staged_count,
}
use pearl_ai.Commands.{run_raised, ShellCommandRequest}
use pearl_ai.Report.{
  PausedState, ExecutionReport, CompletedCall, ExecutionStep, ProgressEvent, approval_awaited,
  awaiting_approval, executing_step, kind_approval, kind_executing, kind_success, step_completed,
  summarize,
}
use pearl_ai.Changes
use pearl_ai.Commands
use pearl_ai.Executor.Loop.Terminates.{execute-returns}
use pearl_ai.Executor.Settles.{Settled, execute-Concludes}
use pearl_ai.Executor.Returns.{run-approve-return}
use pearl_ai.Executor.Answers.{approve-Answer, Answer}
use pearl_ai.Executor.Rejects.{reject-Rejected, Rejected}
use pearl_ai.Tests.World.{memory, begin, edit, batch, Disk}
use pearl_ai.Tools.{returned, dispatch, get_tool, wrap}
use pearl_ai.Python.{text, plain, str}
use pearl_ai.Executor.Planning.{Answered, conclude, run}
use pearl_ai.Executor.Approval.{Approved, approve, nothing_paused, reject}
use pearl_ai.Executor.Loop.{
  execute, absorb, after_success, call_step, check_cancelled, close, leave, round, round_on,
  run_loop, started, take_step, use_outcome,
}
use pearl_ai.Executor.Loop.Outcomes.{LoopEnd, execute-LoopEnd, execute-budgets}
use pearl_ai.Base.{
  [], false, none, refl, some, true, ◌∷◌, ◌≡◌, List, arith, len_text, length, take_text, text_of,
  ◌+◌, ◌-◌, ◌≤◌,
}

abbrev call : ToolCall
call = record {
  object_id = 1;
  tool_name = "edit_lines";
  args = [];
  kwargs = [];
  step_id = none;
  depends_on = [];
}

abbrev request : ShellCommandRequest
request = record { command = "make"; cwd = "."; timeout = 60; cpu_seconds = none; memory_mb = none }

abbrev pub env : Environment
env = record {
  files = memory;
  tools = record { name = "edit_lines"; risk_level = "staged" } ∷ [];
  call_tool = λ c w. record {
    outcome = returned (text "ok");
    edits = edit "a.py" ∷ [];
    commands = request ∷ [];
    world = w;
  };
  poll = λ w. (false, w);
  context = λ p w. ("", w);
  plan = λ p c w. (planned (call ∷ []), w);
  validate_plan = λ cs w. none;
  replan = λ p cs f n w. (planned [], w);
  runner = λ r w. (run_raised (plain ("TimeoutExpired" ∷ []) "timed out"), w);
  create_checkpoint = λ p w. (false, w);
  refresh_index = λ p w. w;
  verifier = none;
  judge = λ p ss v w. (none, w);
  dumps = λ d. "";
}

abbrev pub limits : Limits
limits = record { max_iterations = 3; max_replans = 2; max_retries = 1; max_reflections = none }

abbrev idle : Executor Disk
idle = record {
  patches = batch [];
  approver = record { staged = [] };
  paused = none;
  preview = true;
  staging_risks = [];
  current_prompt = "p";
  last_verification = none;
  last_completed = [];
  reflections = 0;
  world = begin;
}

abbrev state : PausedState
state = record {
  prompt = "p";
  pending = [];
  steps = [];
  events = [];
  completed_for_replan = [];
  replans_used = 0;
  iteration = 1;
}

-- A paused run with an edit and a command staged.
abbrev waiting : Executor Disk
waiting = record idle {
  patches = batch (edit "a.py" ∷ []);
  approver = record { staged = request ∷ [] };
  paused = some state;
}

approve-Answer_example :
    (a : Approved env limits) × (y : Executor Disk) × (approve env limits waiting ≡ some (a, y))
    × Answer env limits waiting a y
approve-Answer_example = approve-Answer env limits waiting

run-approve-return_example :
    ((a : Answered env limits × Executor Disk) × (run env limits "p" none idle ≡ some a))
    × ((a : Approved env limits × Executor Disk) × (approve env limits idle ≡ some a))
run-approve-return_example = run-approve-return env limits "p" none idle

execute-returns_example :
    (r : ExecutionReport × Executor Disk) × (execute env limits "p" (call ∷ []) [] [] [] 0 0 idle
      ≡ some r)
execute-returns_example = execute-returns env limits "p" (call ∷ []) [] [] [] 0 0 idle

execute-Concludes_example :
    (r : ExecutionReport) × (x : Executor Disk) × (conclude env limits
        (execute env limits "p" (call ∷ []) [] [] [] 0 0 idle)
      ≡ some (r, x))
    × Settled env limits r x
execute-Concludes_example = execute-Concludes env limits "p" (call ∷ []) [] [] [] 0 0 idle

reject-Rejected_example :
    (r : ExecutionReport) × (y : Executor Disk) × (reject env limits waiting ≡ (some r, y))
    × Rejected env limits state waiting r y
    × (approve env limits y ≡ some (nothing_paused, y))
    × (reject env limits y ≡ (none, y))
reject-Rejected_example = reject-Rejected env limits waiting state refl

-- The step that the call leaves, and the run paused behind it.
abbrev step : ExecutionStep
step = record {
  iteration = 1;
  tool_name = "edit_lines";
  kwargs = [];
  result = text "ok";
  error = none;
  summary = "'edit_lines' succeeded: ok";
  error_type = none;
}

abbrev log : List ProgressEvent
log =
    event executing_step 1 1 kind_executing
    ∷ event step_completed 1 1 kind_success
    ∷ event approval_awaited 1 1 kind_approval
    ∷ []

abbrev history : List CompletedCall
history = record { tool = "edit_lines"; arguments = []; result = text "ok" } ∷ []

abbrev paused_executor : Executor Disk
paused_executor = record waiting {
  staging_risks = "staged" ∷ [];
  last_completed = history;
  paused = some (record state { steps = step ∷ []; events = log; completed_for_replan = history });
}

abbrev report : ExecutionReport
report = report_of (step ∷ []) awaiting_approval 0 log

pausing : execute env limits "p" (call ∷ []) [] [] [] 0 0 idle ≡ some (report, paused_executor)
unfolding execute run_loop round round_on started take_step check_cancelled call_step use_outcome
    after_success absorb leave close check_awaiting_approval has_staged staged_count note_if_staged
    get_tool dispatch wrap summarize str len_text take_text text_of Changes.count
    Changes.has_pending Commands.has_pending
pausing = refl

execute-LoopEnd_example : LoopEnd env limits none report paused_executor
execute-LoopEnd_example =
    execute-LoopEnd env limits "p" (call ∷ []) [] [] [] 0 0 idle report paused_executor pausing

execute-budgets_example :
    (0 ≤ report.replans_used)
    × (report.replans_used ≤ limits.max_replans)
    × (length report.steps ≤ 0 + (limits.max_iterations - 0))
execute-budgets_example =
    execute-budgets env limits "p" (call ∷ []) [] [] [] 0 0 idle report paused_executor
      (omega arith) pausing
