-- ===== src/Executor/Loop.antt =====
-- The loop of `_execute`: one round is a function of the loop's variables, with the whole handler of a
-- failed step; the loop itself takes fuel.
mod Cases
pub mod Terminates
pub mod Counts
pub mod Outcomes
use pearl_ai.Plan.{ToolCall}
use pearl_ai.Report.{
  StopReason, ProgressStatus, ProgressEvent, PausedState, ExecutionStep, ExecutionReport, EventKind,
  CompletedCall, executing_step, kind_cancelled, kind_completed, kind_executing, kind_failure,
  kind_replanning, kind_success, kind_warning, max_iterations, replanning, run_cancelled,
  step_completed, step_failed, step_retrying, summarize, summarize_failure, task_completed,
  task_failed,
}
use pearl_ai.Python.{Value, Exception, is_instance, message, null}
use pearl_ai.Retry.{is_transient_error, classify_error, ErrorType}
use pearl_ai.Tools.{dispatch, ToolRun, raised, returned, Outcome}
use pearl_ai.Executor.{
  Environment, Executor, Limits, Planned, check_awaiting_approval, event, note_if_staged,
  plan_raised, planned, recovery_suggestion, report_of, staged_count,
}
use pearl_ai.Base.{
  String, Bool, List, Option, [], false, if◌then◌else◌, leb, length, ltb, none, set, some, str_eq,
  suc, true, zero, ℕ, ◌&&◌, ◌*◌, ◌++◌, ◌+◌, ◌-◌, ◌==◌, ◌∷◌,
}

-- The variables of the loop, and the executor that it changes.
pub record Vars (W : Type 0) : Type 0 where
  pub prompt : String
  pub pending : List ToolCall
  pub steps : List ExecutionStep
  pub events : List ProgressEvent
  pub completed : List CompletedCall
  pub replans_used : ℕ
  pub iteration : ℕ
  -- `_retry_counts`, by object identity
  pub retry_counts : List (ℕ × ℕ)
  -- `_failed_action_counts`, by tool name and serialised arguments
  pub failed_actions : List (String × String × ℕ)
  pub self : Executor W

pub data Round (W : Type 0) : Type 0 where
  again : Vars W → Round W
  stop : ExecutionReport → Executor W → Round W

-- `d.get(k, 0)` and `d[k] = n` of the two counters.
unfoldable pub retries_of : List (ℕ × ℕ) → ℕ → ℕ
retries_of [] k = 0
retries_of ((j, n) ∷ d) k = if j == k then n else retries_of d k

unfoldable pub set_retries : ℕ → ℕ → List (ℕ × ℕ) → List (ℕ × ℕ)
set_retries k n [] = (k, n) ∷ []
set_retries k n ((j, m) ∷ d) = if j == k then (k, n) ∷ d else (j, m) ∷ set_retries k n d

unfoldable pub failures_of : List (String × String × ℕ) → String → String → ℕ
failures_of [] tool args = 0
failures_of ((t, a, n) ∷ d) tool args =
    if str_eq t tool
    then (if str_eq a args then n else failures_of d tool args)
    else failures_of d tool args

unfoldable pub set_failures :
    String → String → ℕ → List (String × String × ℕ) → List (String × String × ℕ)
set_failures tool args n [] = (tool, args, n) ∷ []
set_failures tool args n ((t, a, m) ∷ d) =
    let rest = (t, a, m) ∷ set_failures tool args n d in
    if str_eq t tool then (if str_eq a args then (tool, args, n) ∷ d else rest) else rest

unfoldable pub error_name : ErrorType → String
error_name ErrorType.transient = "transient"
error_name ErrorType.validation = "validation"
error_name ErrorType.fatal = "fatal"

module _ (env : Environment) (limits : Limits) where
  open env use {files, poll, call_tool}
  open files use {World}

  abbrev pub emit : ProgressStatus → ℕ → ℕ → EventKind → Vars World → Vars World
  emit status current total action v = record v {
    events = v.events ++ event status current total action ∷ [];
  }

  abbrev pub paused_state : Vars World → PausedState
  paused_state v = record {
    prompt = v.prompt;
    pending = v.pending;
    steps = v.steps;
    events = v.events;
    completed_for_replan = v.completed;
    replans_used = v.replans_used;
    iteration = v.iteration;
  }

  -- The executor with the history that `_finish_or_pause` reads.
  abbrev pub shared : Vars World → Executor World
  shared v = record v.self { last_completed = v.completed }

  abbrev pub finish : StopReason → Vars World → Round World
  finish reason v = stop (report_of v.steps reason v.replans_used v.events) (shared v)

  -- Every end of the loop but cancellation: a pause if something is staged, else the final event.
  unfoldable pub close : StopReason → ProgressStatus → EventKind → Vars World → Round World
  unfolding check_awaiting_approval
  close reason status action v =
      let (awaiting, self) = check_awaiting_approval (paused_state v) (shared v) in
      elim awaiting [
        | some report ↦ stop report self
        | none ↦ finish reason (emit status (length v.steps) (length v.steps) action v)
      ]

  abbrev pub give_up : StopReason → Vars World → Round World
  give_up reason v = close reason task_failed kind_failure v

  -- `_check_cancelled`: the read of the event, and the final progress event if it is set.
  unfoldable pub check_cancelled : Vars World → Bool × Vars World
  check_cancelled v =
      let (set, w) = poll v.self.world in
      let v' = record v { self = record v.self { world = w } } in
      if set
      then (true, emit run_cancelled (length v.steps) (length v.steps) kind_cancelled v')
      else (false, v')

  -- The retry of a transient error: the call goes back to the front, at no cost in iterations.
  unfoldable pub after_retry : ToolCall → Vars World → Vars World
  unfolding set_retries retries_of
  after_retry call v =
      let count = retries_of v.retry_counts call.object_id in
      let pending = call ∷ v.pending in
      let iteration = v.iteration - 1 in
      emit step_retrying iteration (iteration + length pending) kind_warning (record v {
        retry_counts = set_retries call.object_id (count + 1) v.retry_counts;
        pending = pending;
        iteration = iteration;
      })

  abbrev pub failed_step : ToolCall → Exception → ℕ → ExecutionStep
  failed_step call exc iteration = record {
    iteration = iteration;
    tool_name = call.tool_name;
    kwargs = call.kwargs;
    result = null;
    error = some (message exc);
    summary = summarize_failure call.tool_name (message exc);
    error_type = some (classify_error exc);
  }

  -- How often this call has now failed for good, counting this time.
  unfoldable pub failure_count : ToolCall → Vars World → ℕ
  unfolding failures_of
  failure_count call v = failures_of v.failed_actions call.tool_name (env.dumps call.kwargs) + 1

  -- A step that failed for good: recorded and counted.
  unfoldable pub after_failure : ToolCall → Exception → Vars World → Vars World
  unfolding failure_count set_failures summarize_failure classify_error message
  after_failure call exc v =
      emit step_failed v.iteration (v.iteration + length v.pending) kind_warning (record v {
        steps = v.steps ++ failed_step call exc v.iteration ∷ [];
        failed_actions =
            set_failures call.tool_name (env.dumps call.kwargs) (failure_count call v)
              v.failed_actions;
      })

  -- The question to the planner, and its answer.
  unfoldable pub ask : ToolCall → Exception → Vars World → Planned × Vars World
  unfolding recovery_suggestion classify_error error_name message
  ask call exc v =
      let (answer, w) =
        env.replan v.prompt v.completed
          (record {
            tool = call.tool_name;
            arguments = some call.kwargs;
            error = message exc;
            error_type = error_name (classify_error exc);
            suggestion = recovery_suggestion call.tool_name exc;
          })
          (v.replans_used + 1) v.self.world in
      (
        answer,
        emit replanning v.iteration (v.iteration + length v.pending) kind_replanning
            (record v { self = record v.self { world = w } }),
      )

  unfoldable pub after_replan : List ToolCall → Vars World → Vars World
  after_replan calls v = record v { replans_used = v.replans_used + 1; pending = calls }

  unfoldable pub use_answer : Planned → Vars World → Round World
  unfolding check_cancelled close is_instance after_replan
  use_answer (planned calls) v = again (after_replan calls v)
  use_answer (plan_raised exc) v =
      if is_instance exc "LLMCancelled"
      then finish StopReason.cancelled (check_cancelled v).1
      else give_up StopReason.fatal_error v

  unfoldable pub ask_replan : ToolCall → Exception → Vars World → Round World
  unfolding check_cancelled use_answer ask
  ask_replan call exc v =
      let (set, v1) = check_cancelled v in
      let (answer, v2) = ask call exc v1 in
      if set then finish StopReason.cancelled v1 else use_answer answer v2

  -- The abort of a repeated action, the replan budget, or a replan; `v` has the failure counted.
  unfoldable pub recover : ToolCall → Exception → ℕ → Vars World → Round World
  unfolding ask_replan close
  recover call exc count v =
      if leb 2 count
      then give_up StopReason.fatal_error v
      else if leb limits.max_replans v.replans_used
      then give_up StopReason.fatal_error v
      else ask_replan call exc v

  -- The handler `except Exception as exc`.
  unfoldable pub handle_error : ToolCall → Exception → Vars World → Round World
  unfolding after_retry retries_of recover after_failure is_transient_error
  handle_error call exc v =
      if is_transient_error exc && ltb (retries_of v.retry_counts call.object_id) limits.max_retries
      then again (after_retry call v)
      else recover call exc (failure_count call v) (after_failure call exc v)

  abbrev pub done_step : ToolCall → Value → ℕ → ExecutionStep
  done_step call result iteration = record {
    iteration = iteration;
    tool_name = call.tool_name;
    kwargs = call.kwargs;
    result = result;
    error = none;
    summary = summarize call.tool_name result;
    error_type = none;
  }

  -- A tool that returned: its risk is noted if `before` items were staged and more are now, and the
  -- step is recorded.
  unfoldable pub after_success : ToolCall → Value → ℕ → Vars World → Vars World
  unfolding summarize note_if_staged
  after_success call result before v =
      emit step_completed v.iteration (v.iteration + length v.pending) kind_success (record v {
        self = note_if_staged env.tools call.tool_name before v.self;
        steps = v.steps ++ done_step call result v.iteration ∷ [];
        completed =
            v.completed
            ++ record { tool = call.tool_name; arguments = call.kwargs; result = result } ∷ [];
      })

  -- What a tool call staged, whether it returned or raised.
  unfoldable pub absorb : ToolRun World → Executor World → Executor World
  absorb run x = record x {
    patches = record x.patches { edits = x.patches.edits ++ run.edits };
    approver = record x.approver { staged = x.approver.staged ++ run.commands };
    world = run.world;
  }

  -- The event of the step and the call of its tool.
  unfoldable pub call_step : ToolCall → Vars World → Outcome × Vars World
  unfolding dispatch absorb
  call_step call v =
      let run = dispatch env.tools call_tool call v.self.world in
      (
        run.outcome,
        emit executing_step v.iteration (v.iteration + length v.pending) kind_executing
            (record v { self = absorb run v.self }),
      )

  unfoldable pub use_outcome : ToolCall → Outcome → ℕ → Vars World → Round World
  unfolding handle_error after_success
  use_outcome call (returned result) before v = again (after_success call result before v)
  use_outcome call (raised exc) before v = handle_error call exc v

  -- The step for "none", which ends the loop.
  abbrev pub none_step : ToolCall → ℕ → ExecutionStep
  none_step call iteration = record {
    iteration = iteration;
    tool_name = call.tool_name;
    kwargs = call.kwargs;
    result = null;
    error = none;
    summary = "No tool needed; task complete.";
    error_type = none;
  }

  unfoldable pub leave : Vars World → Round World
  unfolding close
  leave v = close StopReason.completed task_completed kind_completed v

  -- `iteration += 1` and `pending.pop(0)`.
  unfoldable pub started : List ToolCall → Vars World → Vars World
  started rest v = record v { iteration = v.iteration + 1; pending = rest }

  unfoldable pub after_none : ToolCall → Vars World → Vars World
  after_none call v = record v { steps = v.steps ++ none_step call v.iteration ∷ [] }

  -- The rest of a round for `call`, which `started` took off the plan.
  unfoldable pub take_step : ToolCall → Vars World → Round World
  unfolding call_step use_outcome leave check_cancelled close after_none staged_count
  take_step call v =
      let (set, v1) = check_cancelled v in
      let (outcome, v2) = call_step call v1 in
      if ltb limits.max_iterations v.iteration
      then give_up StopReason.max_iterations (record v { pending = call ∷ v.pending })
      else if str_eq call.tool_name "none"
      then leave (after_none call v)
      else if set
      then finish StopReason.cancelled v1
      else use_outcome call outcome (staged_count v1.self) v2

  -- One round of `while pending`.
  unfoldable pub round_on : List ToolCall → Vars World → Round World
  round_on [] v = leave v
  round_on (call ∷ rest) v = take_step call (started rest v)

  unfoldable pub round : Vars World → Round World
  unfolding round_on take_step leave started
  round v = round_on v.pending v

  unfoldable pub run_loop : ℕ → Vars World → Option (ExecutionReport × Executor World)
  run_loop zero v = none
  run_loop (suc fuel) v = elim (round v) [
    | again v' ↦ run_loop fuel v'
    | stop report self ↦ some (report, self)
  ]

  -- The rounds that the loop can make from `iteration`: each iteration left is one round and up to
  -- `max_retries` more, and so is the call at the front.
  abbrev pub enough_fuel : ℕ → ℕ
  enough_fuel iteration =
      (limits.max_iterations + 1 - iteration) * (limits.max_retries + 1) + limits.max_retries + 1

  -- `_execute`: both counters start empty.
  unfoldable pub execute :
      String
      → List ToolCall
      → List ExecutionStep
      → List ProgressEvent
      → List CompletedCall
      → ℕ
      → ℕ
      → Executor World
      → Option (ExecutionReport × Executor World)
  execute prompt pending steps events completed replans_used iteration self =
      run_loop (enough_fuel iteration) (record {
        prompt = prompt;
        pending = pending;
        steps = steps;
        events = events;
        completed = completed;
        replans_used = replans_used;
        iteration = iteration;
        retry_counts = [];
        failed_actions = [];
        self = self;
      })
