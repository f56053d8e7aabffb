-- ===== src/Executor/Planning.antt =====
-- `run` and `_plan_with_retry`: the opening plan, and the loop behind it.
use pearl_ai.Executor.Finish.{is_cancelled, finish_or_pause}
use pearl_ai.Plan.{ToolCall}
use pearl_ai.Executor.Loop.{execute}
use pearl_ai.Executor.{
  report_of, plan_raised, Planned, Limits, Failure, Executor, Environment, event, planned,
}
use pearl_ai.Report.{
  task_failed, run_cancelled, kind_replanning, kind_planning, kind_failure, kind_cancelled,
  fatal_error, describe_planning_failure, ProgressEvent, ExecutionReport, cancelled, planning,
  reflect, replanning,
}
use pearl_ai.Python.{is_instance, Exception, message}
use pearl_ai.Base.{
  String, List, Option, [], false, if◌then◌else◌, none, set, some, take_text, true, ◌++◌, ◌+◌, ◌||◌,
  ◌∷◌,
}

-- What the planner is told about a plan that failed.
unfoldable pub malformed : Exception → Failure
unfolding message take_text
malformed exc = record {
  tool = "planning";
  arguments = none;
  error = take_text 400 (message exc);
  error_type = "validation";
  suggestion =
      some
        "Your previous plan was malformed or invalid. Return a fresh, correctly structured JSON plan.";
}

module _ (env : Environment) (limits : Limits) where
  open env use {files, plan, validate_plan}
  open files use {World}

  -- The second attempt. The events go with the plan.
  unfoldable pub plan_again :
      String → Exception → List ProgressEvent → World → Planned × List ProgressEvent × World
  unfolding malformed
  plan_again prompt exc events w =
      let (answer, w') = env.replan prompt [] (malformed exc) 0 w in
      (answer, events ++ event replanning 0 0 kind_replanning ∷ [], w')

  unfoldable pub retry_plan :
      Planned → String → List ProgressEvent → World → Planned × List ProgressEvent × World
  unfolding plan_again is_instance
  retry_plan (planned calls) prompt events w = (planned calls, events, w)
  retry_plan (plan_raised exc) prompt events w =
      if is_instance exc "LLMCancelled" || is_instance exc "AmbiguousRequestError"
      then (plan_raised exc, events, w)
      else plan_again prompt exc events w

  -- `_plan_with_retry`
  unfoldable pub plan_with_retry :
      String → String → List ProgressEvent → World → Planned × List ProgressEvent × World
  unfolding retry_plan
  plan_with_retry prompt context events w =
      let (answer, w') = plan prompt context w in retry_plan answer prompt events w'

  unfoldable pub opening_plan :
      Option (List ToolCall)
      → String
      → String
      → List ProgressEvent
      → World
      → Planned × List ProgressEvent × World
  unfolding plan_with_retry
  opening_plan none prompt context events w = plan_with_retry prompt context events w
  opening_plan (some calls) prompt context events w = elim (validate_plan calls w) [
    | none ↦ (planned calls, events, w)
    | some exc ↦ (plan_raised exc, events, w)
  ]

  -- How `run` ends: with a report, or refused because a run is paused.
  pub data Answered : Type 0 where
    reported : ExecutionReport → Answered
    already_paused : Answered

  -- A run that was cancelled before its first step.
  unfoldable pub cancelled_early : List ProgressEvent → ExecutionReport
  unfolding reflect
  cancelled_early events = record (report_of [] cancelled 0 events) {
    reflection = some (reflect [] cancelled 0);
  }

  abbrev pub cancel_event : ProgressEvent
  cancel_event = event run_cancelled 0 0 kind_cancelled

  unfoldable pub failed_plan : Exception → List ProgressEvent → ExecutionReport
  unfolding reflect describe_planning_failure
  failed_plan exc events =
      record (report_of [] fatal_error 1 (events ++ event task_failed 0 0 kind_failure ∷ [])) {
        error = some (describe_planning_failure exc);
        reflection = some (reflect [] fatal_error 1);
      }

  -- `_finish_or_pause` behind the loop.
  unfoldable pub conclude :
      Option (ExecutionReport × Executor World) → Option (ExecutionReport × Executor World)
  unfolding finish_or_pause
  conclude none = none
  conclude (some (report, x)) = finish_or_pause env limits (limits.max_replans + 1) report x

  unfoldable pub run_plan :
      Planned
      → String
      → List ProgressEvent
      → Executor World
      → Option (ExecutionReport × Executor World)
  unfolding conclude is_cancelled is_instance cancelled_early failed_plan execute
  run_plan (planned calls) prompt events x =
      conclude (execute env limits prompt calls [] events [] 0 0 x)
  run_plan (plan_raised exc) prompt events x =
      let (set, x1) = is_cancelled env limits x in
      if is_instance exc "LLMCancelled"
      then some (cancelled_early (if set then events ++ cancel_event ∷ [] else events), x1)
      else some (failed_plan exc events, record x { preview = false })

  -- What `run` resets before it plans.
  unfoldable pub fresh_run : String → Executor World → Executor World
  fresh_run prompt x = record x {
    current_prompt = prompt;
    reflections = 0;
    staging_risks = [];
    preview = true;
  }

  unfoldable pub start :
      String → Option (List ToolCall) → Executor World → Option (ExecutionReport × Executor World)
  unfolding run_plan opening_plan is_cancelled fresh_run cancelled_early
  start prompt initial x =
      let events = event planning 0 0 kind_planning ∷ [] in
      let (set, x1) = is_cancelled env limits (fresh_run prompt x) in
      let (context, w) = env.context prompt x1.world in
      let (answer, events2, w2) = opening_plan initial prompt context events w in
      if set
      then some (cancelled_early (events ++ cancel_event ∷ []), x1)
      else run_plan answer prompt events2 (record x1 { world = w2 })

  unfoldable pub run :
      String → Option (List ToolCall) → Executor World → Option (Answered × Executor World)
  unfolding start
  run prompt initial x = elim x.paused [
    | some s ↦ some (already_paused, x)
    | none ↦ elim (start prompt initial x) [
      | none ↦ none
      | some (report, y) ↦ some (reported report, y)
    ]
  ]
