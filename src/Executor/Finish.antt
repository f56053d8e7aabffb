-- ===== src/Executor/Finish.antt =====
-- The ends of a run: the teardown of `_finish_or_pause` with its way back into the loop, and a cancel
-- or a rejection of a paused run.
use pearl_ai.Executor.Loop.{execute}
use pearl_ai.Executor.{
  report_of, plan_raised, discard_staged, Planned, Limits, Failure, Executor, Environment, event,
  planned,
}
use pearl_ai.Report.{
  run_cancelled, kind_replanning, kind_cancelled, Verdict, StopReason, PausedState, ExecutionReport,
  cancelled, reflect, replanning,
}
use pearl_ai.Base.{
  Bool, Option, [], false, if◌then◌else◌, join, leb, length, ltb, none, not, set, some, str_eq, suc,
  text_of, true, zero, ℕ, ◌&&◌, ◌++◌, ◌+◌, ◌∷◌,
}

module _ {W : Type 0} where
  -- `set_active_patch_manager(None)` and `set_active_command_approver(None)`
  abbrev pub deactivate : Executor W → Executor W
  deactivate x = record x { preview = false }

  -- Both staging managers are emptied and taken out of use.
  unfoldable pub tear_down : Executor W → Executor W
  unfolding discard_staged
  tear_down x = deactivate (discard_staged x)

  unfoldable pub finalize_cancelled_while_paused :
      PausedState → Executor W → ExecutionReport × Executor W
  unfolding tear_down reflect
  finalize_cancelled_while_paused s x =
      let total = length s.steps in
      let report =
        report_of s.steps cancelled s.replans_used
          (s.events ++ event run_cancelled total total kind_cancelled ∷ []) in
      (record report { reflection = some (reflect s.steps cancelled s.replans_used) }, tear_down x)

  -- `ApprovalCoordinator.take_paused`
  unfoldable pub take_paused : Executor W → Option PausedState × Executor W
  take_paused x = (x.paused, record x { paused = none })

abbrev pub natural_end : StopReason → Bool
natural_end StopReason.completed = true
natural_end StopReason.max_iterations = true
natural_end StopReason.fatal_error = false
natural_end StopReason.cancelled = false
natural_end StopReason.awaiting_approval = false
natural_end StopReason.rejected = false

abbrev pub is_pause : StopReason → Bool
is_pause StopReason.awaiting_approval = true
is_pause StopReason.completed = false
is_pause StopReason.max_iterations = false
is_pause StopReason.fatal_error = false
is_pause StopReason.cancelled = false
is_pause StopReason.rejected = false

unfoldable pub should_replan : Verdict → Bool
should_replan verdict = str_eq verdict.status "replan"

-- What the planner is told about a run that was judged incomplete.
unfoldable pub incomplete : Verdict → Failure
unfolding text_of join
incomplete verdict =
    let listed = join "; " verdict.missing_requirements in
    let missing = if str_eq listed "" then verdict.reason else listed in
    record {
      tool = "reflection";
      arguments = none;
      error = text_of ("Task judged incomplete: " ∷ verdict.reason ∷ []);
      error_type = "incomplete_task";
      suggestion = some (
          text_of (
            "Address the remaining requirements: " ∷ missing
            ∷ ". Do not repeat steps already completed." ∷ []));
    }

module _ (env : Environment) (limits : Limits) where
  open env use {files, poll, judge}
  open files use {World}

  abbrev pub on_world : World → Executor World → Executor World
  on_world w x = record x { world = w }

  -- `is_cancelled()`
  unfoldable pub is_cancelled : Executor World → Bool × Executor World
  is_cancelled x = let (set, w) = poll x.world in (set, on_world w x)

  -- `exhausted` of the reflection engine.
  unfoldable pub exhausted : Executor World → Bool
  exhausted x = elim limits.max_reflections [ none ↦ true | some cap ↦ leb cap x.reflections ]

  -- `reflect` of the reflection engine, which counts its calls; `none` where it raises.
  unfoldable pub ask_judge : ExecutionReport → Executor World → Option Verdict × Executor World
  ask_judge report x =
      let (verdict, w) = judge x.current_prompt report.steps x.last_verification x.world in
      (verdict, record x { reflections = x.reflections + 1; world = w })

  -- The structured reflection of a run that ended by itself and is not cancelled.
  unfoldable pub reflected : ExecutionReport → Executor World → Option Verdict × Executor World
  unfolding is_cancelled ask_judge
  reflected report x = elim limits.max_reflections [
    | none ↦ (none, x)
    | some cap ↦
        let (set, x1) = is_cancelled x in
        if natural_end report.stop_reason
        then (if set then (none, x1) else ask_judge report x1)
        else (none, x)
  ]

  -- Whether a verdict leads back into the loop; the cancel event is read last.
  unfoldable pub goes_back : ExecutionReport → Verdict → Executor World → Bool × Executor World
  unfolding is_cancelled should_replan exhausted
  goes_back report verdict x =
      let (set, x1) = is_cancelled x in
      if should_replan verdict && (ltb report.replans_used limits.max_replans && not (exhausted x))
      then (not set, x1)
      else (false, x)

  -- How `_replan_from_reflection` ends: no revised plan, or the report of the resumed loop.
  pub data Resumed : Type 0 where
    as_is : ExecutionReport → Executor World → Resumed
    resumed : ExecutionReport → Executor World → Resumed

  unfoldable pub resume_with : Planned → ExecutionReport → Executor World → Option Resumed
  unfolding execute
  resume_with (plan_raised exc) report x = some (as_is report x)
  resume_with (planned []) report x = some (as_is report x)
  resume_with (planned (call ∷ calls)) report x =
      elim (execute env limits x.current_prompt (call ∷ calls) report.steps report.events
        x.last_completed (report.replans_used + 1) (length report.steps)
        (record x { preview = true })) [ none ↦ none | some (next, y) ↦ some (resumed next y) ]

  unfoldable pub replan_from_reflection :
      ExecutionReport → Verdict → Executor World → Option Resumed
  unfolding resume_with incomplete
  replan_from_reflection report verdict x =
      let total = length report.steps in
      let (answer, w) =
        env.replan x.current_prompt x.last_completed (incomplete verdict) 0 x.world in
      resume_with answer
        (record report {
          events = report.events ++ event replanning total total kind_replanning ∷ [];
        })
        (on_world w x)

  -- The terminal path.
  unfoldable pub settle : ExecutionReport → Executor World → ExecutionReport × Executor World
  unfolding tear_down reflect
  settle report x = (
    record report {
      reflection = some (reflect report.steps report.stop_reason report.replans_used);
    },
    tear_down x,
  )

  -- The fuel is the number of replans that reflection may still ask for, and one.
  unfoldable pub finish_or_pause :
      ℕ → ExecutionReport → Executor World → Option (ExecutionReport × Executor World)
  unfolding settle reflected goes_back replan_from_reflection
  finish_or_pause zero report x = none
  finish_or_pause (suc fuel) report x =
      let (verdict, x1) = reflected report x in
      if is_pause report.stop_reason then some (report, x) else elim verdict [
        | none ↦ some (settle report x1)
        | some v ↦
            let judged = record report { llm_reflection = some v } in
            let (back, x2) = goes_back judged v x1 in
            if back
            then elim (replan_from_reflection judged v x2) [
              | none ↦ none
              | some (as_is r y) ↦ some (settle r y)
              | some (resumed r y) ↦ finish_or_pause fuel r y
            ]
            else some (settle judged x2)
      ]
