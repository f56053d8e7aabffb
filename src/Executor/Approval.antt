-- ===== src/Executor/Approval.antt =====
-- `approve` and `reject`: what an answer to a paused run does.
use pearl_ai.Executor.Finish.{tear_down, is_cancelled, finalize_cancelled_while_paused}
use pearl_ai.Executor.{
  report_of, plan_raised, Verification, Planned, Limits, Failure, Executor, Environment, event,
  planned,
}
use pearl_ai.Commands.{ReturnCode, Completed, exited, signalled}
use pearl_ai.Report.{
  run_rejected, kind_replanning, kind_rejected, kind_checkpoint, checkpoint_created, ProgressStatus,
  PausedState, ExecutionStep, ExecutionReport, EventKind, CompletedCall, rejected, replanning,
  summarize,
}
use pearl_ai.Python.{is_instance, Value, Exception, null, object, text}
use pearl_ai.Changes
use pearl_ai.Commands
use pearl_ai.Executor.Planning.{conclude}
use pearl_ai.Executor.Loop.{execute}
use pearl_ai.Base.{
  String, Bool, List, Option, [], false, if◌then◌else◌, is_empty, join, last_few, length, ltb, none,
  set, show_nat, some, starts_with, str_eq, strip, take_text, text_of, true, ℕ, ◌&&◌, ◌++◌, ◌+◌,
  ◌∷◌,
}

-- The start of a result that stands for a command that has not run yet.
abbrev pub staged_command_prefix : String
staged_command_prefix = "Command staged for approval:"

unfoldable pub is_placeholder : Value → Bool
unfolding starts_with
is_placeholder null = false
is_placeholder (text s) = starts_with s staged_command_prefix
is_placeholder (object shown) = false

unfoldable pub show_return_code : ReturnCode → String
unfolding show_nat text_of
show_return_code (exited n) = show_nat n
show_return_code (signalled n) = text_of ("-" ∷ show_nat n ∷ [])

-- `cmd_result.stdout.strip() or f"(exit {cmd_result.returncode})"`
unfoldable pub real_output : Completed → String
unfolding strip show_return_code text_of
real_output c =
    let out = strip c.stdout in
    if str_eq out "" then text_of ("(exit " ∷ show_return_code c.returncode ∷ ")" ∷ []) else out

abbrev pub with_result : ExecutionStep → String → ExecutionStep
with_result s out = record s { result = text out; summary = summarize s.tool_name (text out) }

-- The placeholders in the steps, replaced in order while results are left.
unfoldable pub backfill : List ExecutionStep → List Completed → List ExecutionStep
unfolding is_placeholder real_output summarize
backfill [] cs = []
backfill (s ∷ ss) [] = s ∷ ss
backfill (s ∷ ss) (c ∷ cs) =
    let used = backfill ss cs in
    let kept = backfill ss (c ∷ cs) in
    if is_placeholder s.result then with_result s (real_output c) ∷ used else s ∷ kept

-- The same for the history.
unfoldable pub backfill_history : List CompletedCall → List Completed → List CompletedCall
unfolding is_placeholder real_output
backfill_history [] cs = []
backfill_history (h ∷ hs) [] = h ∷ hs
backfill_history (h ∷ hs) (c ∷ cs) =
    let used = backfill_history hs cs in
    let kept = backfill_history hs (c ∷ cs) in
    if is_placeholder h.result then record h { result = text (real_output c) } ∷ used else h ∷ kept

-- What the planner is told about tests that fail behind a batch.
unfoldable pub tests_failing : Verification → Failure
unfolding text_of take_text join show_nat
tests_failing vr = record {
  tool = "run_tests";
  arguments = none;
  error = text_of (
      show_nat vr.tests_failed
      ∷ " test(s) failed after applying changes.\n"
      ∷ take_text 600 (join "\n" (last_few 5 vr.evidence))
      ∷ []);
  error_type = "test_failure";
  suggestion = some "Fix the failing tests. Do not repeat steps already completed.";
}

abbrev pub running_total : PausedState → ℕ
running_total s = s.iteration + length s.pending

abbrev pub note_event : ProgressStatus → EventKind → PausedState → PausedState
note_event status action s = record s {
  events = s.events ++ event status s.iteration (running_total s) action ∷ [];
}

module _ (env : Environment) (limits : Limits) where
  open env use {files, runner, create_checkpoint, refresh_index}
  open files use {World}

  unfoldable pub refresh_all : List String → World → World
  refresh_all [] w = w
  refresh_all (p ∷ ps) w = refresh_all ps (refresh_index p w)

  -- The answer of the planner to failing tests; an error leaves the rest of the plan as it was.
  unfoldable pub revise : Planned → PausedState → PausedState
  revise (planned calls) s = record s { pending = calls; replans_used = s.replans_used + 1 }
  revise (plan_raised exc) s = s

  unfoldable pub replan_for_tests :
      Verification → PausedState → Executor World → PausedState × Executor World
  unfolding revise tests_failing
  replan_for_tests vr s x =
      let s1 = note_event replanning kind_replanning s in
      let (answer, w) = env.replan s.prompt s.completed_for_replan (tests_failing vr) 0 x.world in
      (revise answer s1, record x { world = w })

  -- The cancel event is read only if tests fail and a replan is left.
  unfoldable pub after_verify :
      Verification → PausedState → Executor World → PausedState × Executor World
  unfolding replan_for_tests is_cancelled
  after_verify vr s x =
      let (set, x1) = is_cancelled env limits x in
      if ltb 0 vr.tests_failed && ltb s.replans_used limits.max_replans
      then (if set then (s, x1) else replan_for_tests vr s x1)
      else (s, x)

  unfoldable pub verify_with :
      Option (List String → World → Verification × World)
      → List String
      → PausedState
      → Executor World
      → PausedState × Executor World
  unfolding after_verify
  verify_with none paths s x = (s, x)
  verify_with (some verify) [] s x = (s, x)
  verify_with (some verify) (p ∷ ps) s x =
      let (vr, w) = verify (p ∷ ps) x.world in
      after_verify vr s (record x { last_verification = some vr; world = w })

  -- The rest of the run that was paused.
  unfoldable pub resume : PausedState → Executor World → Option (ExecutionReport × Executor World)
  unfolding conclude execute
  resume s x = conclude env limits (
      execute env limits s.prompt s.pending s.steps s.events s.completed_for_replan s.replans_used
        s.iteration (record x { preview = true }))

  -- How `approve` ends: a report, or one of the exceptions that it raises.
  pub data Approved : Type 0 where
    approved : ExecutionReport → Approved
    nothing_paused : Approved
    stale_files : List String → Approved
    apply_failed : Exception → (lost : List String) → Approved
    command_failed : Exception → Approved

  abbrev pub reported :
      Option (ExecutionReport × Executor World) → Option (Approved × Executor World)
  reported none = none
  reported (some (report, x)) = some (approved report, x)

  -- The results of the commands: none of them where one left with a code that is not 0.
  unfoldable pub after_commands :
      Commands.Ran → List String → PausedState → Executor World → Option (Approved × Executor World)
  unfolding verify_with resume backfill backfill_history is_instance
  after_commands (Commands.all_ran results) paths s x =
      let s1 = record s {
        steps = backfill s.steps results;
        completed_for_replan = backfill_history s.completed_for_replan results;
      } in
      let (s2, x2) = verify_with env.verifier paths s1 x in reported (resume s2 x2)
  after_commands (Commands.one_raised exc) paths s x =
      let (s2, x2) = verify_with env.verifier paths s x in
      if is_instance exc "CalledProcessError"
      then reported (resume s2 x2)
      else some (command_failed exc, x)

  unfoldable pub run_commands :
      List String → PausedState → Executor World → Option (Approved × Executor World)
  unfolding after_commands refresh_all Commands.approve_all
  run_commands paths s x =
      let (result, approver, w) =
        Commands.approve_all runner x.approver (refresh_all paths x.world) in
      after_commands result paths s (record x { approver = approver; world = w })

  unfoldable pub after_apply :
      Changes.Applied → PausedState → Executor World → Option (Approved × Executor World)
  unfolding run_commands
  after_apply (Changes.applied paths) s x = run_commands paths s x
  after_apply (Changes.stale paths) s x = some (stale_files paths, record x { paused = some s })
  after_apply (Changes.failed exc lost) s x =
      some (apply_failed exc lost, record x { paused = some s })

  -- The writes of an approval, with the checkpoint before them.
  unfoldable pub write_approved : PausedState → Executor World → Option (Approved × Executor World)
  unfolding after_apply Changes.apply_all
  write_approved s x =
      let (made, w) = create_checkpoint s.prompt x.world in
      let s1 = if made then note_event checkpoint_created kind_checkpoint s else s in
      let (result, patches, w2) = Changes.apply_all files x.patches w in
      after_apply result s1 (record x { patches = patches; world = w2 })

  -- The paused state is taken off before anything else.
  unfoldable pub approve_paused :
      Option PausedState → Executor World → Option (Approved × Executor World)
  unfolding write_approved finalize_cancelled_while_paused is_cancelled
  approve_paused none x = some (nothing_paused, x)
  approve_paused (some s) x =
      let (set, x1) = is_cancelled env limits (record x { paused = none }) in
      let (report, x2) = finalize_cancelled_while_paused s x1 in
      if set then some (approved report, x2) else write_approved s x1

  unfoldable pub approve : Executor World → Option (Approved × Executor World)
  unfolding approve_paused Changes.stale_paths
  approve x =
      let changed = Changes.stale_paths files x.patches x.world in
      if is_empty changed then approve_paused x.paused x else some (stale_files changed, x)

  -- `reject`; `none` where nothing is paused.
  unfoldable pub reject_paused :
      Option PausedState → Executor World → Option ExecutionReport × Executor World
  unfolding finalize_cancelled_while_paused is_cancelled tear_down
  reject_paused none x = (none, x)
  reject_paused (some s) x =
      let total = length s.steps in
      let (set, x1) = is_cancelled env limits (record x { paused = none }) in
      let (report, x2) = finalize_cancelled_while_paused s x1 in
      if set then (some report, x2) else (
        some (
            report_of s.steps rejected s.replans_used
              (s.events ++ event run_rejected total total kind_rejected ∷ [])),
        tear_down x1,
      )

  unfoldable pub reject : Executor World → Option ExecutionReport × Executor World
  unfolding reject_paused
  reject x = reject_paused x.paused x
