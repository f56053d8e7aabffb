-- ===== src/Executor/Returns.antt =====
-- Every entry point returns: the fuel of the loop and that of the way back into it are enough.
use pearl_ai.Executor.Approval.{
  write_approved, run_commands, approve_paused, after_commands, after_apply, Approved, approve,
  reported, resume, backfill, backfill_history, verify_with, note_event, refresh_all,
}
use pearl_ai.Executor.Planning.{run_plan, fresh_run, Answered, conclude, run, start, opening_plan}
use pearl_ai.Plan.{ToolCall}
use pearl_ai.Python.{is_instance}
use pearl_ai.Executor.Finish.{is_cancelled}
use pearl_ai.Executor.{plan_raised, Planned, Limits, Executor, Environment, planned, event}
use pearl_ai.Report.{
  ExecutionReport, CompletedCall, ExecutionStep, PausedState, ProgressEvent, kind_planning,
  planning, checkpoint_created, kind_checkpoint,
}
use pearl_ai.Changes
use pearl_ai.Commands
use pearl_ai.Executor.Loop.{execute}
use pearl_ai.Executor.Settles.{execute-Concludes}
use pearl_ai.Base.{
  Option, [], inl, inr, refl, some, ℕ, ◌∷◌, ◌≡◌, Bool-cases, Option-cases, List, String, is_empty,
  none, set, if◌then◌else◌,
}

-- A result that was computed in time.
abbrev Returns : {A : Type 0} → Option A → Type 0
Returns {A} o = (a : A) × (o ≡ some a)

module _ (env : Environment) (limits : Limits) where
  open env use {files}
  open files use {World}

  execute-concludes :
      (prompt : String) (pending : List ToolCall) (steps : List ExecutionStep)
      (events : List ProgressEvent) (history : List CompletedCall) (n i : ℕ) (x : Executor World)
      → Returns (conclude env limits (execute env limits prompt pending steps events history n i x))
  execute-concludes prompt pending steps events history n i x =
      let (r, y, e, k) = execute-Concludes env limits prompt pending steps events history n i x in
      ((r, y), e)

  run_plan-Returns :
      (answer : Planned) (prompt : String) (events : List ProgressEvent) (x : Executor World)
      → Returns (run_plan env limits answer prompt events x)
  unfolding run_plan
  run_plan-Returns (planned calls) prompt events x =
      execute-concludes prompt calls [] events [] 0 0 x
  run_plan-Returns (plan_raised exc) prompt events x =
      elim (Bool-cases (is_instance exc "LLMCancelled")) [
        | inl b ↦ rw b (_, refl)
        | inr b ↦ rw b (_, refl)
      ]

  start-Returns :
      (prompt : String) (initial : Option (List ToolCall)) (x : Executor World)
      → Returns (start env limits prompt initial x)
  unfolding start
  start-Returns prompt initial x =
      let (set, x1) = is_cancelled env limits (fresh_run env limits prompt x) in
      let (context, w) = env.context prompt x1.world in
      let (answer, events, w2) =
        opening_plan env limits initial prompt context (event planning 0 0 kind_planning ∷ []) w in
      elim (Bool-cases set) [
        | inl b ↦ rw (b, start) (_, refl)
        | inr b ↦ rw (b, start) (run_plan-Returns answer prompt events (record x1 { world = w2 }))
      ]

  run-Returns :
      (prompt : String) (initial : Option (List ToolCall)) (x : Executor World)
      → Returns (run env limits prompt initial x)
  unfolding run
  run-Returns prompt initial x = elim (Option-cases x.paused) [
    | inr (s, e) ↦ rw (e, run) (_, refl)
    | inl e ↦ let ((r, y), f) = start-Returns prompt initial x in rw (e, f, run) (_, refl)
  ]

  reported-Returns :
      (o : Option (ExecutionReport × Executor World)) → Returns o → Returns (reported env limits o)
  reported-Returns o ((r, x), e) = rw e (_, refl)

  resume-Returns :
      (s : PausedState) (x : Executor World) → Returns (reported env limits (resume env limits s x))
  unfolding resume
  resume-Returns s x = reported-Returns _ (execute-concludes _ _ _ _ _ _ _ _)

  after_commands-Returns :
      (result : Commands.Ran) (paths : List String) (s : PausedState) (x : Executor World)
      → Returns (after_commands env limits result paths s x)
  unfolding after_commands
  after_commands-Returns (Commands.all_ran cs) paths s x =
      let s1 = record s {
        steps = backfill s.steps cs;
        completed_for_replan = backfill_history s.completed_for_replan cs;
      } in
      let (s2, x2) = verify_with env limits env.verifier paths s1 x in resume-Returns s2 x2
  after_commands-Returns (Commands.one_raised exc) paths s x =
      let (s2, x2) = verify_with env limits env.verifier paths s x in
      elim (Bool-cases (is_instance exc "CalledProcessError")) [
        | inl b ↦ rw b (resume-Returns s2 x2)
        | inr b ↦ rw b (_, refl)
      ]

  run_commands-Returns :
      (paths : List String) (s : PausedState) (x : Executor World)
      → Returns (run_commands env limits paths s x)
  unfolding run_commands
  run_commands-Returns paths s x =
      let (result, approver, w) =
        Commands.approve_all env.runner x.approver (refresh_all env limits paths x.world) in
      after_commands-Returns result paths s (record x { approver = approver; world = w })

  after_apply-Returns :
      (result : Changes.Applied) (s : PausedState) (x : Executor World)
      → Returns (after_apply env limits result s x)
  unfolding after_apply
  after_apply-Returns (Changes.applied paths) s x = run_commands-Returns paths s x
  after_apply-Returns (Changes.stale paths) s x = (_, refl)
  after_apply-Returns (Changes.failed exc lost) s x = (_, refl)

  write_approved-Returns :
      (s : PausedState) (x : Executor World) → Returns (write_approved env limits s x)
  unfolding write_approved
  write_approved-Returns s x =
      let (made, w) = env.create_checkpoint s.prompt x.world in
      let s1 = if made then note_event checkpoint_created kind_checkpoint s else s in
      let (result, patches, w2) = Changes.apply_all files x.patches w in
      after_apply-Returns result s1 (record x { patches = patches; world = w2 })

  approve_paused-Returns :
      (p : Option PausedState) (x : Executor World) → Returns (approve_paused env limits p x)
  unfolding approve_paused
  approve_paused-Returns none x = (_, refl)
  approve_paused-Returns (some s) x =
      let (set, x1) = is_cancelled env limits (record x { paused = none }) in
      elim (Bool-cases set) [
        | inl b ↦ rw (b, approve_paused) (_, refl)
        | inr b ↦ rw (b, approve_paused) (write_approved-Returns s x1)
      ]

  approve-Returns : (x : Executor World) → Returns (approve env limits x)
  unfolding approve
  approve-Returns x = elim (Bool-cases (is_empty (Changes.stale_paths files x.patches x.world))) [
    | inl b ↦ rw b (approve_paused-Returns x.paused x)
    | inr b ↦ rw b (_, refl)
  ]

  -- Whatever the planner, the model, the tools and the other threads do, `run` and `approve` come to an
  -- end, with a report or with one of the exceptions that they raise.
  pub run-approve-return :
      (prompt : String) (initial : Option (List ToolCall)) (x : Executor World)
      → ((a : Answered env limits × Executor World) × (run env limits prompt initial x ≡ some a))
        × ((a : Approved env limits × Executor World) × (approve env limits x ≡ some a))
  run-approve-return prompt initial x = (run-Returns prompt initial x, approve-Returns x)
