-- ===== src/Executor/Answers.antt =====
-- The approval gate: how an approval and a rejection answer a paused run.
use pearl_ai.Executor.Finish.{is_cancelled}
use pearl_ai.Python.{is_instance}
use pearl_ai.Changes.Files.{FileSystem}
use pearl_ai.Executor.Approval.{
  stale_files, nothing_paused, command_failed, apply_failed, Approved, approved, after_apply,
  after_commands, approve, approve_paused, backfill, backfill_history, note_event, refresh_all,
  reported, resume, run_commands, verify_with, write_approved,
}
use pearl_ai.Changes.{ChangeManager}
use pearl_ai.Executor.{Limits, Executor, Environment}
use pearl_ai.Commands.{ShellCommandRequest, RunOutcome, CommandApprovalManager}
use pearl_ai.Report.{PausedState, checkpoint_created, kind_checkpoint}
use pearl_ai.Changes
use pearl_ai.Commands
use pearl_ai.Executor.Settles.{Settled, execute-Concludes, settled, tear_down-Released}
use pearl_ai.Changes.Writes.{apply_all-Ending, nothing, changed, unread, written}
use pearl_ai.Base.{
  String, Dict, Option, Option-cases, [], inl, inr, none, refl, some, ◌≡◌, Bool, Bool-cases, List,
  false, if◌then◌else◌, is_empty, set, subst, sym, true,
}

-- The manager behind `apply_all`: empty if the batch went through, else as it was.
abbrev Manager : Changes.Applied → ChangeManager → ChangeManager → Type 0
Manager (Changes.applied ps) m m' = m'.edits ≡ []
Manager (Changes.stale ps) m m' = m' ≡ m
Manager (Changes.failed exc lost) m m' = m' ≡ m

abbrev Approver : Commands.Ran → CommandApprovalManager → CommandApprovalManager → Type 0
Approver (Commands.all_ran cs) m m' = m'.staged ≡ []
Approver (Commands.one_raised exc) m m' = m' ≡ m

-- The same paused run, but for its events.
abbrev pub SameRun : Option PausedState → Option PausedState → Type 0
SameRun none none = Unit
SameRun none (some t) = ⊥
SameRun (some s) none = ⊥
SameRun (some s) (some t) =
    (t.prompt ≡ s.prompt)
    × (t.pending ≡ s.pending)
    × (t.steps ≡ s.steps)
    × (t.completed_for_replan ≡ s.completed_for_replan)
    × (t.replans_used ≡ s.replans_used)
    × (t.iteration ≡ s.iteration)

SameRun-refl : (p : Option PausedState) → SameRun p p
SameRun-refl none = tt
SameRun-refl (some s) = (refl, refl, refl, refl, refl, refl)

module _ (fs : FileSystem) where
  open fs use {World}

  write_or_rollback-Manager :
      (m : ChangeManager) (snaps : Dict (Option String)) (w : World)
      → Manager
          (Changes.write_or_rollback fs m snaps w).0
          m
          (Changes.write_or_rollback fs m snaps w).1
  unfolding Changes.write_or_rollback
  write_or_rollback-Manager m snaps w = elim (Option-cases (Changes.write_all fs m.edits [] w).0) [
    | inl e ↦ rw (e, Changes.write_or_rollback) refl
    | inr (x, e) ↦ rw (e, Changes.write_or_rollback) refl
  ]

  apply_all-Manager :
      (m : ChangeManager) (w : World)
      → Manager (Changes.apply_all fs m w).0 m (Changes.apply_all fs m w).1
  apply_all-Manager m w =
      let Kept : Changes.Applied × ChangeManager × World → Type 0 = λ r. Manager r.0 m r.1 in
      elim (apply_all-Ending fs m w) [
        | nothing e r ↦ subst Kept (sym r) e
        | changed e r ↦ subst Kept (sym r) refl
        | unread x e f r ↦ subst Kept (sym r) refl
        | written snaps e f r ↦ subst Kept (sym r) (write_or_rollback-Manager m snaps w)
      ]

module _ {W : Type 0} (runner : ShellCommandRequest → W → RunOutcome × W) where
  run_each-Approver :
      (m : CommandApprovalManager) (w : W) (result : Commands.Ran)
      → (Commands.run_each runner m.staged [] w).0 ≡ result
      → Approver (Commands.approve_all runner m w).0 m (Commands.approve_all runner m w).1
  unfolding Commands.approve_all
  run_each-Approver m w (Commands.all_ran cs) e = rw (e, Commands.approve_all) refl
  run_each-Approver m w (Commands.one_raised exc) e = rw (e, Commands.approve_all) refl

  approve_all-Approver :
      (m : CommandApprovalManager) (w : W)
      → Approver (Commands.approve_all runner m w).0 m (Commands.approve_all runner m w).1
  approve_all-Approver m w = run_each-Approver m w _ refl

module _ (env : Environment) (limits : Limits) where
  open env use {files}
  open files use {World}

  -- What `approve` leaves behind, by how it ends.
  abbrev pub Answer : Executor World → Approved env limits → Executor World → Type 0
  Answer x (approved r) y = Settled env limits r y
  Answer x nothing_paused y = (x.paused ≡ none) × (y ≡ x)
  Answer x (stale_files ps) y =
      (y.patches ≡ x.patches) × (y.approver ≡ x.approver) × SameRun x.paused y.paused
  Answer x (apply_failed exc lost) y =
      (y.patches ≡ x.patches) × (y.approver ≡ x.approver) × SameRun x.paused y.paused
  Answer x (command_failed exc) y =
      (y.patches.edits ≡ []) × (y.approver ≡ x.approver) × (y.paused ≡ none)

  abbrev Answered : Executor World → Option (Approved env limits × Executor World) → Type 0
  Answered x o = (a : Approved env limits) × (y : Executor World) × (o ≡ some (a, y)) × Answer x a y

  resume-Answered :
      (x0 : Executor World) (s : PausedState) (x : Executor World)
      → Answered x0 (reported env limits (resume env limits s x))
  unfolding resume
  resume-Answered x0 s x =
      let (r, y, e, k) =
        execute-Concludes env limits s.prompt s.pending s.steps s.events s.completed_for_replan
          s.replans_used s.iteration (record x { preview = true }) in
      rw e (_, _, refl, k)

  -- `verify_with` sets the evidence and the world, and no more.
  abbrev Untouched : Executor World → Executor World → Type 0
  Untouched x y = (y.patches ≡ x.patches) × (y.approver ≡ x.approver) × (y.paused ≡ x.paused)

  after_commands-Answered :
      (x0 : Executor World) (result : Commands.Ran) (paths : List String) (s : PausedState)
      (x : Executor World)
      → x.patches.edits ≡ []
      → x.paused ≡ none
      → Approver result x0.approver x.approver
      → Answered x0 (after_commands env limits result paths s x)
  unfolding after_commands
  after_commands-Answered x0 (Commands.all_ran cs) paths s x h p k =
      let s1 = record s {
        steps = backfill s.steps cs;
        completed_for_replan = backfill_history s.completed_for_replan cs;
      } in
      let (s2, x2) = verify_with env limits env.verifier paths s1 x in resume-Answered x0 s2 x2
  after_commands-Answered x0 (Commands.one_raised exc) paths s x h p k =
      let (s2, x2) = verify_with env limits env.verifier paths s x in
      elim (Bool-cases (is_instance exc "CalledProcessError")) [
        | inl b ↦ rw b (resume-Answered x0 s2 x2)
        | inr b ↦ rw b (_, _, refl, (h, k, p))
      ]

  after_apply-Answered :
      (x0 : Executor World) (result : Changes.Applied) (s t : PausedState) (x : Executor World)
      → x0.paused ≡ some t
      → SameRun (some t) (some s)
      → x.paused ≡ none
      → x.approver ≡ x0.approver
      → Manager result x0.patches x.patches
      → Answered x0 (after_apply env limits result s x)
  unfolding after_apply run_commands
  after_apply-Answered x0 (Changes.applied paths) s t x p same e a m =
      let (result, approver, w) =
        Commands.approve_all env.runner x.approver (refresh_all env limits paths x.world) in
      after_commands-Answered x0 result paths s (record x { approver = approver; world = w }) m e
        (subst (λ b. Approver result b approver) a
          (approve_all-Approver env.runner x.approver (refresh_all env limits paths x.world)))
  after_apply-Answered x0 (Changes.stale paths) s t x p same e a m = (_, _, refl, (m, a, rw p same))
  after_apply-Answered x0 (Changes.failed exc lost) s t x p same e a m =
      (_, _, refl, (m, a, rw p same))

  SameRun-note :
      (made : Bool) (s : PausedState)
      → SameRun
          (some s)
          (some (if made then note_event checkpoint_created kind_checkpoint s else s))
  SameRun-note true s = (refl, refl, refl, refl, refl, refl)
  SameRun-note false s = (refl, refl, refl, refl, refl, refl)

  write_approved-Answered :
      (x0 : Executor World) (s : PausedState) (x : Executor World)
      → x0.paused ≡ some s
      → x.paused ≡ none
      → x.approver ≡ x0.approver
      → x.patches ≡ x0.patches
      → Answered x0 (write_approved env limits s x)
  unfolding write_approved
  write_approved-Answered x0 s x p e a m =
      let (made, w) = env.create_checkpoint s.prompt x.world in
      let s1 = if made then note_event checkpoint_created kind_checkpoint s else s in
      let (result, patches, w2) = Changes.apply_all files x.patches w in
      after_apply-Answered x0 result s1 s (record x { patches = patches; world = w2 }) p
        (SameRun-note made s) e a
        (subst (λ b. Manager result b patches) m (apply_all-Manager files x.patches w))

  approve_paused-Answered :
      (x : Executor World) (p : Option PausedState)
      → x.paused ≡ p
      → Answered x (approve_paused env limits p x)
  unfolding approve_paused
  approve_paused-Answered x none e = (_, _, refl, (e, refl))
  approve_paused-Answered x (some s) e =
      let (set, x1) = is_cancelled env limits (record x { paused = none }) in
      elim (Bool-cases set) [
        | inl b ↦ rw (b, approve_paused) (_, _, refl, settled refl (tear_down-Released x1))
        | inr b ↦ rw (b, approve_paused) (write_approved-Answered x s x1 e refl refl refl)
      ]

  -- `approve` ends, and how it ends says what is left. With a report, the run is paused again with what
  -- the report says, or nothing is staged and the staging managers are out of use. Where nothing is
  -- paused, nothing changes. If a file changed under the batch, or the batch could not be written, what
  -- was staged is staged as before, and the run that was paused is paused as before, but for its events.
  -- If a command raised something else than a failing exit code, no edit is staged any more, all the
  -- commands still are, and no run is paused that an answer could reach.
  pub approve-Answer :
      (x : Executor World)
      → (a : Approved env limits) × (y : Executor World) × (approve env limits x ≡ some (a, y))
        × Answer x a y
  unfolding approve
  approve-Answer x = elim (Bool-cases (is_empty (Changes.stale_paths files x.patches x.world))) [
    | inl b ↦ rw b (approve_paused-Answered x x.paused refl)
    | inr b ↦ rw b (_, _, refl, (refl, refl, SameRun-refl x.paused))
  ]
