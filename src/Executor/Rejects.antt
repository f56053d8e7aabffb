-- ===== src/Executor/Rejects.antt =====
-- The rejection of a paused run, and the answers that come behind it.
use pearl_ai.Executor.Approval.{reject_paused, nothing_paused, approve_paused, approve, reject}
use pearl_ai.Executor.Finish.{tear_down, is_cancelled, finalize_cancelled_while_paused}
use pearl_ai.Executor.{discard_staged, Limits, Executor, Environment}
use pearl_ai.Report.{PausedState, ExecutionReport, cancelled, rejected}
use pearl_ai.Executor.Settles.{Released, tear_down-Released}
use pearl_ai.Changes
use pearl_ai.Base.{Bool-cases, [], inl, inr, none, refl, set, some, ◌≡◌, ◌⊎◌, ap, ◌∙◌}

module _ (env : Environment) (limits : Limits) where
  open env use {files, poll}
  open files use {World}

  -- What a rejection leaves: no edit, no command, no paused run, and the history in the report.
  pub record Rejected (s : PausedState) (x : Executor World) (r : ExecutionReport)
      (y : Executor World) : Type 0 where
    pub released : Released y
    pub edits_gone : y.patches.edits ≡ []
    pub commands_gone : y.approver.staged ≡ []
    pub unpaused : y.paused ≡ none
    pub only_polled : y.world ≡ (poll x.world).1
    pub same_steps : r.steps ≡ s.steps
    pub same_replans : r.replans_used ≡ s.replans_used
    pub reason : (r.stop_reason ≡ rejected) ⊎ (r.stop_reason ≡ cancelled)

  reject_paused-Rejected :
      (x : Executor World) (s : PausedState)
      → (r : ExecutionReport) × (y : Executor World) × (reject_paused env limits (some s) x
          ≡ (some r, y))
        × Rejected s x r y
  unfolding reject_paused finalize_cancelled_while_paused is_cancelled tear_down discard_staged
  reject_paused-Rejected x s =
      let (set, x1) = is_cancelled env limits (record x { paused = none }) in
      elim (Bool-cases (poll x.world).0) [
        | inl b ↦
            rw (b, reject_paused)
              (
                _,
                _,
                refl,
                record {
                  released = tear_down-Released x1;
                  edits_gone = refl;
                  commands_gone = refl;
                  unpaused = refl;
                  only_polled = refl;
                  same_steps = refl;
                  same_replans = refl;
                  reason = inr refl;
                },
              )
        | inr b ↦
            rw (b, reject_paused)
              (
                _,
                _,
                refl,
                record {
                  released = tear_down-Released x1;
                  edits_gone = refl;
                  commands_gone = refl;
                  unpaused = refl;
                  only_polled = refl;
                  same_steps = refl;
                  same_replans = refl;
                  reason = inl refl;
                },
              )
      ]

  -- With nothing staged and nothing paused, no answer has an effect.
  answers_nothing :
      (y : Executor World)
      → y.patches.edits ≡ []
      → y.paused ≡ none
      → (approve env limits y ≡ some (nothing_paused, y)) × (reject env limits y ≡ (none, y))
  unfolding approve reject Changes.stale_paths approve_paused reject_paused Changes.stale_from
  answers_nothing y e p = (rw (e, p) refl, rw p refl)

  -- The rejection of a paused run ends with a report, as rejected or as cancelled. Every staged edit and
  -- command is dropped, the world is only read for the cancel event, the report keeps the steps and the
  -- replans of the paused run, and the staging managers are out of use. A second answer, of either kind,
  -- finds nothing paused and changes nothing.
  pub reject-Rejected :
      (x : Executor World) (s : PausedState)
      → x.paused ≡ some s
      → (r : ExecutionReport) × (y : Executor World) × (reject env limits x ≡ (some r, y))
        × Rejected s x r y
        × (approve env limits y ≡ some (nothing_paused, y))
        × (reject env limits y ≡ (none, y))
  unfolding reject
  reject-Rejected x s e =
      let (r, y, f, k) = reject_paused-Rejected x s in
      let (a, b) = answers_nothing y k.edits_gone k.unpaused in
      (r, y, ap (λ p. reject_paused env limits p x) e ∙ f, k, a, b)
