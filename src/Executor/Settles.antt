-- ===== src/Executor/Settles.antt =====
-- The end of a run behind the loop: it comes, and leaves nothing staged unless the run is paused.
use pearl_ai.Executor.Loop.Terminates.{execute-returns}
use pearl_ai.Executor.Finish.{
  tear_down, should_replan, resume_with, replan_from_reflection, is_pause, goes_back,
  finish_or_pause, as_is, Resumed, exhausted, reflected, resumed, settle,
}
use pearl_ai.Plan.{ToolCall}
use pearl_ai.Executor.{
  plan_raised, has_staged, discard_staged, Planned, Limits, Executor, Environment, planned,
}
use pearl_ai.Report.{
  Verdict, ProgressEvent, PausedState, ExecutionStep, ExecutionReport, CompletedCall,
}
use pearl_ai.Executor.Loop.{execute}
use pearl_ai.Executor.Loop.Outcomes.{
  LoopEnd, Paused, awaits, was_cut, finished, execute-LoopEnd, execute-budgets,
}
use pearl_ai.Executor.Planning.{conclude}
use pearl_ai.Base.{
  String, Bool-cases, List, Option, Option-cases, [], and_left, and_right, ap, arith, false, inl,
  inr, length, ltb, ltb→lt, not, refl, some, suc, sym, true, zero, ℕ, ◌&&◌, ◌+◌, ◌<◌, ◌∙◌, ◌∷◌, ◌≡◌,
  ◌≤◌, ◌⊎◌,
}

module _ {W : Type 0} where
  -- Nothing is staged, and the staging managers are out of use.
  pub record Released (x : Executor W) : Type 0 where
    pub clear : has_staged x ≡ false
    pub inactive : x.preview ≡ false

  pub tear_down-Released : (x : Executor W) → Released (tear_down x)
  unfolding tear_down discard_staged has_staged
  tear_down-Released x = record { clear = refl; inactive = refl }

module _ (env : Environment) (limits : Limits) where
  open env use {files}
  open files use {World}

  -- How a run ends for its caller: paused, with the state of the report, or with nothing left behind.
  pub data Settled (r : ExecutionReport) (x : Executor World) : Type 0 where
    paused_run : Paused env limits r x → Settled r x
    settled : is_pause r.stop_reason ≡ false → Released x → Settled r x

  settle-Settled :
      (r : ExecutionReport) (x : Executor World)
      → is_pause r.stop_reason ≡ false
      → Settled (settle env limits r x).0 (settle env limits r x).1
  unfolding settle
  settle-Settled r x n = settled n (tear_down-Released x)

  LoopEnd-pause :
      (p : Option PausedState) (r : ExecutionReport) (x : Executor World)
      → is_pause r.stop_reason ≡ true
      → LoopEnd env limits p r x
      → Paused env limits r x
  LoopEnd-pause p r x b (awaits k) = k
  LoopEnd-pause p r x b (was_cut c e) = let f : true ≡ false = sym b ∙ ap is_pause c in cc
  LoopEnd-pause p r x b (finished n c e) = cc

  -- What a verdict can lead to: the report as it was, or one of a loop with a replan more at least.
  abbrev Grows : ExecutionReport → Option (Resumed env limits) → Type 0
  Grows r o =
      ((r' : ExecutionReport) × (x : Executor World) × (o ≡ some (as_is r' x))
        × (r'.stop_reason ≡ r.stop_reason))
      ⊎ ((r' : ExecutionReport) × (x : Executor World) × (o ≡ some (resumed r' x))
          × (r.replans_used < r'.replans_used)
          × ((p : Option PausedState) × LoopEnd env limits p r' x))

  resume_with-Grows :
      (answer : Planned) (r : ExecutionReport) (x : Executor World)
      → r.replans_used < limits.max_replans
      → Grows r (resume_with env limits answer r x)
  unfolding resume_with
  resume_with-Grows (plan_raised exc) r x l = inl (r, x, refl, refl)
  resume_with-Grows (planned []) r x l = inl (r, x, refl, refl)
  resume_with-Grows (planned (call ∷ calls)) r x l =
      let fresh = record x { preview = true } in
      let ((next, y), e) =
        execute-returns env limits x.current_prompt (call ∷ calls) r.steps r.events x.last_completed
          (r.replans_used + 1) (length r.steps) fresh in
      let more : r.replans_used + 1 ≤ next.replans_used =
        (execute-budgets env limits x.current_prompt (call ∷ calls) r.steps r.events
          x.last_completed (r.replans_used + 1) (length r.steps) fresh next y (omega (arith, l))
          e).0 in
      inr (
        next,
        y,
        rw (e, resume_with) refl,
        omega (arith, more),
        (
          x.paused,
          execute-LoopEnd env limits x.current_prompt (call ∷ calls) r.steps r.events
              x.last_completed (r.replans_used + 1) (length r.steps) fresh next y e,
        ),
      )

  replan_from_reflection-Grows :
      (r : ExecutionReport) (v : Verdict) (x : Executor World)
      → r.replans_used < limits.max_replans
      → Grows r (replan_from_reflection env limits r v x)
  unfolding replan_from_reflection
  replan_from_reflection-Grows r v x l = resume_with-Grows _ _ _ l

  goes_back-budget :
      (r : ExecutionReport) (v : Verdict) (x : Executor World)
      → (goes_back env limits r v x).0 ≡ true
      → r.replans_used < limits.max_replans
  unfolding goes_back
  goes_back-budget r v x h =
      elim (Bool-cases (
        should_replan v
        && (ltb r.replans_used limits.max_replans && not (exhausted env limits x)))) [
          | inl b ↦ ltb→lt _ _ (and_left _ _ (and_right _ _ b))
          | inr b ↦ (let g : false ≡ true = rw (b, goes_back) at h in cc)
        ]

  -- The end of a run: it comes, and leaves nothing behind unless it is a pause.
  abbrev pub Concludes : Option (ExecutionReport × Executor World) → Type 0
  Concludes o = (r : ExecutionReport) × (x : Executor World) × (o ≡ some (r, x)) × Settled r x

  finish_or_pause-Concludes :
      (fuel : ℕ) (p : Option PausedState) (r : ExecutionReport) (x : Executor World)
      → LoopEnd env limits p r x
      → 0 < fuel
      → limits.max_replans < fuel + r.replans_used
      → Concludes (finish_or_pause env limits fuel r x)
  unfolding finish_or_pause
  finish_or_pause-Concludes zero p r x k q l = absurd (omega (arith, q))
  finish_or_pause-Concludes (suc fuel) p r x k q l =
      let (verdict, x1) = reflected env limits r x in
      elim (Bool-cases (is_pause r.stop_reason)) [
        | inl b ↦ rw (b, finish_or_pause) (r, x, refl, paused_run (LoopEnd-pause p r x b k))
        | inr b ↦ elim (Option-cases (reflected env limits r x).0) [
          | inl e ↦ rw (b, e, finish_or_pause) (_, _, refl, settle-Settled r x1 b)
          | inr (v, e) ↦
              let judged = record r { llm_reflection = some v } in
              let x2 = (goes_back env limits judged v x1).1 in
              elim (Bool-cases (goes_back env limits judged v x1).0) [
                | inr c ↦ rw (b, e, c, finish_or_pause) (_, _, refl, settle-Settled judged x2 b)
                | inl c ↦
                    let budget = goes_back-budget judged v x1 c in
                    elim (replan_from_reflection-Grows judged v x2 budget) [
                      | inl (r', y, f, g) ↦
                          rw (b, e, c, f, finish_or_pause)
                            (_, _, refl, settle-Settled r' y (ap is_pause g ∙ b))
                      | inr (r', y, f, g, (p', k')) ↦
                          rw (b, e, c, f, finish_or_pause)
                            (finish_or_pause-Concludes fuel p' r' y k' (omega (arith, l, budget))
                              (omega (arith, l, g)))
                    ]
              ]
        ]
      ]

  -- The loop with the end of the run behind it: the end comes, for every planner, model and tool. The run
  -- is then paused, with the state that the report shows and something staged, or nothing is staged and
  -- the staging managers are out of use.
  pub execute-Concludes :
      (prompt : String) (pending : List ToolCall) (steps : List ExecutionStep)
      (events : List ProgressEvent) (history : List CompletedCall) (n i : ℕ) (x : Executor World)
      → Concludes
          (conclude env limits (execute env limits prompt pending steps events history n i x))
  unfolding conclude
  execute-Concludes prompt pending steps events history n i x =
      let ((r, y), e) = execute-returns env limits prompt pending steps events history n i x in
      rw (e, conclude)
        (finish_or_pause-Concludes (limits.max_replans + 1) x.paused r y
          (execute-LoopEnd env limits prompt pending steps events history n i x r y e) (omega arith)
          (omega arith))
