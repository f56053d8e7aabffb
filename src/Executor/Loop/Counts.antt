-- ===== src/Executor/Loop/Counts.antt =====
-- What the loop counts: the recorded steps and the replans, against the budgets.
use pearl_ai.Executor.Finish.{is_pause}
use pearl_ai.Executor.Loop.Cases.{
  replan_failed, replan_cancelled, ask_cancelled, Asked, replanned, Handled, Stepped, asked,
  at_limit, errored, gave_up, no_tool, retried, succeeded, was_cancelled, Case, idle, round-Case,
  step,
}
use pearl_ai.Executor.Loop.{
  check_cancelled, call_step, after_success, after_retry, after_replan, after_none, after_failure,
  Vars, Round, again, ask, close, finish, started, leave, round,
}
use pearl_ai.Plan.{ToolCall}
use pearl_ai.Executor.{Limits, Environment, staged_count, Executor, note_if_staged}
use pearl_ai.Report.{
  max_iterations, StopReason, ProgressStatus, EventKind, cancelled, fatal_error, kind_failure,
  task_failed, completed, kind_completed, task_completed, PausedState,
}
use pearl_ai.Python.{Value, Exception}
use pearl_ai.Executor.Loop.Terminates.{called}
use pearl_ai.Base.{
  Bool-cases, List, inl, inr, length, length-append, refl, ℕ, ◌+◌, ◌<◌, ◌≡◌, ◌⊎◌, ap, arith, sym,
  ◌-◌, ◌∙◌, Option, String, leb, ◌∷◌, false,
}

module _ (env : Environment) (limits : Limits) where
  open env use {files, poll, call_tool}
  open files use {World}

  -- The number of recorded steps, that of replans, the iteration, and the paused state.
  abbrev tally : Vars World → ℕ × ℕ × ℕ × Option PausedState
  tally v = (length v.steps, v.replans_used, v.iteration, v.self.paused)

  tally-check_cancelled : (v : Vars World) → tally (check_cancelled env limits v).1 ≡ tally v
  unfolding check_cancelled
  tally-check_cancelled v = elim (Bool-cases (poll v.self.world).0) [
    | inl b ↦ rw (b, check_cancelled) refl
    | inr b ↦ rw (b, check_cancelled) refl
  ]

  tally-called : (call : ToolCall) (v : Vars World) → tally (called env limits call v) ≡ tally v
  unfolding call_step
  tally-called call v = tally-check_cancelled v

  paused-note_if_staged :
      (name : String) (n : ℕ) (x : Executor World)
      → (note_if_staged env.tools name n x).paused ≡ x.paused
  unfolding note_if_staged
  paused-note_if_staged name n x = elim (Bool-cases (leb (staged_count x) n)) [
    | inl b ↦ rw b refl
    | inr b ↦ rw b refl
  ]

  tally-after_success :
      (call : ToolCall) (result : Value) (n : ℕ) (v : Vars World)
      → tally (after_success env limits call result n v)
        ≡ (length v.steps + 1, v.replans_used, v.iteration, v.self.paused)
  unfolding after_success
  tally-after_success call result n v =
      rw (length-append v.steps _, paused-note_if_staged call.tool_name n v.self) refl

  tally-after_failure :
      (call : ToolCall) (exc : Exception) (v : Vars World)
      → tally (after_failure env limits call exc v)
        ≡ (length v.steps + 1, v.replans_used, v.iteration, v.self.paused)
  unfolding after_failure
  tally-after_failure call exc v = rw (length-append v.steps _) refl

  tally-after_retry :
      (call : ToolCall) (v : Vars World)
      → tally (after_retry env limits call v)
        ≡ (length v.steps, v.replans_used, v.iteration - 1, v.self.paused)
  unfolding after_retry
  tally-after_retry call v = refl

  tally-ask :
      (call : ToolCall) (exc : Exception) (v : Vars World)
      → tally (ask env limits call exc v).1 ≡ tally v
  unfolding ask
  tally-ask call exc v = refl

  tally-after_replan :
      (calls : List ToolCall) (v : Vars World)
      → tally (after_replan env limits calls v)
        ≡ (length v.steps, v.replans_used + 1, v.iteration, v.self.paused)
  unfolding after_replan
  tally-after_replan calls v = refl

  tally-after_none :
      (call : ToolCall) (v : Vars World)
      → tally (after_none env limits call v)
        ≡ (length v.steps + 1, v.replans_used, v.iteration, v.self.paused)
  unfolding after_none
  tally-after_none call v = rw (length-append v.steps _) refl

  tally-started :
      (rest : List ToolCall) (v : Vars World)
      → tally (started env limits rest v)
        ≡ (length v.steps, v.replans_used, v.iteration + 1, v.self.paused)
  unfolding started
  tally-started rest v = refl

  -- How a round that goes on changes the counts: a step for an iteration, a replan at most, within
  -- the budget.
  pub record Moves (v v' : Vars World) : Type 0 where
    pub step_each : length v'.steps + v.iteration ≡ length v.steps + v'.iteration
    pub same_paused : v'.self.paused ≡ v.self.paused
    pub few_replans :
        (v'.replans_used ≡ v.replans_used)
        ⊎ ((v'.replans_used ≡ v.replans_used + 1) × (v.replans_used < limits.max_replans))

  -- The variables with which a round that ends makes its report.
  pub record Final (v u : Vars World) : Type 0 where
    pub stays_paused : u.self.paused ≡ v.self.paused
    pub same_replans : u.replans_used ≡ v.replans_used
    pub few_steps :
        (length u.steps ≡ length v.steps)
        ⊎ ((length u.steps ≡ length v.steps + 1) × (v.iteration < limits.max_iterations))

  pub data Ends (v : Vars World) (r : Round World) : Type 0 where
    closed :
        (u : Vars World) (reason : StopReason) (status : ProgressStatus) (action : EventKind)
        → is_pause reason ≡ false
        → Final v u
        → r ≡ close env limits reason status action u
        → Ends v r
    cut : (u : Vars World) → Final v u → r ≡ finish env limits cancelled u → Ends v r
    goes : (v' : Vars World) → Moves v v' → r ≡ again v' → Ends v r

  one_more :
      (v u : Vars World)
      → v.iteration < limits.max_iterations
      → tally u ≡ (length v.steps + 1, v.replans_used, v.iteration + 1, v.self.paused)
      → Final v u
  one_more v u l t = record {
    same_replans = ap (λ k. k.1) t;
    stays_paused = ap (λ k. k.3) t;
    few_steps = inr (ap (λ k. k.0) t, l);
  }

  replanned-Moves :
      (v v' : Vars World)
      → v.replans_used < limits.max_replans
      → tally v' ≡ (length v.steps + 1, v.replans_used + 1, v.iteration + 1, v.self.paused)
      → Moves v v'
  replanned-Moves v v' b t = record {
    step_each = omega (arith, ap (λ k. k.0) t, ap (λ k. k.2) t);
    same_paused = ap (λ k. k.3) t;
    few_replans = inr (ap (λ k. k.1) t, b);
  }

  still : (v v' : Vars World) → tally v' ≡ tally v → Moves v v'
  still v v' t = record {
    step_each = omega (arith, ap (λ k. k.0) t, ap (λ k. k.2) t);
    same_paused = ap (λ k. k.3) t;
    few_replans = inl (ap (λ k. k.1) t);
  }

  failed_tally :
      (call : ToolCall) (exc : Exception) (v u : Vars World)
      → tally u ≡ (length v.steps, v.replans_used, v.iteration + 1, v.self.paused)
      → tally (after_failure env limits call exc u)
        ≡ (length v.steps + 1, v.replans_used, v.iteration + 1, v.self.paused)
  failed_tally call exc v u t =
      tally-after_failure call exc u ∙ ap (λ k. (k.0 + 1, k.1, k.2, k.3)) t

  stepped-Moves :
      (v v' : Vars World)
      → tally v' ≡ (length v.steps + 1, v.replans_used, v.iteration + 1, v.self.paused)
      → Moves v v'
  stepped-Moves v v' t = record {
    step_each = omega (arith, ap (λ k. k.0) t, ap (λ k. k.2) t);
    same_paused = ap (λ k. k.3) t;
    few_replans = inl (ap (λ k. k.1) t);
  }

  retry_tally :
      (call : ToolCall) (v u : Vars World)
      → tally u ≡ (length v.steps, v.replans_used, v.iteration + 1, v.self.paused)
      → tally (after_retry env limits call u) ≡ tally v
  retry_tally call v u t =
      tally-after_retry call u
      ∙ ap (λ k. (k.0, k.1, k.2 - 1, k.3)) t
      ∙ ap (λ i. (length v.steps, v.replans_used, i, v.self.paused)) (omega arith)

  asked_tally :
      (call : ToolCall) (exc : Exception) (v u : Vars World)
      → tally u ≡ (length v.steps + 1, v.replans_used, v.iteration + 1, v.self.paused)
      → tally (ask env limits call exc (check_cancelled env limits u).1).1
        ≡ (length v.steps + 1, v.replans_used, v.iteration + 1, v.self.paused)
  asked_tally call exc v u t =
      tally-ask call exc (check_cancelled env limits u).1 ∙ tally-check_cancelled u ∙ t

  Ends-Asked :
      (call : ToolCall) (exc : Exception) (v u : Vars World) (r : Round World)
      → v.iteration < limits.max_iterations
      → v.replans_used < limits.max_replans
      → tally u ≡ (length v.steps + 1, v.replans_used, v.iteration + 1, v.self.paused)
      → Asked env limits call exc u r
      → Ends v r
  Ends-Asked call exc v u r l b t (ask_cancelled c e) =
      cut (check_cancelled env limits u).1 (one_more v _ l (tally-check_cancelled u ∙ t)) e
  Ends-Asked call exc v u r l b t (replanned calls e) =
      let w = (ask env limits call exc (check_cancelled env limits u).1).1 in
      goes (after_replan env limits calls w)
        (replanned-Moves v _ b (
          tally-after_replan calls w
          ∙ ap (λ k. (k.0, k.1 + 1, k.2, k.3)) (asked_tally call exc v u t)))
        e
  Ends-Asked call exc v u r l b t (replan_cancelled x c a e) =
      let w = (ask env limits call exc (check_cancelled env limits u).1).1 in
      cut (check_cancelled env limits w).1
        (one_more v _ l (tally-check_cancelled w ∙ asked_tally call exc v u t)) e
  Ends-Asked call exc v u r l b t (replan_failed e) =
      closed _ fatal_error task_failed kind_failure refl
        (one_more v _ l (asked_tally call exc v u t)) e

  Ends-Handled :
      (call : ToolCall) (exc : Exception) (v u : Vars World) (r : Round World)
      → v.iteration < limits.max_iterations
      → tally u ≡ (length v.steps, v.replans_used, v.iteration + 1, v.self.paused)
      → Handled env limits call exc u r
      → Ends v r
  Ends-Handled call exc v u r l t (retried b m e) =
      goes _ (still v (after_retry env limits call u) (retry_tally call v u t)) e
  Ends-Handled call exc v u r l t (gave_up why e) =
      closed _ fatal_error task_failed kind_failure refl
        (one_more v _ l (failed_tally call exc v u t)) e
  Ends-Handled call exc v u r l t (asked few budget a) =
      Ends-Asked call exc v _ r l (rw (sym (ap (λ k. k.1) t)) budget) (failed_tally call exc v u t)
        a

  Ends-Stepped :
      (call : ToolCall) (rest : List ToolCall) (v : Vars World) (r : Round World)
      → Stepped env limits call (started env limits rest v) r
      → Ends v r
  unfolding started leave
  Ends-Stepped call rest v r (at_limit l e) =
      let u = started env limits rest v in
      closed (record u { pending = call ∷ u.pending }) max_iterations task_failed kind_failure refl
        (record { same_replans = refl; stays_paused = refl; few_steps = inl refl }) e
  Ends-Stepped call rest v r (no_tool l e) =
      let u = started env limits rest v in
      closed (after_none env limits call u) completed task_completed kind_completed refl
        (one_more v _ (omega (arith, l)) (tally-after_none call u)) e
  Ends-Stepped call rest v r (was_cancelled c e) =
      let u = started env limits rest v in
      let t = tally-check_cancelled u in
      cut (check_cancelled env limits u).1
        (record {
          same_replans = ap (λ k. k.1) t;
          stays_paused = ap (λ k. k.3) t;
          few_steps = inl (ap (λ k. k.0) t);
        })
        e
  Ends-Stepped call rest v r (succeeded result l o e) =
      let u = started env limits rest v in
      let n = staged_count (check_cancelled env limits u).1.self in
      goes (after_success env limits call result n (called env limits call u))
        (stepped-Moves v _ (
          tally-after_success call result n (called env limits call u)
          ∙ ap (λ k. (k.0 + 1, k.1, k.2, k.3)) (tally-called call u)))
        e
  Ends-Stepped call rest v r (errored exc l o handled) =
      let u = started env limits rest v in
      Ends-Handled call exc v (called env limits call u) r (omega (arith, l)) (tally-called call u)
        handled

  Ends-Case : (v : Vars World) (r : Round World) → Case env limits v r → Ends v r
  unfolding leave
  Ends-Case v r (idle p e) =
      closed v completed task_completed kind_completed refl
        (record { same_replans = refl; stays_paused = refl; few_steps = inl refl }) e
  Ends-Case v r (step call rest p s) = Ends-Stepped call rest v r s

  pub Ends-round : (v : Vars World) → Ends v (round env limits v)
  Ends-round v = Ends-Case v (round env limits v) (round-Case env limits v)
