-- ===== src/Executor/Loop/Terminates.antt =====
-- The loop ends: each round that goes on either uses up an iteration, or one of the retries of the call
-- at its front.
use pearl_ai.Python.{Value, Exception}
use pearl_ai.Plan.{ToolCall}
use pearl_ai.Report.{
  EventKind, ProgressStatus, StopReason, kind_completed, task_completed, CompletedCall,
  ExecutionReport, ExecutionStep, ProgressEvent,
}
use pearl_ai.Executor.{Environment, Limits, check_awaiting_approval, staged_count, Executor}
use pearl_ai.Executor.Loop.{
  Vars, Round, again, stop, retries_of, close, round, check_cancelled, paused_state, set_retries,
  shared, after_failure, after_replan, after_retry, after_success, ask, call_step, leave, started,
  enough_fuel, execute, run_loop,
}
use pearl_ai.Executor.Loop.Cases.{
  idle, step, succeeded, errored, at_limit, no_tool, round-Case, was_cancelled, Asked, Case,
  Handled, Stepped, ask_cancelled, asked, gave_up, replan_cancelled, replan_failed, replanned,
  retried,
}
use pearl_ai.Base.{
  Bool-cases, List, Option-cases, [], ap, arith, inl, inr, refl, subst, sym, ℕ, ◌+◌, ◌<◌, ◌∙◌, ◌∷◌,
  ◌≡◌, ◌≢◌, ◌*◌, ◌-◌, ◌⊎◌, String, some, suc, zero,
}

retries_of-set_retries : (k n : ℕ) (d : List (ℕ × ℕ)) → retries_of (set_retries k n d) k ≡ n
unfolding retries_of set_retries
retries_of-set_retries k n [] = ground arith
retries_of-set_retries k n ((j, m) ∷ d) = ground (arith, retries_of-set_retries k n d)

abbrev pub IsStop : {W : Type 0} → Round W → Type 0
IsStop (again v) = ⊥
IsStop (stop r x) = Unit

abbrev unwrap : {W : Type 0} → Vars W → Round W → Vars W
unwrap d (again v) = v
unwrap d (stop r x) = d

pub again_inj : {W : Type 0} (v v' : Vars W) → again v ≡ again v' → v ≡ v'
again_inj v v' h = ap (unwrap v) h

-- The retries that the call at the front of the plan has used.
abbrev pub front_retries : List ToolCall → List (ℕ × ℕ) → ℕ
front_retries [] d = 0
front_retries (call ∷ rest) d = retries_of d call.object_id

pub Round-cases :
    {W : Type 0} (r : Round W)
    → ((v : Vars W) × (r ≡ again v))
      ⊎ ((report : ExecutionReport) × (self : Executor W) × (r ≡ stop report self))
Round-cases (again v) = inl (v, refl)
Round-cases (stop report self) = inr (report, self, refl)

fewer_rounds : (a b n x y : ℕ) → a ≡ b + 1 → b * (n + 1) + (n - x) < a * (n + 1) + (n - y)
fewer_rounds a b n x y e = rw e (omega arith)

module _ (env : Environment) (limits : Limits) where
  open env use {files, poll, call_tool}
  open files use {World}

  close-IsStop :
      (reason : StopReason) (status : ProgressStatus) (action : EventKind) (v : Vars World)
      → IsStop (close env limits reason status action v)
  unfolding close
  close-IsStop reason status action v =
      let paused = check_awaiting_approval (paused_state env limits v) (shared env limits v) in
      elim (Option-cases paused.0) [
        | inl nothing ↦ rw (nothing, close) tt
        | inr (report, e) ↦ rw (e, close) tt
      ]

  pub close-ne-again :
      (reason : StopReason) (status : ProgressStatus) (action : EventKind) (v v' : Vars World)
      → again v' ≢ close env limits reason status action v
  close-ne-again reason status action v v' h =
      subst IsStop (sym h) (close-IsStop reason status action v)

  pub iteration-check_cancelled :
      (v : Vars World) → (check_cancelled env limits v).1.iteration ≡ v.iteration
  unfolding check_cancelled
  iteration-check_cancelled v = elim (Bool-cases (poll v.self.world).0) [
    | inl b ↦ rw (b, check_cancelled) refl
    | inr b ↦ rw (b, check_cancelled) refl
  ]

  pending-check_cancelled : (v : Vars World) → (check_cancelled env limits v).1.pending ≡ v.pending
  unfolding check_cancelled
  pending-check_cancelled v = elim (Bool-cases (poll v.self.world).0) [
    | inl b ↦ rw (b, check_cancelled) refl
    | inr b ↦ rw (b, check_cancelled) refl
  ]

  retry_counts-check_cancelled :
      (v : Vars World) → (check_cancelled env limits v).1.retry_counts ≡ v.retry_counts
  unfolding check_cancelled
  retry_counts-check_cancelled v = elim (Bool-cases (poll v.self.world).0) [
    | inl b ↦ rw (b, check_cancelled) refl
    | inr b ↦ rw (b, check_cancelled) refl
  ]

  pub leave-ne-again : (v v' : Vars World) → again v' ≢ leave env limits v
  unfolding leave
  leave-ne-again v v' = close-ne-again StopReason.completed task_completed kind_completed v v'

  -- The variables as the tool of a round leaves them.
  abbrev pub called : ToolCall → Vars World → Vars World
  called call v = (call_step env limits call (check_cancelled env limits v).1).1

  pub iteration-called :
      (call : ToolCall) (v : Vars World) → (called call v).iteration ≡ v.iteration
  unfolding call_step
  iteration-called call v = iteration-check_cancelled v

  pending-called : (call : ToolCall) (v : Vars World) → (called call v).pending ≡ v.pending
  unfolding call_step
  pending-called call v = pending-check_cancelled v

  retry_counts-called :
      (call : ToolCall) (v : Vars World) → (called call v).retry_counts ≡ v.retry_counts
  unfolding call_step
  retry_counts-called call v = retry_counts-check_cancelled v

  pub iteration-after_success :
      (call : ToolCall) (result : Value) (n : ℕ) (v : Vars World)
      → (after_success env limits call result n v).iteration ≡ v.iteration
  unfolding after_success
  iteration-after_success call result n v = refl

  pub iteration-after_failure :
      (call : ToolCall) (exc : Exception) (v : Vars World)
      → (after_failure env limits call exc v).iteration ≡ v.iteration
  unfolding after_failure
  iteration-after_failure call exc v = refl

  pub iteration-ask :
      (call : ToolCall) (exc : Exception) (v : Vars World)
      → (ask env limits call exc v).1.iteration ≡ v.iteration
  unfolding ask
  iteration-ask call exc v = refl

  pub iteration-after_replan :
      (calls : List ToolCall) (v : Vars World)
      → (after_replan env limits calls v).iteration ≡ v.iteration
  unfolding after_replan
  iteration-after_replan calls v = refl

  -- How a round that goes on changes what the measure reads.
  pub data Goes (v v' : Vars World) : Type 0 where
    advanced : v.iteration < limits.max_iterations → v'.iteration ≡ v.iteration + 1 → Goes v v'
    same_call :
        v'.iteration ≡ v.iteration
        → v.iteration < limits.max_iterations
        → front_retries v.pending v.retry_counts < limits.max_retries
        → front_retries v'.pending v'.retry_counts ≡ front_retries v.pending v.retry_counts + 1
        → Goes v v'

  pub iteration-after_retry :
      (call : ToolCall) (v : Vars World)
      → (after_retry env limits call v).iteration ≡ v.iteration - 1
  unfolding after_retry
  iteration-after_retry call v = refl

  front_retries-after_retry :
      (call : ToolCall) (v : Vars World)
      → front_retries
          (after_retry env limits call v).pending
          (after_retry env limits call v).retry_counts
        ≡ retries_of v.retry_counts call.object_id + 1
  unfolding after_retry
  front_retries-after_retry call v =
      retries_of-set_retries call.object_id (retries_of v.retry_counts call.object_id + 1)
        v.retry_counts

  pub iteration-Asked :
      (call : ToolCall) (exc : Exception) (v v' : Vars World)
      → Asked env limits call exc v (again v')
      → v'.iteration ≡ v.iteration
  iteration-Asked call exc v v' (ask_cancelled b r) = absurd (subst IsStop (sym r) tt)
  iteration-Asked call exc v v' (replanned calls r) =
      ap Vars.iteration (again_inj _ _ r)
      ∙ iteration-after_replan calls _
      ∙ iteration-ask call exc _
      ∙ iteration-check_cancelled v
  iteration-Asked call exc v v' (replan_cancelled x b e r) = absurd (subst IsStop (sym r) tt)
  iteration-Asked call exc v v' (replan_failed r) = absurd (close-ne-again _ _ _ _ v' r)

  Goes-Handled :
      (call : ToolCall) (rest : List ToolCall) (exc : Exception) (v v' : Vars World)
      → v.pending ≡ call ∷ rest
      → v.iteration < limits.max_iterations
      → Handled env limits call exc (called call (started env limits rest v)) (again v')
      → Goes v v'
  unfolding started
  Goes-Handled call rest exc v v' p l (retried t lt r) =
      let u = started env limits rest v in
      let same : v'.iteration ≡ v.iteration = omega (
        arith,
        ap Vars.iteration (again_inj _ _ r),
        iteration-after_retry call (called call u),
        iteration-called call u,
      ) in
      let counts : retries_of (called call u).retry_counts call.object_id
          ≡ front_retries v.pending v.retry_counts =
        rw (p, retry_counts-called call u) refl in
      let front : front_retries v'.pending v'.retry_counts
          ≡ retries_of (called call u).retry_counts call.object_id + 1 =
        ap (λ x. front_retries x.pending x.retry_counts) (again_inj _ _ r)
        ∙ front_retries-after_retry call (called call u) in
      same_call same l (omega (arith, counts, lt)) (omega (arith, counts, front))
  Goes-Handled call rest exc v v' p l (gave_up e r) = absurd (close-ne-again _ _ _ _ v' r)
  Goes-Handled call rest exc v v' p l (asked few budget a) =
      let u = started env limits rest v in
      advanced l (
        omega (
          arith,
          iteration-Asked call exc _ v' a,
          iteration-after_failure call exc (called call u),
          iteration-called call u,
        ))

  Goes-Stepped :
      (call : ToolCall) (rest : List ToolCall) (v v' : Vars World)
      → v.pending ≡ call ∷ rest
      → Stepped env limits call (started env limits rest v) (again v')
      → Goes v v'
  unfolding started
  Goes-Stepped call rest v v' p (at_limit l r) = absurd (close-ne-again _ _ _ _ v' r)
  Goes-Stepped call rest v v' p (no_tool l r) = absurd (leave-ne-again _ v' r)
  Goes-Stepped call rest v v' p (was_cancelled l r) = absurd (subst IsStop (sym r) tt)
  Goes-Stepped call rest v v' p (succeeded result l o r) = advanced (omega (arith, l)) (
      omega (
        arith,
        ap Vars.iteration (again_inj _ _ r),
        iteration-after_success call result
            (staged_count (check_cancelled env limits (started env limits rest v)).1.self)
            (called call (started env limits rest v)),
        iteration-called call (started env limits rest v),
      ))
  Goes-Stepped call rest v v' p (errored exc l o handled) =
      Goes-Handled call rest exc v v' p (omega (arith, l)) handled

  Goes-Case : (v v' : Vars World) → Case env limits v (again v') → Goes v v'
  Goes-Case v v' (idle e r) = absurd (leave-ne-again _ v' r)
  Goes-Case v v' (step call rest e s) = Goes-Stepped call rest v v' e s

  pub Goes-round : (v v' : Vars World) → round env limits v ≡ again v' → Goes v v'
  Goes-round v v' h = Goes-Case v v' (subst (Case env limits v) h (round-Case env limits v))

  measure : Vars World → ℕ
  measure v =
      (limits.max_iterations + 1 - v.iteration) * (limits.max_retries + 1)
      + (limits.max_retries - front_retries v.pending v.retry_counts)

  Goes-measure : (v v' : Vars World) → Goes v v' → measure v' < measure v
  unfolding measure
  Goes-measure v v' (advanced l e) =
      fewer_rounds (limits.max_iterations + 1 - v.iteration)
        (limits.max_iterations + 1 - v'.iteration) limits.max_retries _ _ (omega (arith, l, e))
  Goes-measure v v' (same_call e l f g) = rw (e, g) (omega (arith, f))

  -- With more fuel than the measure the loop ends.
  run_loop_ends :
      (fuel : ℕ) (v : Vars World)
      → measure v < fuel
      → (r : ExecutionReport × Executor World) × (run_loop env limits fuel v ≡ some r)
  unfolding run_loop
  run_loop_ends zero v l = absurd (omega (arith, l))
  run_loop_ends (suc fuel) v l = elim (Round-cases (round env limits v)) [
    | inl (v', e) ↦
        rw (e, run_loop)
          (run_loop_ends fuel v' (omega (arith, l, Goes-measure v v' (Goes-round v v' e))))
    | inr (report, self, e) ↦ rw (e, run_loop) ((report, self), refl)
  ]

  -- The fuel of `execute` is enough: whatever the planner, the tools and the other threads do, it ends
  -- with a report.
  pub execute-returns :
      (prompt : String) (pending : List ToolCall) (steps : List ExecutionStep)
      (events : List ProgressEvent) (history : List CompletedCall) (replans_used iteration : ℕ)
      (self : Executor World)
      → (r : ExecutionReport × Executor World) × (execute env limits prompt pending steps events
            history replans_used iteration self
          ≡ some r)
  unfolding execute measure
  execute-returns prompt pending steps events history replans_used iteration self =
      run_loop_ends (enough_fuel env limits iteration) _ (omega arith)
