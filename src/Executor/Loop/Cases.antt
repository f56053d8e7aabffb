-- ===== src/Executor/Loop/Cases.antt =====
-- The ways through one round of the loop.
use pearl_ai.Tools.{Outcome, raised, returned}
use pearl_ai.Retry.{is_transient_error}
use pearl_ai.Plan.{ToolCall}
use pearl_ai.Report.{fatal_error, cancelled, StopReason}
use pearl_ai.Python.{is_instance, Exception, Value}
use pearl_ai.Executor.Loop.{
  Vars, Round, again, ask, finish, give_up, after_replan, ask_replan, check_cancelled, use_answer,
  after_failure, after_none, after_retry, after_success, call_step, failure_count, handle_error,
  leave, recover, retries_of, round, started, take_step, use_outcome, round_on,
}
use pearl_ai.Executor.{Environment, Limits, planned, plan_raised, Planned, staged_count}
use pearl_ai.Base.{
  Bool-cases, List, inl, inr, refl, true, ◌≡◌, [], and_left, and_right, arith, leb, leb→le, leb→lt,
  ltb, ltb→le, ltb→lt, str_eq, ◌&&◌, ◌<◌, ◌∷◌, ◌≤◌, ◌⊎◌,
}

module _ (env : Environment) (limits : Limits) where
  open env use {files, poll, call_tool}
  open files use {World}

  -- The planner is asked after a failure, at `v`.
  pub data Asked (call : ToolCall) (exc : Exception) (v : Vars World) (r : Round World)
      : Type 0 where
    ask_cancelled :
        (check_cancelled env limits v).0 ≡ true
        → r ≡ finish env limits cancelled (check_cancelled env limits v).1
        → Asked call exc v r
    replanned :
        (calls : List ToolCall)
        → r
          ≡ again (
              after_replan env limits calls
                (ask env limits call exc (check_cancelled env limits v).1).1)
        → Asked call exc v r
    replan_cancelled :
        (x : Exception)
        → is_instance x "LLMCancelled" ≡ true
        → (ask env limits call exc (check_cancelled env limits v).1).0 ≡ plan_raised x
        → r
          ≡ finish env limits cancelled
              (check_cancelled env limits
                (ask env limits call exc (check_cancelled env limits v).1).1).1
        → Asked call exc v r
    replan_failed :
        r
          ≡ give_up env limits fatal_error
              (ask env limits call exc (check_cancelled env limits v).1).1
        → Asked call exc v r

  use_answer-Asked :
      (call : ToolCall) (exc : Exception) (v : Vars World) (answer : Planned)
      → (ask env limits call exc (check_cancelled env limits v).1).0 ≡ answer
      → Asked call exc v (
          use_answer env limits answer (ask env limits call exc (check_cancelled env limits v).1).1)
  unfolding use_answer
  use_answer-Asked call exc v (planned calls) e = replanned calls refl
  use_answer-Asked call exc v (plan_raised x) e = elim (Bool-cases (is_instance x "LLMCancelled")) [
    | inl b ↦ replan_cancelled x b e (rw b)
    | inr b ↦ replan_failed (rw b)
  ]

  ask_replan-Asked :
      (call : ToolCall) (exc : Exception) (v : Vars World)
      → Asked call exc v (ask_replan env limits call exc v)
  unfolding ask_replan
  ask_replan-Asked call exc v = elim (Bool-cases (check_cancelled env limits v).0) [
    | inl b ↦ ask_cancelled b (rw b)
    | inr b ↦ rw b (
        use_answer-Asked call exc v (ask env limits call exc (check_cancelled env limits v).1).0
          refl)
  ]

  -- The handler of a raised error, at `v`.
  pub data Handled (call : ToolCall) (exc : Exception) (v : Vars World) (r : Round World)
      : Type 0 where
    retried :
        is_transient_error exc ≡ true
        → retries_of v.retry_counts call.object_id < limits.max_retries
        → r ≡ again (after_retry env limits call v)
        → Handled call exc v r
    gave_up :
        (2 ≤ failure_count env limits call v) ⊎ (limits.max_replans ≤ v.replans_used)
        → r ≡ give_up env limits fatal_error (after_failure env limits call exc v)
        → Handled call exc v r
    asked :
        failure_count env limits call v < 2
        → v.replans_used < limits.max_replans
        → Asked call exc (after_failure env limits call exc v) r
        → Handled call exc v r

  replans_used-after_failure :
      (call : ToolCall) (exc : Exception) (v : Vars World)
      → (after_failure env limits call exc v).replans_used ≡ v.replans_used
  unfolding after_failure
  replans_used-after_failure call exc v = refl

  recover-Handled :
      (call : ToolCall) (exc : Exception) (v : Vars World)
      → Handled call exc v (
          recover env limits call exc
            (failure_count env limits call v)
            (after_failure env limits call exc v))
  unfolding recover
  recover-Handled call exc v =
      let u = after_failure env limits call exc v in
      elim (Bool-cases (leb 2 (failure_count env limits call v))) [
        | inl b ↦ rw b (gave_up (inl (leb→le _ _ b)) refl)
        | inr b ↦ elim (Bool-cases (leb limits.max_replans u.replans_used)) [
          | inl c ↦
              rw (b, c)
                (gave_up (inr (omega (arith, leb→le _ _ c, replans_used-after_failure call exc v)))
                  refl)
          | inr c ↦
              rw (b, c)
                (asked (leb→lt _ _ b)
                  (omega (arith, leb→lt _ _ c, replans_used-after_failure call exc v))
                  (ask_replan-Asked call exc u))
        ]
      ]

  handle_error-Handled :
      (call : ToolCall) (exc : Exception) (v : Vars World)
      → Handled call exc v (handle_error env limits call exc v)
  unfolding handle_error
  handle_error-Handled call exc v =
      elim (Bool-cases (
        is_transient_error exc
        && ltb (retries_of v.retry_counts call.object_id) limits.max_retries)) [
          | inl b ↦ rw b (retried (and_left _ _ b) (ltb→lt _ _ (and_right _ _ b)) refl)
          | inr b ↦ rw b (recover-Handled call exc v)
        ]

  -- A round for a call that was taken off the plan, at `v`.
  pub data Stepped (call : ToolCall) (v : Vars World) (r : Round World) : Type 0 where
    at_limit :
        limits.max_iterations < v.iteration
        → r ≡ give_up env limits StopReason.max_iterations (record v { pending = call ∷ v.pending })
        → Stepped call v r
    no_tool :
        v.iteration ≤ limits.max_iterations
        → r ≡ leave env limits (after_none env limits call v)
        → Stepped call v r
    was_cancelled :
        (check_cancelled env limits v).0 ≡ true
        → r ≡ finish env limits cancelled (check_cancelled env limits v).1
        → Stepped call v r
    succeeded :
        (result : Value)
        → v.iteration ≤ limits.max_iterations
        → (call_step env limits call (check_cancelled env limits v).1).0 ≡ returned result
        → r
          ≡ again (
              after_success env limits call result
                (staged_count (check_cancelled env limits v).1.self)
                (call_step env limits call (check_cancelled env limits v).1).1)
        → Stepped call v r
    errored :
        (exc : Exception)
        → v.iteration ≤ limits.max_iterations
        → (call_step env limits call (check_cancelled env limits v).1).0 ≡ raised exc
        → Handled call exc (call_step env limits call (check_cancelled env limits v).1).1 r
        → Stepped call v r

  use_outcome-Stepped :
      (call : ToolCall) (v : Vars World) (outcome : Outcome)
      → v.iteration ≤ limits.max_iterations
      → (call_step env limits call (check_cancelled env limits v).1).0 ≡ outcome
      → Stepped call v (
          use_outcome env limits call outcome
            (staged_count (check_cancelled env limits v).1.self)
            (call_step env limits call (check_cancelled env limits v).1).1)
  unfolding use_outcome
  use_outcome-Stepped call v (returned result) h e = succeeded result h e refl
  use_outcome-Stepped call v (raised exc) h e = errored exc h e (handle_error-Handled call exc _)

  take_step-Stepped :
      (call : ToolCall) (v : Vars World) → Stepped call v (take_step env limits call v)
  unfolding take_step
  take_step-Stepped call v = elim (Bool-cases (ltb limits.max_iterations v.iteration)) [
    | inl b ↦ rw b (at_limit (ltb→lt _ _ b) refl)
    | inr b ↦ elim (Bool-cases (str_eq call.tool_name "none")) [
      | inl c ↦ rw (b, c) (no_tool (ltb→le _ _ b) refl)
      | inr c ↦ elim (Bool-cases (check_cancelled env limits v).0) [
        | inl d ↦ rw (b, c, d) (was_cancelled d refl)
        | inr d ↦ rw (b, c, d) (use_outcome-Stepped call v _ (ltb→le _ _ b) refl)
      ]
    ]
  ]

  pub data Case (v : Vars World) (r : Round World) : Type 0 where
    idle : v.pending ≡ [] → r ≡ leave env limits v → Case v r
    step :
        (call : ToolCall) (rest : List ToolCall)
        → v.pending ≡ call ∷ rest
        → Stepped call (started env limits rest v) r
        → Case v r

  round_on-Case :
      (v : Vars World) (pending : List ToolCall)
      → v.pending ≡ pending
      → Case v (round_on env limits pending v)
  unfolding round_on
  round_on-Case v [] e = idle e refl
  round_on-Case v (call ∷ rest) e =
      step call rest e (take_step-Stepped call (started env limits rest v))

  pub round-Case : (v : Vars World) → Case v (round env limits v)
  unfolding round
  round-Case v = round_on-Case v v.pending refl
