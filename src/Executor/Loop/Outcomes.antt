-- ===== src/Executor/Loop/Outcomes.antt =====
-- What the loop hands back: the budgets that every report keeps, and when it is a pause.
use pearl_ai.Plan.{ToolCall}
use pearl_ai.Executor.Loop.Counts.{Ends-round, Final, Moves, closed, cut, goes, Ends}
use pearl_ai.Executor.Loop.Terminates.{
  same_call, Goes-round, Goes, advanced, IsStop, Round-cases, again_inj, close-ne-again,
}
use pearl_ai.Executor.Finish.{is_pause}
use pearl_ai.Executor.Loop.{
  Vars, close, stop, emit, finish, paused_state, shared, run_loop, again, round, execute,
}
use pearl_ai.Executor.{
  has_staged, check_awaiting_approval, Limits, Executor, Environment, event, report_of,
}
use pearl_ai.Report.{
  awaiting_approval, StopReason, ProgressStatus, PausedState, ExecutionReport, EventKind,
  approval_awaited, cancelled, kind_approval, CompletedCall, ExecutionStep, ProgressEvent,
}
use pearl_ai.Base.{
  false, some, true, ◌≡◌, Bool-cases, Option, [], inl, inr, length, refl, sym, ◌++◌, ◌+◌, ◌∙◌, ◌∷◌,
  ap, none, ◌≤◌, ◌⊎◌, arith, subst, suc, zero, ℕ, ◌≢◌, List, String, ◌-◌,
}

module _ (env : Environment) (limits : Limits) where
  open env use {files}
  open files use {World}

  -- A pause for approval: something is staged, and the paused state is that of the report.
  pub record Paused (r : ExecutionReport) (x : Executor World) : Type 0 where
    pub awaiting : r.stop_reason ≡ awaiting_approval
    pub staged : has_staged x ≡ true
    pub state : PausedState
    pub kept : x.paused ≡ some state
    pub same_steps : state.steps ≡ r.steps
    pub same_events : state.events ≡ r.events
    pub same_replans : state.replans_used ≡ r.replans_used

  -- The two ways to close: a pause, or an end with nothing staged.
  data Closing (reason : StopReason) (u : Vars World) (r : ExecutionReport) (x : Executor World)
      : Type 0 where
    pauses : Paused r x → Closing reason u r x
    ends :
        r.stop_reason ≡ reason
        → has_staged x ≡ false
        → x.paused ≡ u.self.paused
        → Closing reason u r x

  stop_inj :
      (r r' : ExecutionReport) (x x' : Executor World) → stop r x ≡ stop r' x' → (r ≡ r') × (x ≡ x')
  stop_inj r r' x x' h = (cc, cc)

  -- The state that a pause keeps.
  abbrev paused_at : Vars World → PausedState
  paused_at u = record (paused_state env limits u) {
    events =
        u.events
        ++ event approval_awaited (length u.steps) (length u.steps + length u.pending) kind_approval
          ∷ [];
  }

  check-staged :
      (s : PausedState) (x : Executor World)
      → has_staged x ≡ true
      → check_awaiting_approval s x ≡ (
        some (
            report_of s.steps awaiting_approval s.replans_used (
              s.events
              ++ event approval_awaited
                  (length s.steps)
                  (length s.steps + length s.pending)
                  kind_approval
                ∷ [])),
        record x {
          paused = some (record s {
            events =
                s.events
                ++ event approval_awaited
                    (length s.steps)
                    (length s.steps + length s.pending)
                    kind_approval
                  ∷ [];
          });
        },
      )
  unfolding check_awaiting_approval
  check-staged s x b = rw b refl

  check-clear :
      (s : PausedState) (x : Executor World)
      → has_staged x ≡ false
      → check_awaiting_approval s x ≡ (none, x)
  unfolding check_awaiting_approval
  check-clear s x b = rw b refl

  close-staged :
      (reason : StopReason) (status : ProgressStatus) (action : EventKind) (u : Vars World)
      → has_staged (shared env limits u) ≡ true
      → close env limits reason status action u
        ≡ stop
            (report_of u.steps awaiting_approval u.replans_used (paused_at u).events)
            (record (shared env limits u) { paused = some (paused_at u) })
  unfolding close
  close-staged reason status action u b =
      let e = check-staged (paused_state env limits u) (shared env limits u) b in
      rw (ap (λ p. p.0) e, ap (λ p. p.1) e, close) refl

  close-clear :
      (reason : StopReason) (status : ProgressStatus) (action : EventKind) (u : Vars World)
      → has_staged (shared env limits u) ≡ false
      → close env limits reason status action u
        ≡ finish env limits reason
            (emit env limits status (length u.steps) (length u.steps) action u)
  unfolding close
  close-clear reason status action u b =
      let e = check-clear (paused_state env limits u) (shared env limits u) b in
      rw (ap (λ p. p.0) e, close) refl

  close-Closing :
      (reason : StopReason) (status : ProgressStatus) (action : EventKind) (u : Vars World)
      (r : ExecutionReport) (x : Executor World)
      → close env limits reason status action u ≡ stop r x
      → Closing reason u r x × (r.steps ≡ u.steps) × (r.replans_used ≡ u.replans_used)
  unfolding has_staged
  close-Closing reason status action u r x h =
      elim (Bool-cases (has_staged (shared env limits u))) [
        | inl b ↦
            let (e, f) = stop_inj _ _ _ _ (sym (close-staged reason status action u b) ∙ h) in
            rw (sym e, sym f)
              (
                pauses (record {
                  awaiting = refl;
                  staged = b;
                  state = paused_at u;
                  kept = refl;
                  same_steps = refl;
                  same_events = refl;
                  same_replans = refl;
                }),
                refl,
                refl,
              )
        | inr b ↦
            let (e, f) = stop_inj _ _ _ _ (sym (close-clear reason status action u b) ∙ h) in
            rw (sym e, sym f) (ends refl b refl, refl, refl)
      ]

  -- How the loop ends, by its report.
  pub data LoopEnd (p : Option PausedState) (r : ExecutionReport) (x : Executor World)
      : Type 0 where
    awaits : Paused r x → LoopEnd p r x
    was_cut : r.stop_reason ≡ cancelled → x.paused ≡ p → LoopEnd p r x
    finished : is_pause r.stop_reason ≡ false → has_staged x ≡ false → x.paused ≡ p → LoopEnd p r x

  -- What every report of a loop keeps, from the variables that it started with.
  pub record Kept (v : Vars World) (r : ExecutionReport) (x : Executor World) : Type 0 where
    pub ending : LoopEnd v.self.paused r x
    pub replans_grow : v.replans_used ≤ r.replans_used
    pub replans_bound : (r.replans_used ≤ v.replans_used) ⊎ (r.replans_used ≤ limits.max_replans)
    pub steps_bound : length r.steps ≤ length v.steps + (limits.max_iterations - v.iteration)

  Final-steps :
      (v u : Vars World)
      → Final env limits v u
      → length u.steps ≤ length v.steps + (limits.max_iterations - v.iteration)
  Final-steps v u f = elim (Final.few_steps f) [
    | inl e ↦ omega (arith, e)
    | inr (e, m) ↦ omega (arith, e, m)
  ]

  ending_of :
      (p : Option PausedState) (reason : StopReason) (u : Vars World) (r : ExecutionReport)
      (x : Executor World)
      → is_pause reason ≡ false
      → u.self.paused ≡ p
      → Closing reason u r x
      → LoopEnd p r x
  ending_of p reason u r x n e (pauses k) = awaits k
  ending_of p reason u r x n e (ends a b c) = finished (ap is_pause a ∙ n) b (c ∙ e)

  Kept-closed :
      (v u : Vars World) (reason : StopReason) (status : ProgressStatus) (action : EventKind)
      (r : ExecutionReport) (x : Executor World)
      → is_pause reason ≡ false
      → Final env limits v u
      → close env limits reason status action u ≡ stop r x
      → Kept v r x
  Kept-closed v u reason status action r x p f h =
      let (c, s, n) = close-Closing reason status action u r x h in
      let replans : r.replans_used ≡ v.replans_used = n ∙ Final.same_replans f in
      record {
        ending = ending_of v.self.paused reason u r x p (Final.stays_paused f) c;
        replans_grow = omega (arith, replans);
        replans_bound = inl (omega (arith, replans));
        steps_bound = rw s (Final-steps v u f);
      }

  Kept-cut :
      (v u : Vars World) (r : ExecutionReport) (x : Executor World)
      → Final env limits v u
      → finish env limits cancelled u ≡ stop r x
      → Kept v r x
  Kept-cut v u r x f h =
      let (e, g) = stop_inj _ _ _ _ h in
      rw (sym e, sym g)
        (record {
          ending = was_cut refl (Final.stays_paused f);
          replans_grow = omega (arith, Final.same_replans f);
          replans_bound = inl (omega (arith, Final.same_replans f));
          steps_bound = Final-steps v u f;
        })

  Kept-goes :
      (v v' : Vars World) (r : ExecutionReport) (x : Executor World)
      → v'.iteration ≤ limits.max_iterations
      → Moves env limits v v'
      → Kept v' r x
      → Kept v r x
  Kept-goes v v' r x l m k = record {
    ending = subst (λ p. LoopEnd p r x) (Moves.same_paused m) k.ending;
    replans_grow = elim (Moves.few_replans m) [
      | inl e ↦ omega (arith, e, k.replans_grow)
      | inr (e, b) ↦ omega (arith, e, k.replans_grow)
    ];
    replans_bound = elim (k.replans_bound) [
      | inr b ↦ inr b
      | inl b ↦ elim (Moves.few_replans m) [
        | inl e ↦ inl (omega (arith, e, b))
        | inr (e, c) ↦ inr (omega (arith, e, b, c))
      ]
    ];
    steps_bound = omega (arith, l, k.steps_bound, Moves.step_each m);
  }

  iteration-Goes : (v v' : Vars World) → Goes env limits v v' → v'.iteration ≤ limits.max_iterations
  iteration-Goes v v' (advanced l e) = omega (arith, l, e)
  iteration-Goes v v' (same_call e l f g) = omega (arith, l, e)

  empty_loop :
      (v : Vars World) (r : ExecutionReport) (x : Executor World)
      → run_loop env limits 0 v ≢ some (r, x)
  unfolding run_loop
  empty_loop v r x h = cc

  -- A loop that handed back a result made a round that ends, or one that goes on to the same result.
  run_loop-rounds :
      (fuel : ℕ) (v : Vars World) (r : ExecutionReport) (x : Executor World)
      → run_loop env limits (suc fuel) v ≡ some (r, x)
      → (round env limits v ≡ stop r x)
        ⊎ ((v' : Vars World) × (round env limits v ≡ again v')
            × (run_loop env limits fuel v' ≡ some (r, x)))
  unfolding run_loop
  run_loop-rounds fuel v r x h = elim (Round-cases (round env limits v)) [
    | inl (v', e) ↦ inr (v', e, rw (e, run_loop) at h)
    | inr (r', x', e) ↦
        inl (e ∙ (let g : some (r', x') ≡ some (r, x) = rw (e, run_loop) at h in cc))
  ]

  Kept-stop :
      (v : Vars World) (r : ExecutionReport) (x : Executor World)
      → Ends env limits v (stop r x)
      → Kept v r x
  Kept-stop v r x (closed u reason status action p f e) =
      Kept-closed v u reason status action r x p f (sym e)
  Kept-stop v r x (cut u f e) = Kept-cut v u r x f (sym e)
  Kept-stop v r x (goes v' m e) = absurd (subst IsStop e tt)

  Moves-again : (v v' : Vars World) → Ends env limits v (again v') → Moves env limits v v'
  Moves-again v v' (closed u reason status action p f e) =
      absurd (close-ne-again env limits reason status action u v' e)
  Moves-again v v' (cut u f e) = absurd (subst IsStop (sym e) tt)
  Moves-again v v' (goes w m e) = subst (Moves env limits v) (again_inj w v' (sym e)) m

  pub run_loop-Kept :
      (fuel : ℕ) (v : Vars World) (r : ExecutionReport) (x : Executor World)
      → run_loop env limits fuel v ≡ some (r, x)
      → Kept v r x
  run_loop-Kept zero v r x h = absurd (empty_loop v r x h)
  run_loop-Kept (suc fuel) v r x h =
      let ends = Ends-round env limits v in
      elim (run_loop-rounds fuel v r x h) [
        | inl e ↦ Kept-stop v r x (subst (Ends env limits v) e ends)
        | inr (v', e, rest) ↦
            Kept-goes v v' r x (iteration-Goes v v' (Goes-round env limits v v' e))
              (Moves-again v v' (subst (Ends env limits v) e ends)) (run_loop-Kept fuel v' r x rest)
      ]

  -- Where the replans used before the loop are within `max_replans`, those that its report counts are
  -- too, and are no fewer; and the loop records at most one step for each iteration that is left.
  pub execute-budgets :
      (prompt : String) (pending : List ToolCall) (steps : List ExecutionStep)
      (events : List ProgressEvent) (history : List CompletedCall) (replans_used iteration : ℕ)
      (self : Executor World) (r : ExecutionReport) (x : Executor World)
      → replans_used ≤ limits.max_replans
      → execute env limits prompt pending steps events history replans_used iteration self
        ≡ some (r, x)
      → (replans_used ≤ r.replans_used)
        × (r.replans_used ≤ limits.max_replans)
        × (length r.steps ≤ length steps + (limits.max_iterations - iteration))
  unfolding execute
  execute-budgets prompt pending steps events history replans_used iteration self r x b h =
      let k = run_loop-Kept _ _ r x h in
      (
        k.replans_grow,
        elim (k.replans_bound) [ inl c ↦ omega (arith, b, c) | inr c ↦ c ],
        k.steps_bound,
      )

  -- The loop ends in one of three ways. It pauses for approval: then something is staged, and the paused
  -- state holds the steps, the events and the replans of the report. It is cancelled. Or it ends for
  -- another reason with nothing staged. The last two leave the paused state as it was.
  pub execute-LoopEnd :
      (prompt : String) (pending : List ToolCall) (steps : List ExecutionStep)
      (events : List ProgressEvent) (history : List CompletedCall) (replans_used iteration : ℕ)
      (self : Executor World) (r : ExecutionReport) (x : Executor World)
      → execute env limits prompt pending steps events history replans_used iteration self
        ≡ some (r, x)
      → LoopEnd self.paused r x
  unfolding execute
  execute-LoopEnd prompt pending steps events history replans_used iteration self r x h =
      let k = run_loop-Kept _ _ r x h in k.ending
