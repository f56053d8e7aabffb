-- ===== src/Commands/Laws.antt =====
-- A batch of commands as a whole: all of them in their order, or the ones before the first that raises.
use mathlib.Core.List.{append_assoc, append-nil}
use pearl_ai.Commands.{
  run_raised, run_each, one_raised, all_ran, ShellCommandRequest, RunOutcome, Completed, ran,
  CommandApprovalManager, Ran, approve_all,
}
use pearl_ai.Python.{Exception}
use pearl_ai.Base.{List, [], ap, inl, inr, refl, sym, ◌++◌, ◌∙◌, ◌∷◌, ◌≡◌, ◌⊎◌}

RunOutcome-cases :
    (o : RunOutcome) → ((c : Completed) × (o ≡ ran c)) ⊎ ((x : Exception) × (o ≡ run_raised x))
RunOutcome-cases (ran c) = inl (c, refl)
RunOutcome-cases (run_raised x) = inr (x, refl)

all_ran_inj : (cs ds : List Completed) → all_ran cs ≡ all_ran ds → cs ≡ ds
all_ran_inj cs ds h = cc

one_raised_inj : (x y : Exception) → one_raised x ≡ one_raised y → x ≡ y
one_raised_inj x y h = cc

module _ {W : Type 0} (runner : ShellCommandRequest → W → RunOutcome × W) where
  -- Every request ran, one behind the other, with one result each, from `w` to `v`.
  abbrev pub RunsAll : List ShellCommandRequest → List Completed → W → W → Type 0
  RunsAll [] cs w v = (cs ≡ []) × (v ≡ w)
  RunsAll (r ∷ rs) cs w v =
      (c : Completed) × (ds : List Completed) × ((runner r w).0 ≡ ran c)
      × (cs ≡ c ∷ ds)
      × RunsAll rs ds (runner r w).1 v

  run_each-ran :
      (r : ShellCommandRequest) (rs : List ShellCommandRequest) (acc : List Completed) (w : W)
      (c : Completed)
      → (runner r w).0 ≡ ran c
      → run_each runner (r ∷ rs) acc w ≡ run_each runner rs (acc ++ c ∷ []) (runner r w).1
  unfolding run_each
  run_each-ran r rs acc w c e = rw (e, run_each) refl

  run_each-raised :
      (r : ShellCommandRequest) (rs : List ShellCommandRequest) (acc : List Completed) (w : W)
      (x : Exception)
      → (runner r w).0 ≡ run_raised x
      → run_each runner (r ∷ rs) acc w ≡ (one_raised x, (runner r w).1)
  unfolding run_each
  run_each-raised r rs acc w x e = rw (e, run_each) refl

  run_each-nil : (acc : List Completed) (w : W) → run_each runner [] acc w ≡ (all_ran acc, w)
  unfolding run_each
  run_each-nil acc w = refl

  run_each-all_ran :
      (rs : List ShellCommandRequest) (acc cs : List Completed) (w : W)
      → (run_each runner rs acc w).0 ≡ all_ran cs
      → (ds : List Completed) × (cs ≡ acc ++ ds) × RunsAll rs ds w (run_each runner rs acc w).1
  run_each-all_ran [] acc cs w h =
      let e = run_each-nil acc w in
      (
        [],
        all_ran_inj cs acc (sym h ∙ ap (λ p. p.0) e) ∙ sym (append-nil acc),
        (refl, ap (λ p. p.1) e),
      )
  run_each-all_ran (r ∷ rs) acc cs w h = elim (RunOutcome-cases (runner r w).0) [
    | inl (c, e) ↦
        let s = run_each-ran r rs acc w c e in
        let (ds, f, k) =
          run_each-all_ran rs (acc ++ c ∷ []) cs (runner r w).1 (ap (λ p. p.0) (sym s) ∙ h) in
        (c ∷ ds, f ∙ append_assoc acc (c ∷ []) ds, (c, ds, e, refl, rw s k))
    | inr (x, e) ↦
        let g : one_raised x ≡ all_ran cs =
          ap (λ p. p.0) (sym (run_each-raised r rs acc w x e)) ∙ h in
        cc g
  ]

  -- The first request that raises: those before it ran, and it was met at `u`.
  pub record Broken (rs : List ShellCommandRequest) (x : Exception) (w v : W) : Type 0 where
    pub front : List ShellCommandRequest
    pub culprit : ShellCommandRequest
    pub back : List ShellCommandRequest
    pub results : List Completed
    pub met : W
    pub split : rs ≡ front ++ culprit ∷ back
    pub ran_front : RunsAll front results w met
    pub raised : runner culprit met ≡ (run_raised x, v)

  run_each-one_raised :
      (rs : List ShellCommandRequest) (acc : List Completed) (w : W) (x : Exception)
      → (run_each runner rs acc w).0 ≡ one_raised x
      → Broken rs x w (run_each runner rs acc w).1
  run_each-one_raised [] acc w x h =
      let g : all_ran acc ≡ one_raised x = ap (λ p. p.0) (sym (run_each-nil acc w)) ∙ h in cc g
  run_each-one_raised (r ∷ rs) acc w x h = elim (RunOutcome-cases (runner r w).0) [
    | inl (c, e) ↦
        let s = run_each-ran r rs acc w c e in
        let k =
          run_each-one_raised rs (acc ++ c ∷ []) (runner r w).1 x (ap (λ p. p.0) (sym s) ∙ h) in
        record {
          front = r ∷ k.front;
          culprit = k.culprit;
          back = k.back;
          results = c ∷ k.results;
          met = k.met;
          split = ap (λ ys. r ∷ ys) k.split;
          ran_front = (c, k.results, e, refl, k.ran_front);
          raised = rw s k.raised;
        }
    | inr (y, e) ↦
        let s = run_each-raised r rs acc w y e in
        let g = one_raised_inj y x (ap (λ p. p.0) (sym s) ∙ h) in
        record {
          front = [];
          culprit = r;
          back = rs;
          results = [];
          met = w;
          split = refl;
          ran_front = (refl, refl);
          raised = rw (s, sym g, sym e) refl;
        }
  ]

  approve_all-finish :
      (m : CommandApprovalManager) (w : W) (result : Ran)
      → (run_each runner m.staged [] w).0 ≡ result
      → ((approve_all runner m w).0 ≡ result)
        × ((approve_all runner m w).2 ≡ (run_each runner m.staged [] w).1)
  unfolding approve_all
  approve_all-finish m w (all_ran cs) e = (rw (e, approve_all) refl, rw (e, approve_all) refl)
  approve_all-finish m w (one_raised x) e = (rw (e, approve_all) refl, rw (e, approve_all) refl)

  -- A batch that goes through ran every staged command once, in the order of the batch, with its
  -- results in that order, each command in the world that the one before it left.
  pub approve_all-RunsAll :
      (m : CommandApprovalManager) (w : W) (cs : List Completed)
      → (approve_all runner m w).0 ≡ all_ran cs
      → RunsAll m.staged cs w (approve_all runner m w).2
  approve_all-RunsAll m w cs h =
      let (same, last) = approve_all-finish m w _ refl in
      let (ds, e, k) = run_each-all_ran m.staged [] cs w (sym same ∙ h) in rw (last, e) k

  approve_all-keeps :
      (m : CommandApprovalManager) (w : W) (x : Exception)
      → (run_each runner m.staged [] w).0 ≡ one_raised x
      → (approve_all runner m w).1 ≡ m
  unfolding approve_all
  approve_all-keeps m w x e = rw (e, approve_all) refl

  -- A batch that a command breaks: those before it ran, in order, it raised the error of the batch, and
  -- none behind it ran; yet the whole batch, the commands that ran among it, is still staged.
  pub approve_all-Broken :
      (m : CommandApprovalManager) (w : W) (x : Exception)
      → (approve_all runner m w).0 ≡ one_raised x
      → ((approve_all runner m w).1 ≡ m) × Broken m.staged x w (approve_all runner m w).2
  approve_all-Broken m w x h =
      let (same, last) = approve_all-finish m w _ refl in
      let k = sym same ∙ h in
      (approve_all-keeps m w x k, rw last (run_each-one_raised m.staged [] w x k))
