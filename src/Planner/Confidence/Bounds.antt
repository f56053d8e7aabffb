-- ===== src/Planner/Confidence/Bounds.antt =====
-- Between which values the scores of a plan lie, and what their factors say.
use pearl_ai.Planner.Confidence.{
  StepConfidence, Scoring, pos, minus, clamp, score_position, score_write, score_step,
  write_tool_names, shell_tool_names, score_steps, total, replan_deduction, score_plan,
  score_replans,
}
use pearl_ai.Plan.{ToolCall}
use pearl_ai.Base.{
  ℕ, List, [], ◌∷◌, one_of, str_eq, ◌≡◌, refl, ◌∙◌, subst, arith, ◌+◌, ◌*◌, ◌≤◌, Bool-cases, inl,
  inr, if◌then◌else◌, ◌==◌, All, length, suc, zero,
}
use pearl_ai.Planner.Confidence.Charged.{
  deducted, deducted-append, Charged, Charged-both, score_position-Charged, score_write-Charged,
  not_both, score_shell-Charged, at_most_25,
}

-- What is taken off a score is missing from it, while it is not more than the score.
clamp-minus : (one t d : ℕ) → d ≤ t → t ≤ one → clamp one (minus (pos t) d) + d ≡ t
unfolding clamp
clamp-minus one t d h k = ground (arith, h, k)

-- A step keeps 27 hundredths at least, and what it loses is what its factors say.
abbrev pub IsExplained : StepConfidence → Type 0
IsExplained s = (27 ≤ s.score) × (s.score + deducted s.factors ≡ 100)

score_step-keeps :
    (step : ToolCall) (i : ℕ)
    → i ≤ 24
    → (75 ≤ (score_step step i).score + 2 * i)
      × ((score_step step i).score + deducted (score_step step i).factors ≡ 100)
unfolding score_step
score_step-keeps step i h =
    let start : Scoring = record { score = pos 100; factors = [] } in
    let p = score_position-Charged i start in
    let w = score_write-Charged step.tool_name (score_position i start) in
    let (d, few, l) =
      score_shell-Charged step (score_write step.tool_name (score_position i start)) in
    let c : ℕ = if one_of step.tool_name write_tool_names then 10 else 0 in
    let both : Charged (2 * i + c) start (score_write step.tool_name (score_position i start)) =
      Charged-both (2 * i) c start _ _ p w in
    let all = Charged-both (2 * i + c) d start _ _ both l in
    let risky : c + d ≤ 25 =
      at_most_25 (one_of step.tool_name write_tool_names) (one_of step.tool_name shell_tool_names) d
        (not_both step.tool_name) few in
    let left = clamp-minus 100 100 (2 * i + c + d) (omega (arith, risky, h)) (omega arith) in
    elim (Bool-cases (str_eq step.tool_name "none")) [
      | inl b ↦ rw b (omega arith, omega arith)
      | inr b ↦ rw (b, all.0) (omega (arith, left, risky), omega (arith, left, all.1))
    ]

score_steps-IsExplained :
    (i : ℕ) (steps : List ToolCall) → i + length steps ≤ 25 → All IsExplained (score_steps i steps)
unfolding score_steps
score_steps-IsExplained i [] h = tt
score_steps-IsExplained i (s ∷ ss) h =
    let k = score_step-keeps s i (omega (arith, h)) in
    ((omega (arith, k.0, h), k.1), score_steps-IsExplained (i + 1) ss (omega (arith, h)))

mul_at_most : (k : ℕ) {a b : ℕ} → a ≤ b → k * a ≤ k * b
mul_at_most zero h = omega arith
mul_at_most (suc k) {a} {b} h = omega (arith, h, mul_at_most k h)

square_at_most : (k t : ℕ) → k ≤ 25 → 76 * k ≤ t + k * (2 * 0 + k) → 51 * k ≤ t
square_at_most k t h g = omega (arith, g, mul_at_most k h)

-- Later steps lose more: the sum of the losses grows with the square of the number of steps.
total-at_least :
    (i : ℕ) (steps : List ToolCall)
    → i + length steps ≤ 25
    → 76 * length steps ≤ total (score_steps i steps) + length steps * (2 * i + length steps)
unfolding score_steps
total-at_least i [] h = omega arith
total-at_least i (s ∷ ss) h =
    let k = score_step-keeps s i (omega (arith, h)) in
    let rest = total-at_least (i + 1) ss (omega (arith, h)) in omega (arith, k.0, rest)

total-at_most :
    (i : ℕ) (steps : List ToolCall)
    → i + length steps ≤ 25
    → total (score_steps i steps) ≤ 100 * length steps
unfolding score_steps
total-at_most i [] h = omega arith
total-at_most i (s ∷ ss) h =
    let k = score_step-keeps s i (omega (arith, h)) in
    omega (arith, k.1, total-at_most (i + 1) ss (omega (arith, h)))

replan_deduction-bounds :
    (m n : ℕ) → m ≤ n → (replan_deduction m ≤ replan_deduction n) × (replan_deduction n ≤ 30)
replan_deduction-bounds m n h = ground (arith, h)

score_replans-charges :
    (parts n : ℕ) (s : Scoring)
    → ((score_replans parts n s).score ≡ minus s.score (parts * replan_deduction n))
      × (deducted (score_replans parts n s).factors ≡ deducted s.factors + replan_deduction n)
unfolding score_replans
score_replans-charges parts n s = elim (Bool-cases (n == 0)) [
  | inl b ↦
      let z : 0 ≡ n = ground (arith, b) in
      rw b (
        subst
          (λ k.
            (s.score ≡ minus s.score (parts * replan_deduction k))
            × (deducted s.factors ≡ deducted s.factors + replan_deduction k))
          z (ground arith, omega arith))
  | inr b ↦ rw b (refl, deducted-append s.factors _ ∙ omega arith)
]

module _ (step : ToolCall) (rest : List ToolCall) where
  abbrev steps : List ToolCall
  steps = step ∷ rest

  -- The score is the mean of the steps less what the replans deduct: the clamp changes nothing.
  score_plan-exact :
      (n : ℕ)
      → length steps ≤ 25
      → ((score_plan steps n).score + length steps * replan_deduction n
          ≡ total (score_steps 0 steps))
        × (deducted (score_plan steps n).plan_factors ≡ replan_deduction n)
        × (51 * length steps ≤ total (score_steps 0 steps))
  unfolding score_plan
  score_plan-exact n h =
      let t = total (score_steps 0 steps) in
      let from_0 : 0 + length steps ≤ 25 = omega (arith, h) in
      let r = score_replans-charges (length steps) n (record { score = pos t; factors = [] }) in
      let least : 51 * length steps ≤ t =
        square_at_most (length steps) t h (total-at_least 0 steps from_0) in
      let few = (replan_deduction-bounds n n (omega arith)).1 in
      let off : length steps * replan_deduction n ≤ length steps * 30 =
        mul_at_most (length steps) few in
      (
        rw r.0 (
            clamp-minus (100 * length steps) t (length steps * replan_deduction n)
              (omega (arith, least, off)) (total-at_most 0 steps from_0)),
        r.1 ∙ omega arith,
        least,
      )

  -- In a plan of at most 25 steps, every step keeps a score of 0.27 and the plan one of 0.21 at least, and
  -- none goes beyond 1. What a step lacks of 1, and the plan of the mean of its steps, is what the named
  -- factors deduct. The replans deduct 0.3 at most, and a plan behind more of them scores no higher.
  pub score_plan-bounds :
      (m n : ℕ)
      → length (step ∷ rest) ≤ 25
      → m ≤ n
      → let c = score_plan (step ∷ rest) n in
        (c.scale ≡ length (step ∷ rest))
        × (21 * c.scale ≤ c.score)
        × (c.score ≤ 100 * c.scale)
        × (c.score + c.scale * deducted c.plan_factors ≡ total c.step_scores)
        × (deducted c.plan_factors ≤ 30)
        × (c.score ≤ (score_plan (step ∷ rest) m).score)
        × All IsExplained c.step_scores
  unfolding score_plan
  score_plan-bounds m n h l =
      let from_0 : 0 + length steps ≤ 25 = omega (arith, h) in
      let e = score_plan-exact n h in
      let f = score_plan-exact m h in
      let d = replan_deduction-bounds m n l in
      let off = mul_at_most (length steps) d.1 in
      let more = mul_at_most (length steps) d.0 in
      (
        refl,
        omega (arith, e.0, e.2, off),
        omega (arith, e.0, total-at_most 0 steps from_0),
        rw e.1 e.0,
        rw e.1 d.1,
        omega (arith, e.0, f.0, more),
        score_steps-IsExplained 0 steps from_0,
      )
