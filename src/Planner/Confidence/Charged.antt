-- ===== src/Planner/Confidence/Charged.antt =====
-- What each factor takes off the score of a step, and what it puts down for it.
use pearl_ai.Planner.Confidence.{
  ConfidenceFactor, Scoring, ℤ, minus, score_position, score_write, score_complex, score_shell,
  write_tool_names, shell_tool_names, command_of, is_complex,
}
use pearl_ai.Plan.{ToolCall}
use pearl_ai.Base.{
  String, ℕ, List, [], ◌∷◌, ◌++◌, one_of, str_eq, ◌≡◌, refl, ◌∙◌, ap, subst, arith, ◌+◌, ◌*◌, ◌≤◌,
  Bool, Bool-cases, inl, inr, true, false, if◌then◌else◌, eq_iff, ◌&&◌, ◌==◌,
}

abbrev pub deducted : List ConfidenceFactor → ℕ
deducted [] = 0
deducted (f ∷ fs) = f.deduction + deducted fs

pub deducted-append :
    (xs ys : List ConfidenceFactor) → deducted (xs ++ ys) ≡ deducted xs + deducted ys
deducted-append [] ys = omega arith
deducted-append (x ∷ xs) ys = omega (arith, deducted-append xs ys)

minus-minus : (z : ℤ) (a b : ℕ) → minus (minus z a) b ≡ minus z (a + b)
minus-minus z a b = ground arith

-- `d` is taken off the score, and the factors that are put down for it say so.
abbrev pub Charged : ℕ → Scoring → Scoring → Type 0
Charged d s s' = (s'.score ≡ minus s.score d) × (deducted s'.factors ≡ deducted s.factors + d)

Charged-nothing : (s : Scoring) → Charged 0 s s
Charged-nothing s = (ground arith, omega arith)

pub Charged-both : (c d : ℕ) (s t u : Scoring) → Charged c s t → Charged d t u → Charged (c + d) s u
Charged-both c d s t u g h =
    (h.0 ∙ ap (λ z. minus z d) g.0 ∙ minus-minus s.score c d, omega (arith, g.1, h.1))

Charged-factor :
    (d : ℕ) (f : ConfidenceFactor) (s : Scoring)
    → f.deduction ≡ d
    → Charged d s (record { score = minus s.score d; factors = s.factors ++ f ∷ [] })
Charged-factor d f s h = (refl, deducted-append s.factors (f ∷ []) ∙ omega (arith, h))

pub score_position-Charged : (i : ℕ) (s : Scoring) → Charged (2 * i) s (score_position i s)
unfolding score_position
score_position-Charged i s = elim (Bool-cases (i == 0)) [
  | inl b ↦
      let z : 0 ≡ i = ground (arith, b) in
      rw b (subst (λ n. Charged (2 * n) s s) z (Charged-nothing s))
  | inr b ↦ rw b (Charged-factor (2 * i) _ s refl)
]

pub score_write-Charged :
    (tool : String) (s : Scoring)
    → Charged (if one_of tool write_tool_names then 10 else 0) s (score_write tool s)
unfolding score_write
score_write-Charged tool s = elim (Bool-cases (one_of tool write_tool_names)) [
  | inl b ↦ rw b (Charged-factor 10 _ s refl)
  | inr b ↦ rw b (Charged-nothing s)
]

score_complex-Charged :
    (step : ToolCall) (s : Scoring) → (d : ℕ) × (d ≤ 5) × Charged d s (score_complex step s)
unfolding score_complex
score_complex-Charged step s =
    elim (Bool-cases (str_eq step.tool_name "execute_shell" && is_complex (command_of step))) [
      | inl b ↦ (5, omega arith, rw b (Charged-factor 5 _ s refl))
      | inr b ↦ (0, omega arith, rw b (Charged-nothing s))
    ]

-- No tool is in both tables.
pub not_both :
    (tool : String) → one_of tool shell_tool_names ≡ true → one_of tool write_tool_names ≡ false
not_both tool h = elim (Bool-cases (str_eq "execute_shell" tool)) [
  | inl b ↦ subst (λ t. one_of t write_tool_names ≡ false) ((eq_iff "execute_shell" tool).0 b) refl
  | inr b ↦ elim (Bool-cases (str_eq "run_python" tool)) [
    | inl c ↦ subst (λ t. one_of t write_tool_names ≡ false) ((eq_iff "run_python" tool).0 c) refl
    | inr c ↦ let g : false ≡ true = rw (b, c) at h in cc g
  ]
]

pub at_most_25 :
    (writes runs : Bool) (d : ℕ)
    → (runs ≡ true → writes ≡ false)
    → d ≤ (if runs then 25 else 0)
    → (if writes then 10 else 0) + d ≤ 25
at_most_25 writes true d h few = rw (h refl) (omega (arith, few))
at_most_25 true false d h few = omega (arith, few)
at_most_25 false false d h few = omega (arith, few)

score_complex-after :
    (step : ToolCall) (f : ConfidenceFactor) (s : Scoring)
    → f.deduction ≡ 20
    → (d : ℕ) × (d ≤ 25)
      × Charged d s
          (score_complex step (record { score = minus s.score 20; factors = s.factors ++ f ∷ [] }))
score_complex-after step f s h =
    let t : Scoring = record { score = minus s.score 20; factors = s.factors ++ f ∷ [] } in
    let (d, few, more) = score_complex-Charged step t in
    (20 + d, omega (arith, few), Charged-both 20 d s t _ (Charged-factor 20 f s h) more)

pub score_shell-Charged :
    (step : ToolCall) (s : Scoring)
    → (d : ℕ) × (d ≤ (if one_of step.tool_name shell_tool_names then 25 else 0))
      × Charged d s (score_shell step s)
unfolding score_shell
score_shell-Charged step s = elim (Bool-cases (one_of step.tool_name shell_tool_names)) [
  | inl b ↦ rw b (score_complex-after step _ s refl)
  | inr b ↦ rw b (0, omega arith, Charged-nothing s)
]
