-- ===== src/Planner/Budget.antt =====
-- Whether a planning prompt with its workspace context fits the window of the model.
use pearl_ai.Planner.Prompt.{with_context, build_prompt, base_prompt}
use pearl_ai.Context.Allowance.{context_token_allowance, ContextBudget, margin}
use pearl_ai.Context.Budget.{truncate_to_tokens-fits, len_text-append}
use pearl_ai.Context.Tokens.{truncate_to_tokens, estimate_tokens}
use pearl_ai.Tools.{Tool}
use pearl_ai.Base.{
  subst, sym, ◌-◌, ◌<◌, String, [], ◌∷◌, len_text, text_of, ◌≡◌, refl, ◌+◌, Bool-cases, List, ap,
  arith, eq_iff, inl, inr, str_eq, ℕ, ◌/◌, ◌∙◌, ◌≢◌, ◌≤◌, if_false,
}

abbrev heading : String
heading = "Current workspace context (recent activity in this session):\n\n"

heading_length : len_text heading ≡ 62
unfolding len_text
heading_length = refl

len_text-text_of :
    (s : String) (ss : List String)
    → len_text (text_of (s ∷ ss)) ≡ len_text s + len_text (text_of ss)
unfolding text_of
len_text-text_of s ss = len_text-append s (text_of ss)

text_of-nil : len_text (text_of []) ≡ 0
unfolding text_of len_text
text_of-nil = refl

gap_length : len_text "\n\n" ≡ 2
unfolding len_text
gap_length = refl

len_text-with_context :
    (context prompt : String)
    → len_text (with_context context prompt) ≤ len_text context + len_text prompt + 64
unfolding with_context
len_text-with_context context prompt = elim (Bool-cases (str_eq context "")) [
  | inl b ↦ rw b (omega arith)
  | inr b ↦ rw b (
      omega (
        arith,
        len_text-text_of heading (context ∷ "\n\n" ∷ prompt ∷ []),
        len_text-text_of context ("\n\n" ∷ prompt ∷ []),
        len_text-text_of "\n\n" (prompt ∷ []),
        len_text-text_of prompt [],
        text_of-nil,
        gap_length,
        heading_length,
      ))
]

estimate_length : (s : String) (m : ℕ) → estimate_tokens s ≤ m → len_text s / 4 ≤ m
unfolding estimate_tokens
estimate_length s m h = ground (arith, h)

length_estimate : (s : String) (m : ℕ) → 0 < m → len_text s / 4 ≤ m → estimate_tokens s ≤ m
unfolding estimate_tokens
length_estimate s m p h = ground (arith, p, h)

window :
    (w c p n r m : ℕ)
    → 50 ≤ m
    → 11 ≤ n - r - p / 4 - m
    → c / 4 ≤ n - r - p / 4 - m
    → w ≤ c + p + 64
    → (w / 4 ≤ n - r) × (0 < n - r) × (r ≤ n)
window w c p n r m h k l f = omega arith

margin-ge : (b : ContextBudget) → 50 ≤ margin b
margin-ge b = ground arith

within : (s : String) (n r : ℕ) → r ≤ n → estimate_tokens s ≤ n - r → estimate_tokens s + r ≤ n
within s n r h k = omega (arith, h, k)

module _ (tools : List Tool) (b : ContextBudget) (planning : List Tool → String → String)
    (user_prompt context : String) where
  -- The tokens that the prompt leaves for the context.
  abbrev pub room : ℕ
  room = context_token_allowance b (base_prompt tools b planning user_prompt)

  -- With room for 11 tokens of context, a prompt with a context fits the window with the response, by the
  -- estimate. With no room at all, the context is put in front whole.
  pub build_prompt-fits :
      context ≢ ""
      → (11 ≤ room
          → estimate_tokens (build_prompt tools b planning user_prompt context) + b.response_tokens
            ≤ b.n_ctx)
        × (room ≡ 0
            → build_prompt tools b planning user_prompt context
              ≡ with_context context (base_prompt tools b planning user_prompt))
  unfolding build_prompt context_token_allowance
  build_prompt-fits full =
      let prompt = base_prompt tools b planning user_prompt in
      let built : build_prompt tools b planning user_prompt context
          ≡ with_context (truncate_to_tokens context room) prompt =
        not_empty in
      (
        λ l.
            let fits = (truncate_to_tokens-fits context room).0 l in
            let kept = truncate_to_tokens context room in
            let (w, p, r) =
              window (len_text (with_context kept prompt)) (len_text kept) (len_text prompt) b.n_ctx
                b.response_tokens (margin b) (margin-ge b) l (estimate_length kept room fits)
                (len_text-with_context kept prompt) in
            subst (λ s. estimate_tokens s + b.response_tokens ≤ b.n_ctx) (sym built)
              (within (with_context kept prompt) b.n_ctx b.response_tokens r
                (length_estimate (with_context kept prompt) (b.n_ctx - b.response_tokens) p w)),
        λ z.
            built
            ∙ ap (λ n. with_context (truncate_to_tokens context n) prompt) z
            ∙ ap (λ s. with_context s prompt) (truncate_to_tokens-fits context 0).2,
      )
    where
      not_empty :
          build_prompt tools b planning user_prompt context
          ≡ with_context
              (truncate_to_tokens context room)
              (base_prompt tools b planning user_prompt)
      not_empty = elim (Bool-cases (str_eq context "")) [
        | inl e ↦ absurd (full ((eq_iff context "").0 e))
        | inr e ↦ if_false (str_eq context "") (base_prompt tools b planning user_prompt) _ e
      ]
