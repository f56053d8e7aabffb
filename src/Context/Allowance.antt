-- ===== src/Context/Allowance.antt =====
-- src/llm/context_budget.py: how many tokens of workspace context a planning prompt has room for.
use pearl_ai.Context.Tokens.{chars_per_token}
use pearl_ai.Base.{String, ℕ, len_text, if◌then◌else◌, ltb, ◌-◌, ◌/◌}

-- A response that is below 0 counts as 0.
pub record ContextBudget : Type 0 where
  pub n_ctx : ℕ
  pub response_tokens : ℕ

-- `usable`
abbrev pub usable : ContextBudget → ℕ
usable b = b.n_ctx - b.response_tokens

-- `max(50, int(n_ctx * 0.05))`
abbrev pub margin : ContextBudget → ℕ
margin b = if ltb 50 (b.n_ctx / 20) then b.n_ctx / 20 else 50

-- `context_token_allowance`
unfoldable pub context_token_allowance : ContextBudget → String → ℕ
unfolding len_text
context_token_allowance b prompt = usable b - len_text prompt / chars_per_token - margin b
