-- ===== src/Context/Tokens.antt =====
-- src/llm/token_budget.py: the estimate of tokens and the truncation to a budget.
use Prim.Native.String
use pearl_ai.Base.{
  String, ℕ, leb, ltb, if◌then◌else◌, len_text, take_text, ◌*◌, ◌-◌, ◌/◌, ◌==◌, ◌||◌,
}

abbrev pub chars_per_token : ℕ
chars_per_token = 4

abbrev pub truncation_notice : String
truncation_notice = "\n[...context truncated to fit token budget...]"

-- `estimate_tokens`
unfoldable pub estimate_tokens : String → ℕ
unfolding len_text
estimate_tokens text = let n = len_text text / chars_per_token in if ltb n 1 then 1 else n

-- `truncate_to_tokens`; a budget below 0 is treated as 0 is.
unfoldable pub truncate_to_tokens : String → ℕ → String
unfolding estimate_tokens take_text len_text
truncate_to_tokens text max_tokens =
    if max_tokens == 0 || leb (estimate_tokens text) max_tokens
    then text
    else String.◌++◌ (take_text (max_tokens * chars_per_token - len_text truncation_notice) text)
        truncation_notice
