-- ===== src/Risk.antt =====
-- src/tools/models.py and src/agent/headless.py: the risk tiers of tools, and which batches may be
-- approved with no user. Tiers and modes are texts, since the code defines what unknown ones do.
pub mod Laws
use pearl_ai.Base.{ℕ, String, Bool, true, false, List, [], ◌∷◌, str_eq, ltb, if◌then◌else◌}

-- `_RISK_ORDER.get(level, len(_RISK_ORDER))`
unfoldable pub risk_rank : String → ℕ
risk_rank level =
    if str_eq level "safe"
    then 0
    else if str_eq level "staged"
    then 1
    else if str_eq level "dangerous"
    then 2
    else 3

-- Python's `max(levels, key=…)`: the first of the levels with the greatest key.
unfoldable pub riskier : String → String → String
riskier best l = if ltb (risk_rank best) (risk_rank l) then l else best

unfoldable pub max_from : String → List String → String
max_from best [] = best
max_from best (l ∷ ls) = max_from (riskier best l) ls

unfoldable pub max_risk : List String → String
unfolding max_from riskier risk_rank
max_risk [] = "safe"
max_risk (l ∷ ls) = max_from l ls

pub record ExecutionPolicy : Type 0 where
  pub mode : String
  pub staged_policy : String

-- `mode in ("interactive", "headless", "ci")`
unfoldable pub known_mode : String → Bool
known_mode mode =
    if str_eq mode "interactive"
    then true
    else if str_eq mode "headless"
    then true
    else str_eq mode "ci"

-- An unknown mode falls back to "interactive".
unfoldable pub effective_mode : String → String
unfolding known_mode
effective_mode mode = if known_mode mode then mode else "interactive"

-- The constructor of ExecutionPolicy.
unfoldable pub execution_policy : String → String → ExecutionPolicy
execution_policy mode staged_policy = record {
  mode = effective_mode mode;
  staged_policy = staged_policy;
}

unfoldable pub can_auto_approve : ExecutionPolicy → String → Bool
can_auto_approve p risk_level =
    if str_eq risk_level "dangerous"
    then false
    else if str_eq p.mode "interactive"
    then false
    else if str_eq risk_level "safe"
    then true
    else if str_eq p.mode "ci"
    then false
    else str_eq p.staged_policy "approve"
