-- ===== src/Context.antt =====
-- src/llm/token_budget.py and src/agent/condenser.py: what keeps a conversation within the model's context.
pub mod Tokens
pub mod Condenser
pub mod Budget
pub mod Middle
pub mod Allowance
