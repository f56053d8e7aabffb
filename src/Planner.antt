-- ===== src/Planner.antt =====
-- src/agent/planner.py and what it calls: how a request becomes a list of tool calls.
pub mod Intent
pub mod Calls
pub mod Confidence
pub mod Prompt
pub mod Steps
pub mod Order
pub mod Sound
pub mod Fit
pub mod Ids
pub mod Ends
pub mod Total
pub mod Budget
pub mod Wired
