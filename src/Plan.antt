-- ===== src/Plan.antt =====
-- The planned tool call: `ToolCall` of src/llm/parser.py.
pub mod Graph
pub mod Validator
pub mod Parser
use pearl_ai.Python.{Value}
use pearl_ai.Base.{String, Dict, List, Option, ℕ}

pub record ToolCall : Type 0 where
  -- `id(call)`: the identity of the object, by which the retry counter is keyed
  pub object_id : ℕ
  pub tool_name : String
  pub args : List Value
  pub kwargs : Dict Value
  pub step_id : Option String
  pub depends_on : List String
