-- ===== src/Tools.antt =====
-- src/tools/registry.py and src/agent/dispatcher.py: looking a tool up, calling it, and wrapping what it
-- raises. What the tool functions do is a parameter of the executor.
pub mod Laws
pub mod Filter
use pearl_ai.Changes.{PendingEdit}
use pearl_ai.Plan.{ToolCall}
use pearl_ai.Commands.{ShellCommandRequest}
use pearl_ai.Python.{Value, Exception, message, plain, wrapper}
use pearl_ai.Base.{
  String, List, Option, [], if◌then◌else◌, none, some, str_eq, text_of, ◌++◌, ◌∷◌, Bool, false,
  true,
}

pub record Tool : Type 0 where
  pub name : String
  pub risk_level : String

-- `registry.get_tool(name)`; `none` stands for the ValueError of an unknown tool.
unfoldable pub get_tool : List Tool → String → Option Tool
get_tool [] name = none
get_tool (t ∷ ts) name = if str_eq t.name name then some t else get_tool ts name

-- `registry.register(func)`; `none` stands for the ValueError of a name that is taken.
unfoldable pub register : Tool → List Tool → Option (List Tool)
unfolding get_tool
register t tools = elim (get_tool tools t.name) [ some _ ↦ none | none ↦ some (tools ++ t ∷ []) ]

-- `registry.unregister(name)`; `none` stands for the KeyError.
unfoldable pub unregister : String → List Tool → Option (List Tool)
unregister name [] = none
unregister name (t ∷ ts) =
    let rest = unregister name ts in
    if str_eq t.name name then some ts else elim rest [ none ↦ none | some ts' ↦ some (t ∷ ts') ]

-- `registry.has_tool(name)`
unfoldable pub has_tool : String → List Tool → Bool
unfolding get_tool
has_tool name tools = elim (get_tool tools name) [ none ↦ false | some t ↦ true ]

unfoldable pub tool_not_found : String → Exception
unfolding text_of
tool_not_found name =
    plain ("ToolNotFoundError" ∷ "ValueError" ∷ "Exception" ∷ [])
      (text_of ("Unknown tool: " ∷ name ∷ []))

unfoldable pub tool_execution_error : String → Exception → Exception
unfolding text_of message
tool_execution_error name original =
    wrapper ("ToolExecutionError" ∷ "RuntimeError" ∷ "Exception" ∷ [])
      (text_of ("Tool '" ∷ name ∷ "' failed: " ∷ message original ∷ [])) original

pub data Outcome : Type 0 where
  returned : Value → Outcome
  raised : Exception → Outcome

-- One call of a tool function while staging is on: how it ended, and the edits and commands that it
-- staged before it ended.
pub record ToolRun (W : Type 0) : Type 0 where
  pub outcome : Outcome
  pub edits : List PendingEdit
  pub commands : List ShellCommandRequest
  pub world : W

module _ {W : Type 0} (tools : List Tool) (call_tool : ToolCall → W → ToolRun W) where
  unfoldable pub wrap : String → ToolRun W → ToolRun W
  wrap name r = elim r.outcome [
    | returned v ↦ r
    | raised x ↦ record r { outcome = raised (tool_execution_error name x) }
  ]

  -- `dispatcher.execute`
  unfoldable pub dispatch : ToolCall → W → ToolRun W
  dispatch call w = elim (get_tool tools call.tool_name) [
    | none ↦ record {
      outcome = raised (tool_not_found call.tool_name);
      edits = [];
      commands = [];
      world = w;
    }
    | some t ↦ wrap call.tool_name (call_tool call w)
  ]
