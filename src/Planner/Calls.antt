-- ===== src/Planner/Calls.antt =====
-- src/llm/validation.py: a tool call against the tools that are registered.
use pearl_ai.Plan.{ToolCall}
use pearl_ai.Tools.{Tool, has_tool}
use pearl_ai.Python.{Value}
use pearl_ai.Base.{
  String, Bool, true, false, List, [], ◌∷◌, Dict, Option, none, some, str_eq, str_lt, one_of, keep,
  not, is_empty, if◌then◌else◌, ◌&&◌,
}

-- `inspect.Parameter`
pub data ParameterKind : Type 0 where
  positional_only positional_or_keyword var_positional keyword_only var_keyword : ParameterKind

pub record Parameter : Type 0 where
  pub name : String
  pub kind : ParameterKind
  pub has_default : Bool

-- What is known of a tool's function: the keys of `tool.parameters`, and `inspect.signature`.
pub record Signature : Type 0 where
  pub allowed : List String
  pub parameters : List Parameter

-- `param.kind in _POSITIONAL_KINDS`
unfoldable pub is_named : ParameterKind → Bool
is_named ParameterKind.positional_only = true
is_named ParameterKind.positional_or_keyword = true
is_named ParameterKind.var_positional = false
is_named ParameterKind.keyword_only = true
is_named ParameterKind.var_keyword = false

-- `_required_params`
unfoldable pub required_params : List Parameter → List String
unfolding is_named
required_params [] = []
required_params (p ∷ ps) =
    let rest = required_params ps in
    if is_named p.kind && not p.has_default then p.name ∷ rest else rest

abbrev pub keys : Dict Value → List String
keys [] = []
keys ((k, v) ∷ d) = k ∷ keys d

-- `a - b` on sets of names
abbrev pub without : List String → List String → List String
without xs ys = keep (λ x. not (one_of x ys)) xs

-- `sorted` on names
abbrev insert_name : String → List String → List String
insert_name x [] = x ∷ []
insert_name x (y ∷ ys) = let rest = y ∷ insert_name x ys in if str_lt y x then rest else x ∷ y ∷ ys

abbrev pub sorted_names : List String → List String
sorted_names [] = []
sorted_names (x ∷ xs) = insert_name x (sorted_names xs)

-- The ValueErrors, with what their messages name.
pub data CallError : Type 0 where
  unknown_tool : String → CallError
  unexpected_arguments : (tool : String) → (names : List String) → CallError
  missing_arguments : (tool : String) → (names : List String) → CallError

module _ (tools : List Tool) (signature_of : String → Signature) where
  -- `validate_tool_call`; `none` where it returns.
  unfoldable pub validate_tool_call : ToolCall → Option CallError
  unfolding has_tool required_params
  validate_tool_call call =
      let s = signature_of call.tool_name in
      let unexpected = without (keys call.kwargs) s.allowed in
      let missing = without (required_params s.parameters) (keys call.kwargs) in
      if str_eq call.tool_name "none"
      then none
      else if not (has_tool call.tool_name tools)
      then some (CallError.unknown_tool call.tool_name)
      else if not (is_empty unexpected)
      then some (CallError.unexpected_arguments call.tool_name (sorted_names unexpected))
      else if not (is_empty missing)
      then some (CallError.missing_arguments call.tool_name (sorted_names missing))
      else none

  -- `for step in steps: validate_tool_call(step, self.registry)`
  unfoldable pub validate_calls : List ToolCall → Option CallError
  unfolding validate_tool_call
  validate_calls [] = none
  validate_calls (call ∷ calls) = elim (validate_tool_call call) [
    | none ↦ validate_calls calls
    | some e ↦ some e
  ]
