-- ===== src/Plan/Parser.antt =====
-- src/llm/parser.py: ToolParser, which reads the tool calls out of the JSON of the model. `json.loads` is
-- a parameter; what it gives is the data of Sessions/Values.
pub mod Described
use pearl_ai.Sessions.Values.{Json, Items, Members, find}
use pearl_ai.Plan.{ToolCall}
use pearl_ai.Python.{Value}
use pearl_ai.Python
use pearl_ai.Base.{
  String, ℕ, Bool, true, false, Dict, List, [], ◌∷◌, Option, none, some, ◌+◌, take_text,
}

-- The exception, without the wording of its message.
pub record ParseError : Type 0 where
  pub reason : String
  pub raw_response : String
  pub field : Option String

unfoldable pub parse_error : String → String → Option String → ParseError
unfolding take_text
parse_error reason raw field = record {
  reason = reason;
  raw_response = take_text 500 raw;
  field = field;
}

pub data Parsed {ℓ} (A : Type ℓ) : Type ℓ where
  parsed : A → Parsed A
  failed : ParseError → Parsed A

infixl 5 ◌>>=◌
abbrev pub ◌>>=◌ {ℓ κ} : {A : Type ℓ} {B : Type κ} → Parsed A → (A → Parsed B) → Parsed B
parsed a >>= f = f a
failed e >>= f = failed e

-- The fields of a step, each with the checks that `_parse_step` makes of it. `raw` is the response.
unfoldable pub read_tool : String → Option Json → Parsed String
unfolding parse_error
read_tool raw none = failed (parse_error "missing_fields" raw (some "tool"))
read_tool raw (some (Json.text name)) = parsed name
read_tool raw (some other) = failed (parse_error "invalid_type" raw (some "tool"))

unfoldable pub read_arguments : String → Option Json → Parsed Members
unfolding parse_error
read_arguments raw none = parsed Members.end
read_arguments raw (some (Json.object arguments)) = parsed arguments
read_arguments raw (some other) = failed (parse_error "invalid_type" raw (some "arguments"))

unfoldable pub read_id : String → Option Json → Parsed (Option String)
unfolding parse_error
read_id raw none = parsed none
read_id raw (some Json.null) = parsed none
read_id raw (some (Json.text id)) = parsed (some id)
read_id raw (some other) = failed (parse_error "invalid_type" raw (some "id"))

unfoldable pub read_entries : String → Items → Parsed (List String)
unfolding parse_error
read_entries raw Items.nil = parsed []
read_entries raw (Items.item (Json.text dep) entries) =
    read_entries raw entries >>= λ deps. parsed (dep ∷ deps)
read_entries raw (Items.item other entries) =
    failed (parse_error "invalid_type" raw (some "depends_on"))

unfoldable pub read_depends_on : String → Option Json → Parsed (List String)
unfolding parse_error read_entries
read_depends_on raw none = parsed []
read_depends_on raw (some (Json.array entries)) = read_entries raw entries
read_depends_on raw (some other) = failed (parse_error "invalid_type" raw (some "depends_on"))

-- `str()` of the Python value that stands for a JSON value.
module _ (shown : Json → String) where
  unfoldable pub argument : Json → Value
  argument Json.null = Python.null
  argument (Json.text s) = Python.text s
  argument other = Python.object (shown other)

  unfoldable pub kwargs_of : Members → Dict Value
  unfolding argument
  kwargs_of Members.end = []
  kwargs_of (Members.member k v ms) = (k, argument v) ∷ kwargs_of ms

  unfoldable pub parse_fields : ℕ → String → Members → Parsed ToolCall
  unfolding read_tool read_arguments read_id read_depends_on kwargs_of find
  parse_fields new raw step = do
    name ← read_tool raw (find "tool" step)
    arguments ← read_arguments raw (find "arguments" step)
    id ← read_id raw (find "id" step)
    deps ← read_depends_on raw (find "depends_on" step)
    parsed (record {
      object_id = new;
      tool_name = name;
      args = [];
      kwargs = kwargs_of arguments;
      step_id = id;
      depends_on = deps;
    })

  -- `_parse_step`; the new object gets the identity `new`.
  unfoldable pub parse_step : ℕ → String → Json → Parsed ToolCall
  unfolding parse_error parse_fields
  parse_step new raw (Json.object step) = parse_fields new raw step
  parse_step new raw other = failed (parse_error "not_a_step" raw none)

  -- `[self._parse_step(step, raw=response) for step in steps]`
  unfoldable pub parse_steps : ℕ → String → Items → Parsed (List ToolCall)
  unfolding parse_step
  parse_steps new raw Items.nil = parsed []
  parse_steps new raw (Items.item step steps) = do
    call ← parse_step new raw step
    calls ← parse_steps (new + 1) raw steps
    parsed (call ∷ calls)

  unfoldable pub read_steps : ℕ → String → Option Json → Parsed (List ToolCall)
  unfolding parse_error parse_steps
  read_steps new raw (some (Json.array (Items.item step steps))) =
      parse_steps new raw (Items.item step steps)
  read_steps new raw other = failed (parse_error "missing_steps" raw (some "steps"))

  unfoldable pub parse_payload : ℕ → String → Option Json → Parsed (List ToolCall)
  unfolding parse_error read_steps find
  parse_payload new raw none = failed (parse_error "invalid_json" raw none)
  parse_payload new raw (some (Json.object payload)) = read_steps new raw (find "steps" payload)
  parse_payload new raw (some other) = failed (parse_error "not_a_dict" raw none)

  unfoldable pub parse_call : ℕ → String → Option Json → Parsed ToolCall
  unfolding parse_error parse_step
  parse_call new raw none = failed (parse_error "invalid_json" raw none)
  parse_call new raw (some (Json.object payload)) = parse_step new raw (Json.object payload)
  parse_call new raw (some other) = failed (parse_error "not_a_dict" raw none)

  -- `loads` gives nothing for the JSONDecodeError.
  module _ (loads : String → Option Json) where
    -- `parse`
    unfoldable pub parse : ℕ → String → Parsed ToolCall
    unfolding parse_call
    parse new response = parse_call new response (loads response)

    -- `parse_plan`
    unfoldable pub parse_plan : ℕ → String → Parsed (List ToolCall)
    unfolding parse_payload
    parse_plan new response = parse_payload new response (loads response)

    -- `validate`
    unfoldable pub validate : String → Bool
    unfolding parse
    validate response = elim (parse 0 response) [ parsed call ↦ true | failed e ↦ false ]
