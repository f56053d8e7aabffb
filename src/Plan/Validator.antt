-- ===== src/Plan/Validator.antt =====
-- src/agent/plan_validator.py: the checks of validate_plan on the steps. An error
-- keeps what its message shows.
pub mod Reads
pub mod Writes
pub mod Dependencies
use pearl_ai.Plan.{ToolCall}
use pearl_ai.Python.{Value, null, object, text}
use pearl_ai.Base.{
  String, lookup, put, Bool, Dict, List, [], false, if◌then◌else◌, is_empty, length, ltb, none, not,
  one_of, some, starts_with, str_eq, true, ℕ, ◌&&◌, ◌++◌, ◌+◌, ◌∷◌,
}

pub data PlanError : Type 0 where
  too_many_steps : ℕ → PlanError
  forbidden_path : (step : ℕ) → (argument : String) → (shown : String) → PlanError
  unknown_extension : (step : ℕ) → (path : String) → PlanError
  write_before_read : (step : ℕ) → PlanError
  written_twice : (step : ℕ) → (path : String) → (first : ℕ) → PlanError

abbrev pub max_steps : ℕ
max_steps = 25

abbrev pub forbidden_path_prefixes : List String
forbidden_path_prefixes =
    "/etc/" ∷ "/sys/" ∷ "/proc/" ∷ "/root/" ∷ "/boot/" ∷ "/dev/" ∷ "C:/Windows/"
    ∷ "C:/Program Files/" ∷ "C:/Program Files (x86)/" ∷ "C:\\Windows\\" ∷ "C:\\Program Files\\"
    ∷ "C:\\Program Files (x86)\\" ∷ "HKEY_" ∷ "HKLM\\" ∷ "HKCU\\" ∷ []

abbrev pub destructive_write_tools : List String
destructive_write_tools = "write_file" ∷ "replace_in_file" ∷ "edit_lines" ∷ "patch_file" ∷ []

abbrev pub write_tools : List String
write_tools = "create_file" ∷ destructive_write_tools

-- The tools whose path must have an extension that the workspace knows.
abbrev pub checked_tools : List String
checked_tools = "read_file" ∷ "write_file" ∷ "replace_in_file" ∷ "edit_lines" ∷ []

-- `step.kwargs.get("path", "")`, if it is a text; else the empty text, which every use leaves out.
unfoldable pub text_or_empty : Value → String
text_or_empty null = ""
text_or_empty (text s) = s
text_or_empty (object shown) = ""

unfoldable pub path_of : ToolCall → String
unfolding text_or_empty lookup
path_of step = elim (lookup "path" step.kwargs) [ none ↦ "" | some v ↦ text_or_empty v ]

unfoldable pub prefix_errors : ℕ → String → String → List String → List PlanError
unfolding starts_with
prefix_errors i name value [] = []
prefix_errors i name value (p ∷ ps) =
    let rest = prefix_errors i name value ps in
    if starts_with value p then forbidden_path i name value ∷ rest else rest

unfoldable pub value_errors : ℕ → String → Value → List PlanError
unfolding prefix_errors
value_errors i name null = []
value_errors i name (text s) = prefix_errors i name s forbidden_path_prefixes
value_errors i name (object shown) = []

unfoldable pub argument_errors : ℕ → Dict Value → List PlanError
unfolding value_errors
argument_errors i [] = []
argument_errors i ((name, value) ∷ rest) = value_errors i name value ++ argument_errors i rest

-- The suffix of a path in lower case is what `pathlib` gives, and `exts` what the scan of the workspace
-- found.
module _ (suffix : String → String) (exts : List String) where
  unfoldable pub extension_errors : ℕ → ToolCall → List PlanError
  unfolding path_of
  extension_errors i step =
      let ext = suffix (path_of step) in
      if one_of step.tool_name checked_tools
        && (not (str_eq (path_of step) "")
            && (not (str_eq ext "") && (not (is_empty exts) && not (one_of ext exts))))
      then unknown_extension i (path_of step) ∷ []
      else []

  unfoldable pub scope_errors : ℕ → List ToolCall → List PlanError
  unfolding extension_errors argument_errors
  scope_errors i [] = []
  scope_errors i (step ∷ steps) =
      let rest = scope_errors (i + 1) steps in
      if str_eq step.tool_name "none"
      then rest
      else argument_errors i step.kwargs ++ extension_errors i step ++ rest

-- The loop of the read-before-write check.
unfoldable pub read_errors : ℕ → Bool → List ToolCall → List PlanError
read_errors i has_read [] = []
read_errors i has_read (step ∷ steps) =
    let same = read_errors (i + 1) has_read steps in
    let reading = read_errors (i + 1) true steps in
    if str_eq step.tool_name "read_file"
    then reading
    else if one_of step.tool_name destructive_write_tools && not has_read
    then write_before_read i ∷ same
    else same

-- The loop of the duplicate-write check, with the step that first wrote each path.
unfoldable pub write_errors : ℕ → Dict ℕ → List ToolCall → List PlanError
unfolding path_of lookup put
write_errors i seen [] = []
write_errors i seen (step ∷ steps) =
    let path = path_of step in
    let same = write_errors (i + 1) seen steps in
    let more = write_errors (i + 1) (put path i seen) steps in
    if one_of step.tool_name write_tools && not (str_eq path "")
    then elim (lookup path seen) [ none ↦ more | some first ↦ written_twice i path first ∷ same ]
    else same

unfoldable pub count_errors : List ToolCall → List PlanError
count_errors steps = if ltb max_steps (length steps) then too_many_steps (length steps) ∷ [] else []

unfoldable pub plan_errors : (String → String) → List String → List ToolCall → List PlanError
unfolding scope_errors read_errors write_errors count_errors
plan_errors suffix exts steps =
    count_errors steps
    ++ scope_errors suffix exts 1 steps
    ++ read_errors 1 false steps
    ++ write_errors 1 [] steps
