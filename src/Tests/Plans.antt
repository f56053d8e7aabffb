-- ===== src/Tests/Plans.antt =====
-- A plan that reads a file and then writes it.
use pearl_ai.Plan.Validator.{
  write_errors, value_errors, text_or_empty, scope_errors, read_errors, prefix_errors, plan_errors,
  path_of, extension_errors, count_errors, argument_errors,
}
use pearl_ai.Plan.{ToolCall}
use pearl_ai.Python.{text}
use pearl_ai.Plan.Validator.Writes.{writes}
use pearl_ai.Base.{
  String, [], has_prefix, lookup, none, put, refl, starts_with, true, ◌∷◌, ◌≡◌, eq_iff, false, ◌≢◌,
}

abbrev on_file : String → ToolCall
on_file name = record {
  object_id = 1;
  tool_name = name;
  args = [];
  kwargs = ("path", text "src/a.py") ∷ [];
  step_id = none;
  depends_on = [];
}

abbrev suffix : String → String
suffix path = ".py"

no_errors : plan_errors suffix (".py" ∷ []) (on_file "read_file" ∷ on_file "write_file" ∷ []) ≡ []
unfolding plan_errors prefix_errors value_errors argument_errors extension_errors scope_errors
    read_errors write_errors count_errors path_of text_or_empty starts_with has_prefix lookup put
no_errors = refl

abbrev other : ToolCall
other = record (on_file "edit_lines") { kwargs = ("path", text "src/b.py") ∷ [] }

two_writes :
    plan_errors suffix (".py" ∷ []) (on_file "read_file" ∷ on_file "write_file" ∷ other ∷ []) ≡ []
unfolding plan_errors prefix_errors value_errors argument_errors extension_errors scope_errors
    read_errors write_errors count_errors path_of text_or_empty starts_with has_prefix lookup put
two_writes = refl

writes_first : writes "src/a.py" (on_file "write_file") ≡ true
unfolding path_of lookup text_or_empty
writes_first = refl

abbrev first_path : String
first_path = "src/a.py"

abbrev no_path : String
no_path = ""

not_empty : first_path ≢ no_path
not_empty h = let g : false ≡ true = (eq_iff first_path no_path).1 h in cc g
