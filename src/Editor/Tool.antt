-- ===== src/Editor/Tool.antt =====
-- SearchReplaceEditor.validate, and the tool replace_in_file of src/tools/edit_tools.py above the editor. The
-- refresh of the index behind a direct write is left out.
use pearl_ai.Editor.Texts.{find}
use pearl_ai.Editor.Regions.{find_normalized, find_fuzzy}
use pearl_ai.Editor.Replace.{
  Ratios, Count, Desk, Attempt, result, raised, Resolved, inside, escapes, apply,
}
use pearl_ai.Changes.Files.{FileSystem, FileState, absent, holds, unreadable}
use pearl_ai.Python.{Exception, plain, is_instance}
use pearl_ai.Base.{String, ℕ, Bool, true, false, Option, none, some, [], ◌∷◌, str_eq, if◌then◌else◌}

module _ (ratios : Ratios) (threshold : ratios.R)
    (unified_diff : String → Option String → Option String → String) (fs : FileSystem)
    (resolve : String → Resolved ratios threshold unified_diff fs) where
  open ratios use {R, zero_ratio, one_ratio, normalized_ratio, exceeds, similarity}
  open fs use {World, state}

  abbrev found_fuzzy : Option ((ℕ × ℕ) × R) → Bool × R
  found_fuzzy none = (false, zero_ratio)
  found_fuzzy (some (region, sim)) = (true, sim)

  unfoldable pub search_content : String → String → Bool × R
  unfolding find find_normalized find_fuzzy
  search_content content wanted = elim (find wanted content) [
    | some i ↦ (true, one_ratio)
    | none ↦ elim (find_normalized content wanted) [
      | some region ↦ (true, normalized_ratio)
      | none ↦ found_fuzzy (find_fuzzy zero_ratio exceeds similarity content wanted threshold)
    ]
  ]

  -- How `validate` ends: with what it found, or with what it raises.
  pub data Validation : Type 0 where
    checked : Bool → R → Validation
    broken : Exception → Validation

  unfoldable pub validate_file : String → FileState → Validation
  unfolding search_content is_instance
  validate_file wanted absent = checked false zero_ratio
  validate_file wanted (unreadable x) =
      if is_instance x "OSError" then checked false zero_ratio else broken x
  validate_file wanted (holds content) =
      let (found, sim) = search_content content wanted in checked found sim

  -- `validate`
  unfoldable pub validate : String → String → World → Validation
  unfolding validate_file
  validate path wanted w = elim (resolve path) [
    | escapes x ↦ broken x
    | inside p ↦ validate_file wanted (state w p)
  ]

  -- How `replace_in_file` ends.
  pub data ToolEnd : Type 0 where
    replacements : ℕ → ToolEnd
    tool_raised : Exception → ToolEnd

  abbrev empty_search_error : Exception
  empty_search_error = plain ("ValueError" ∷ "Exception" ∷ []) "`search` must not be empty."

  abbrev not_found_error : String → Exception
  not_found_error path = plain ("FileNotFoundError" ∷ "OSError" ∷ "Exception" ∷ []) path

  unfoldable pub count_of : Attempt ratios threshold unified_diff fs → ToolEnd
  count_of (raised x) = tool_raised x
  count_of (result r) = if r.succeeded then replacements r.occurrences else replacements 0

  unfoldable pub replace_at :
      String
      → String
      → String
      → String
      → Count
      → FileState
      → Desk ratios threshold unified_diff fs
      → ToolEnd × Desk ratios threshold unified_diff fs
  unfolding count_of apply
  replace_at path p wanted replacement how_many absent d = (tool_raised (not_found_error path), d)
  replace_at path p wanted replacement how_many other d =
      let (attempt, d') =
        apply ratios threshold unified_diff fs resolve p wanted replacement how_many d in
      (count_of attempt, d')

  -- `replace_in_file`
  unfoldable pub replace_in_file :
      String
      → String
      → String
      → Count
      → Desk ratios threshold unified_diff fs
      → ToolEnd × Desk ratios threshold unified_diff fs
  unfolding replace_at
  replace_in_file path wanted replacement how_many d =
      if str_eq wanted "" then (tool_raised empty_search_error, d) else elim (resolve path) [
        | escapes x ↦ (tool_raised x, d)
        | inside p ↦ replace_at path p wanted replacement how_many (state d.world p) d
      ]
