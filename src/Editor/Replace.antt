-- ===== src/Editor/Replace.antt =====
-- SearchReplaceEditor of src/tools/search_replace_editor.py, and replace_in_file of src/tools/edit_tools.py
-- above it.
use pearl_ai.Editor.Texts.{find_from, splice, replace_from, count_from, find}
use pearl_ai.Editor.Regions.{find_normalized, find_fuzzy}
use pearl_ai.Changes.{ChangeManager, propose, count}
use pearl_ai.Changes.Files.{FileSystem, FileState, absent, holds, unreadable}
use pearl_ai.Python.{Exception, is_instance}
use pearl_ai.Base.{
  String, ℕ, zero, suc, ◌+◌, Bool, true, false, Option, none, some, str_eq, len_text, if◌then◌else◌,
}

pub data MatchStrategy : Type 0 where
  exact normalized fuzzy : MatchStrategy

-- `count`: -1 is all of them, and any other number below 0 is none.
pub data Count : Type 0 where
  all_of_them : Count
  at_most : ℕ → Count

-- `MatchFailed` and the other errors of a result, without their wording
pub data EditError : Type 0 where
  file_not_found empty_search no_match : EditError
  cannot_read : Exception → EditError

-- The loop over the exact occurrences: the text, and how many were replaced.
unfoldable pub replace_loop : ℕ → String → String → String → ℕ → ℕ → String × ℕ
unfolding find_from splice len_text
replace_loop zero search replace updated pos replaced = (updated, replaced)
replace_loop (suc remaining) search replace updated pos replaced =
    elim (find_from search updated pos) [
      | none ↦ (updated, replaced)
      | some idx ↦
          replace_loop remaining search replace (splice updated idx (idx + len_text search) replace)
            (idx + len_text replace) (replaced + 1)
    ]

unfoldable pub replace_exact : Count → String → String → String → String × ℕ
unfolding replace_loop replace_from count_from
replace_exact all_of_them search replace content =
    (replace_from search replace 0 content, count_from search 0 content)
replace_exact (at_most count) search replace content = replace_loop count search replace content 0 0

-- What the scores of difflib are, with 0.0, 1.0 and 0.95.
pub record Ratios : Type 1 where
  pub R : Type 0
  pub zero_ratio : R
  pub one_ratio : R
  pub normalized_ratio : R
  pub exceeds : R → R → Bool
  pub similarity : String → String → R

module _ (ratios : Ratios) (threshold : ratios.R) where
  open ratios use {R, zero_ratio, one_ratio, normalized_ratio, exceeds, similarity}

  -- How `_apply_replacement` ends.
  pub data Replacement : Type 0 where
    replaced : String → MatchStrategy → R → ℕ → Replacement
    failed : EditError → Replacement

  unfoldable pub replace_fuzzy : String → String → Option ((ℕ × ℕ) × R) → Replacement
  unfolding splice
  replace_fuzzy content replace none = failed no_match
  replace_fuzzy content replace (some ((start, end), sim)) =
      replaced (splice content start end replace) fuzzy sim 1

  unfoldable pub replace_normalized : String → String → Option (ℕ × ℕ) → Replacement → Replacement
  unfolding splice
  replace_normalized content replace none rest = rest
  replace_normalized content replace (some (start, end)) rest =
      replaced (splice content start end replace) normalized normalized_ratio 1

  unfoldable pub exact_result : String × ℕ → Replacement
  exact_result (updated, n) = replaced updated exact one_ratio n

  -- `_apply_replacement`
  unfoldable pub apply_replacement : String → String → String → Count → Replacement
  unfolding replace_fuzzy replace_normalized exact_result replace_exact find_normalized find_fuzzy
      find
  apply_replacement content search replace count =
      if str_eq search "" then failed empty_search else elim (find search content) [
        | some i ↦ exact_result (replace_exact count search replace content)
        | none ↦ replace_normalized content replace (find_normalized content search) (
            replace_fuzzy content replace
              (find_fuzzy zero_ratio exceeds similarity content search threshold))
      ]

  pub record EditResult : Type 0 where
    pub succeeded : Bool
    pub path : String
    pub strategy : Option MatchStrategy
    pub similarity_score : R
    pub occurrences : ℕ
    pub error : Option EditError

  abbrev pub no_edit : String → EditError → EditResult
  no_edit path e = record {
    succeeded = false;
    path = path;
    strategy = none;
    similarity_score = zero_ratio;
    occurrences = 0;
    error = some e;
  }

  abbrev pub edited : String → MatchStrategy → R → ℕ → EditResult
  edited path how sim n = record {
    succeeded = true;
    path = path;
    strategy = some how;
    similarity_score = sim;
    occurrences = n;
    error = none;
  }

  -- The diff that the manager makes, the file system, and `_resolve`, which raises outside the workspace.
  module _ (unified_diff : String → Option String → Option String → String) (fs : FileSystem) where
    open fs use {World, state, write}

    -- The active ChangeManager, if there is one, and the files.
    pub record Desk : Type 0 where
      pub manager : Option ChangeManager
      pub world : World

    -- A result, or what the call raises.
    pub data Attempt : Type 0 where
      result : EditResult → Attempt
      raised : Exception → Attempt

    unfoldable pub written : EditResult → Option Exception → Attempt
    written r none = result r
    written r (some x) = raised x

    -- `_write`, and the result behind it
    unfoldable pub write_change : String → String → String → EditResult → Desk → Attempt × Desk
    unfolding propose written
    write_change path original updated r d = elim d.manager [
      | some m ↦ (
        result r,
        record d { manager = some (propose unified_diff path (some original) updated m).1 },
      )
      | none ↦ let (x, w) = write path updated d.world in (written r x, record d { world = w })
    ]

    unfoldable pub finish_edit : String → String → Replacement → Desk → Attempt × Desk
    unfolding write_change
    finish_edit path original (failed e) d = (result (no_edit path e), d)
    finish_edit path original (replaced updated how sim n) d =
        if str_eq updated original
        then (result (edited path how sim 0), d)
        else write_change path original updated (edited path how sim n) d

    unfoldable pub edit_file : String → String → String → Count → FileState → Desk → Attempt × Desk
    unfolding finish_edit apply_replacement is_instance
    edit_file path search replace count absent d = (result (no_edit path file_not_found), d)
    edit_file path search replace count (unreadable x) d =
        if is_instance x "OSError"
        then (result (no_edit path (cannot_read x)), d)
        else (raised x, d)
    edit_file path search replace count (holds original) d =
        finish_edit path original (apply_replacement original search replace count) d

    -- How `_resolve` ends.
    pub data Resolved : Type 0 where
      inside : (path : String) → Resolved
      escapes : Exception → Resolved

    module _ (resolve : String → Resolved) where
      -- `apply`
      unfoldable pub apply : String → String → String → Count → Desk → Attempt × Desk
      unfolding edit_file
      apply path search replace count d = elim (resolve path) [
        | escapes x ↦ (raised x, d)
        | inside p ↦ edit_file p search replace count (state d.world p) d
      ]
