-- ===== src/Tests/Editing.antt =====
-- Edits of small texts.
use pearl_ai.Changes.{propose}
use pearl_ai.Tests.World.{memory, begin, batch, edit}
use pearl_ai.Editor.Agrees.{search_content-agrees, answer, made}
use pearl_ai.Editor.Staging.{with_edit, apply-Staging, Staging}
use pearl_ai.Editor.Texts.{
  find, splice, slice, begins, replace_from, count_from, range, spaced, find_from,
}
use pearl_ai.Editor.Regions.{
  smaller, find_normalized, first_region, first_end, normalize_ws, same_codes, strip_blanks_left,
  strip_blanks_right,
}
use pearl_ai.Editor.Replace.{
  Ratios, at_most, normalized, replaced, apply_replacement, replace_loop, replace_normalized, Desk,
  MatchStrategy, Resolved, apply, edit_file, empty_search, exact_result, finish_edit, inside,
  no_match, replace_exact, write_change, Replacement,
}
use pearl_ai.Editor.Exact.{replace_loop-all}
use pearl_ai.Editor.Changed.{IsReplaced, apply_replacement-IsReplaced}
use pearl_ai.Tools.Filter.{collapse}
use pearl_ai.Base.{
  String, ℕ, true, false, ◌≡◌, ◌≢◌, refl, str_eq, eq_iff, ltb, if◌then◌else◌, take_text, drop_text,
  len_text, is_space, ◌≤◌, Option, [], arith, some, ◌∷◌, ◌⊎◌,
}

-- Scores out of a hundred.
abbrev scores : Ratios
scores = record {
  R = ℕ;
  zero_ratio = 0;
  one_ratio = 100;
  normalized_ratio = 95;
  exceeds = λ a b. ltb b a;
  similarity = λ a b. if str_eq a b then 100 else 50;
}

abbrev letter_a : String
letter_a = "a"

abbrev nothing : String
nothing = ""

letter_full : letter_a ≢ nothing
letter_full h = let g : false ≡ true = (eq_iff letter_a nothing).1 h in cc g

three_times : count_from letter_a 0 "banana" ≤ 3
unfolding count_from begins len_text
three_times = omega arith

replace_loop-all_example :
    ((replace_loop 2 letter_a "oo" "banana" 0 0).1 ≡ smaller 2 (count_from letter_a 0 "banana"))
    × (count_from letter_a 0 "banana" ≤ 2
        → replace_loop 2 letter_a "oo" "banana" 0 0
          ≡ (replace_from letter_a "oo" 0 "banana", count_from letter_a 0 "banana"))
replace_loop-all_example = replace_loop-all letter_a "oo" letter_full 2 "banana"

all_replaced :
    replace_loop 3 letter_a "oo" "banana" 0 0
    ≡ (replace_from letter_a "oo" 0 "banana", count_from letter_a 0 "banana")
all_replaced = (replace_loop-all letter_a "oo" letter_full 3 "banana").1 three_times

-- The white space in front of the match goes with it: the new text lands on the line above.
line_eaten :
    apply_replacement scores 85 "x\n  a  b" "a b" "c" (at_most 1) ≡ replaced "xc" normalized 95 1
unfolding apply_replacement replace_normalized find begins find_normalized first_region first_end
    normalize_ws same_codes strip_blanks_left strip_blanks_right collapse is_space slice splice
    range spaced take_text drop_text len_text
line_eaten = refl

-- Any white space reads like a text of white space.
blank_search : apply_replacement scores 85 "a b" "\t" "" (at_most 1) ≡ replaced "ab" normalized 95 1
unfolding apply_replacement replace_normalized find begins find_normalized first_region first_end
    normalize_ws same_codes strip_blanks_left strip_blanks_right collapse is_space slice splice
    range spaced take_text drop_text len_text
blank_search = refl

apply_replacement-IsReplaced_example :
    IsReplaced scores 85 "x\n  a  b" "a b" "c" (at_most 1) "xc" normalized 95 1
apply_replacement-IsReplaced_example =
    apply_replacement-IsReplaced scores 85 "x\n  a  b" "a b" "c" (at_most 1) "xc" normalized 95 1
      line_eaten

abbrev no_diff : String → Option String → Option String → String
no_diff p a b = ""

abbrev as_given : String → Resolved scores 85 no_diff memory
as_given p = inside p

-- "a.py" holds "old" on disk, and an edit to "new" is staged.
abbrev desk : Desk scores 85 no_diff memory
desk = record { manager = some (batch (edit "a.py" ∷ [])); world = begin }

-- An edit that finds the text of the disk is staged behind the other one, and makes the batch stale.
second_edit_stale :
    (apply scores 85 no_diff memory as_given "a.py" "old" "older" (at_most 1) desk).1
    ≡ record desk {
      manager = some (with_edit no_diff memory "a.py" "old" "older" (batch (edit "a.py" ∷ [])));
    }
unfolding apply edit_file finish_edit write_change apply_replacement exact_result replace_exact
    replace_loop find_from find begins splice take_text drop_text len_text propose
second_edit_stale = refl

apply-Staging_example :
    Staging no_diff memory scores 85
      (batch (edit "a.py" ∷ []))
      desk
      (apply scores 85 no_diff memory as_given "a.py" "old" "older" (at_most 1) desk).1
apply-Staging_example =
    apply-Staging no_diff memory scores 85 (batch (edit "a.py" ∷ [])) desk refl as_given "a.py"
      "old" "older" (at_most 1)

search_content-agrees_example :
    (letter_a ≢ nothing
      → ((answer scores 85 no_diff memory as_given "banana" letter_a "oo" (at_most 1)).0 ≡ false)
          × (made scores 85 no_diff memory as_given "banana" letter_a "oo" (at_most 1)
              ≡ Replacement.failed no_match)
        ⊎ (((answer scores 85 no_diff memory as_given "banana" letter_a "oo" (at_most 1)).0 ≡ true)
            × ((updated : String) × (how : MatchStrategy) × (n : ℕ) × (made scores 85 no_diff memory
                    as_given "banana" letter_a "oo"
                    (at_most 1)
                  ≡ replaced updated how
                      (answer scores 85 no_diff memory as_given "banana" letter_a "oo"
                        (at_most 1)).1
                      n))))
    × (letter_a ≡ nothing
        → ((answer scores 85 no_diff memory as_given "banana" letter_a "oo" (at_most 1)).0 ≡ true)
          × (made scores 85 no_diff memory as_given "banana" letter_a "oo" (at_most 1)
              ≡ Replacement.failed empty_search))
search_content-agrees_example =
    search_content-agrees scores 85 no_diff memory as_given "banana" letter_a "oo" (at_most 1)
