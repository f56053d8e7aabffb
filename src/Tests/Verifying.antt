-- ===== src/Tests/Verifying.antt =====
-- A verification of one planned file.
use pearl_ai.Verification.{success}
use pearl_ai.Verification.Selection.{
  Tree, select_tests, parse_pytest_counts, search_count, digits_then, choose, test_path, impacted,
}
use pearl_ai.Verification.Engine.{
  changed_files, verify, GitStatus, TestRun, tests_timed_out, finished, exited, status_path,
  status_paths,
}
use pearl_ai.Verification.Answers.{verify-Verdict, verify_timed_out, IsReport}
use pearl_ai.Base.{
  String, ℕ, List, [], ◌∷◌, ◌≡◌, refl, Option, any, drop_text, has_prefix, if◌then◌else◌, is_space,
  leb, len_text, map, none, one_of, some, str_eq, strip, strip_left, strip_right, text_of, true,
  ◌&&◌, ◌-◌,
}

abbrev decimal : ℕ → Option ℕ
decimal c = if leb 48 c && leb c 57 then some (c - 48) else none

abbrev tree : Tree
tree = record {
  has_tests_dir = true;
  stem = λ p. "app";
  exists = λ p. str_eq p "tests/test_app.py";
  impact = λ f. [];
  set_order = λ fs. fs;
}

abbrev as_is : String → String
as_is p = p

abbrev one_failure : List String → TestRun
one_failure cmd = finished "3 passed, 1 failed in 0.10s"

abbrev endless : List String → TestRun
endless cmd = tests_timed_out

abbrev git_status : GitStatus
git_status = exited true (" M src/app.py" ∷ []) ""

counted : parse_pytest_counts decimal "3 passed, 12 failed in 0.10s" ≡ (3, 12)
unfolding parse_pytest_counts search_count digits_then has_prefix
counted = refl

selected : select_tests tree ("src/app.py" ∷ "src/app.py" ∷ []) ≡ "tests/test_app.py" ∷ []
unfolding select_tests choose test_path impacted text_of
selected = refl

verify-Verdict_example :
    IsReport decimal tree as_is one_failure git_status
      ("src/app.py" ∷ [])
      (verify decimal tree as_is one_failure git_status "" ("src/app.py" ∷ []))
verify-Verdict_example =
    verify-Verdict decimal tree as_is one_failure git_status "" ("src/app.py" ∷ [])

changed : any (λ f. one_of f (changed_files git_status).0) (map as_is ("src/app.py" ∷ [])) ≡ true
unfolding changed_files status_paths status_path strip strip_left strip_right drop_text len_text
    is_space
changed = refl

verify_timed_out_example :
    (verify decimal tree as_is endless git_status "" ("src/app.py" ∷ [])).status ≡ success
verify_timed_out_example =
    verify_timed_out decimal tree as_is endless git_status "" ("src/app.py" ∷ []) (λ cmd. refl)
      changed
