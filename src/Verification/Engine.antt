-- ===== src/Verification/Engine.antt =====
-- VerificationEngine.verify: git, the runner of the tests and `_normalize` are parameters.
use pearl_ai.Verification.{VerificationStatus, RiskLevel, determine_status, compute_risk}
use pearl_ai.Verification.Selection.{Tree, select_tests, parse_pytest_counts}
use pearl_ai.Base.{
  String, ℕ, Bool, List, [], ◌∷◌, Option, drop_text, false, if◌then◌else◌, keep, leb, len_text, map,
  not, one_of, str_eq, strip, true, ◌++◌, ◌+◌, ◌-◌,
}

-- How a subprocess ends. `lines` is `stdout.splitlines()`.
pub data GitStatus : Type 0 where
  exited : (code_is_zero : Bool) → (lines : List String) → (stderr : String) → GitStatus
  timed_out : GitStatus
  git_error : (shown : String) → GitStatus

pub data TestRun : Type 0 where
  finished : (output : String) → TestRun
  tests_timed_out : TestRun
  runner_error : (shown : String) → TestRun

pub data EngineError : Type 0 where
  status_failed status_error : String → EngineError
  status_timed_out : EngineError
  run_timed_out : EngineError
  run_error : String → EngineError

-- The lines of `evidence`.
pub data Evidence : Type 0 where
  planned_are changed_are unexpected_are tests_selected test_cmd : List String → Evidence
  test_output : String → Evidence

pub record VerificationResult : Type 0 where
  pub status : VerificationStatus
  pub planned_files : List String
  pub changed_files : List String
  pub unexpected_files : List String
  pub tests_run : ℕ
  pub tests_passed : ℕ
  pub tests_failed : ℕ
  pub diff_summary : String
  pub evidence : List Evidence
  pub risk : RiskLevel
  pub errors : List EngineError

-- The path of a line of `git status --porcelain`, and nothing for a shorter line.
unfoldable pub status_path : String → String
unfolding len_text drop_text strip
status_path line = if leb 3 (len_text line) then strip (drop_text 3 line) else ""

unfoldable pub status_paths : List String → List String
unfolding status_path
status_paths [] = []
status_paths (line ∷ lines) =
    let rest = status_paths lines in
    if str_eq (status_path line) "" then rest else status_path line ∷ rest

-- `_changed_files`
unfoldable pub changed_files : GitStatus → List String × List EngineError
unfolding status_paths strip
changed_files (exited true lines stderr) = (status_paths lines, [])
changed_files (exited false lines stderr) = ([], status_failed (strip stderr) ∷ [])
changed_files timed_out = ([], status_timed_out ∷ [])
changed_files (git_error shown) = ([], status_error shown ∷ [])

-- `out[-400:]`
unfoldable pub tail_of : String → String
unfolding len_text drop_text
tail_of out = drop_text (len_text out - 400) out

-- What `_run_tests` hands back.
pub record Counts : Type 0 where
  pub output : String
  pub passed : ℕ
  pub failed : ℕ
  pub run_errors : List EngineError

abbrev pub pytest : List String → List String
pytest files = "python" ∷ "-m" ∷ "pytest" ∷ files ++ "--tb=short" ∷ "-q" ∷ "--no-header" ∷ []

module _ (decimal : ℕ → Option ℕ) (tree : Tree) (normalize : String → String)
    (run_command : List String → TestRun) where
  unfoldable pub counts_of : TestRun → Counts
  unfolding parse_pytest_counts
  counts_of (finished out) =
      let (p, f) = parse_pytest_counts decimal out in
      record { output = out; passed = p; failed = f; run_errors = [] }
  counts_of tests_timed_out = record {
    output = "";
    passed = 0;
    failed = 0;
    run_errors = run_timed_out ∷ [];
  }
  counts_of (runner_error shown) = record {
    output = "";
    passed = 0;
    failed = 0;
    run_errors = run_error shown ∷ [];
  }

  -- `_run_tests`
  unfoldable pub run_tests : List String → Counts
  unfolding counts_of
  run_tests cmd = counts_of (run_command cmd)

  -- `verify` from the counts on.
  unfoldable pub conclude :
      List String
      → List String
      → List String
      → String
      → List Evidence
      → List EngineError
      → Counts
      → VerificationResult
  unfolding determine_status compute_risk
  conclude planned changed unexpected diff evidence errors c = record {
    status = determine_status planned changed c.failed;
    planned_files = planned;
    changed_files = changed;
    unexpected_files = unexpected;
    tests_run = c.passed + c.failed;
    tests_passed = c.passed;
    tests_failed = c.failed;
    diff_summary = diff;
    evidence = evidence;
    risk = compute_risk changed unexpected c.failed;
    errors = errors ++ c.run_errors;
  }

  abbrev pub no_counts : Counts
  no_counts = record { output = ""; passed = 0; failed = 0; run_errors = [] }

  abbrev pub if_any : List String → List Evidence
  if_any [] = []
  if_any (f ∷ fs) = unexpected_are (f ∷ fs) ∷ []

  -- The state of `verify` before the tests.
  abbrev pub facts : List String → List String → List String → List String → List Evidence
  facts planned changed unexpected tests =
      planned_are planned ∷ changed_are changed ∷ if_any unexpected ++ tests_selected tests ∷ []

  -- `if test_files:` with its body; `known` is the evidence so far.
  unfoldable pub run_selected : List String → List Evidence → List Evidence × Counts
  unfolding run_tests tail_of
  run_selected [] known = (known, no_counts)
  run_selected (t ∷ ts) known =
      let c = run_tests (pytest (t ∷ ts)) in
      (known ++ test_cmd (pytest (t ∷ ts)) ∷ test_output (tail_of c.output) ∷ [], c)

  -- `verify`
  unfoldable pub verify : GitStatus → String → List String → VerificationResult
  unfolding changed_files select_tests run_selected conclude
  verify git_status diff planned_files =
      let planned = map normalize planned_files in
      let (changed, errors) = changed_files git_status in
      let unexpected = keep (λ f. not (one_of f planned)) changed in
      let tests = select_tests tree (planned ++ changed) in
      let (evidence, c) = run_selected tests (facts planned changed unexpected tests) in
      conclude planned changed unexpected diff evidence errors c
