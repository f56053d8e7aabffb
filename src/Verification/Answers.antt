-- ===== src/Verification/Answers.antt =====
-- What a whole run of verify answers.
use pearl_ai.Verification.Laws.{determine_status-success_iff, compute_risk-low_iff}
use pearl_ai.Verification.Chosen.{IsSelection, select_tests-IsSelection}
use pearl_ai.Verification.{success, low}
use pearl_ai.Verification.Engine.{
  VerificationResult, GitStatus, TestRun, conclude, run_tests, changed_files, pytest, Evidence,
  counts_of, tests_timed_out, run_selected, finished, run_error, run_timed_out, runner_error,
  tail_of, test_cmd, test_output, Counts, EngineError, facts, verify,
}
use pearl_ai.Verification.Selection.{Tree, parse_pytest_counts, select_tests}
use pearl_ai.Base.{
  String, ℕ, Bool, List, [], ◌∷◌, ◌≡◌, refl, Option, All, Bool-cases, any, false, inl, inr,
  is_empty, keep, length, map, not, one_of, sym, true, ◌++◌, ◌↔◌, ◌∙◌, ◌≤◌, ◌⊎◌, ◌+◌, ap, arith,
  eq_iff, str_eq,
}

keep-nil :
    (p : String → Bool) (xs : List String)
    → (keep (λ x. not (p x)) xs ≡ []) ↔ All (λ x. p x ≡ true) xs
keep-nil p [] = (λ h. tt, λ h. refl)
keep-nil p (x ∷ xs) = elim (Bool-cases (p x)) [
  | inl b ↦ (λ h. (b, (keep-nil p xs).0 (rw b at h)), λ h. rw b ((keep-nil p xs).1 h.1))
  | inr b ↦ (
    λ h. (let g : x ∷ keep (λ y. not (p y)) xs ≡ [] = (rw b at h) in cc g),
    λ h. (let g : true ≡ false = sym h.0 ∙ b in cc g),
  )
]

-- What a successful run is.
abbrev pub IsSuccessful : VerificationResult → Type 0
IsSuccessful r =
    (r.tests_failed ≡ 0)
    × ((any (λ f. one_of f r.changed_files) r.planned_files ≡ true)
        ⊎ ((r.planned_files ≡ []) × (is_empty r.changed_files ≡ false)))

-- What a run of low risk is.
abbrev pub IsTame : VerificationResult → Type 0
IsTame r =
    (r.tests_failed ≡ 0)
    × All (λ f. one_of f r.planned_files ≡ true) r.changed_files
    × (length r.changed_files ≤ 2)

-- Among the elements of a list that pass a test are those that pass it.
one_of-keep :
    (p : String → Bool) (f : String) (xs : List String)
    → (one_of f (keep p xs) ≡ true) ↔ ((one_of f xs ≡ true) × (p f ≡ true))
one_of-keep p f [] = ground arith
one_of-keep p f (x ∷ xs) =
    let same : str_eq x f ≡ true → p x ≡ p f = λ h. ap p ((eq_iff x f).0 h) in
    ground (arith, same, one_of-keep p f xs)

abbrev pub Verdict : VerificationResult → Type 0
Verdict r = ((r.status ≡ success) ↔ IsSuccessful r) × ((r.risk ≡ low) ↔ IsTame r)

-- The last evidence is the command and the end of what it printed.
abbrev pub IsShown : List String → String → VerificationResult → Type 0
IsShown cmd out r =
    (front : List Evidence) × (r.evidence ≡ front ++ test_cmd cmd ∷ test_output (tail_of out) ∷ [])

module _ (decimal : ℕ → Option ℕ) (tree : Tree) (normalize : String → String)
    (run_command : List String → TestRun) (git_status : GitStatus)
    (planned_files : List String) where
  -- The counts and the errors after a run of the tests that ends in this way.
  abbrev pub IsCounted : TestRun → VerificationResult → Type 0
  IsCounted (finished out) r =
      (parse_pytest_counts decimal out ≡ (r.tests_passed, r.tests_failed))
      × (r.errors ≡ (changed_files git_status).1 ++ [])
  IsCounted tests_timed_out r =
      (r.tests_passed ≡ 0)
      × (r.tests_failed ≡ 0)
      × (r.errors ≡ (changed_files git_status).1 ++ run_timed_out ∷ [])
  IsCounted (runner_error shown) r =
      (r.tests_passed ≡ 0)
      × (r.tests_failed ≡ 0)
      × (r.errors ≡ (changed_files git_status).1 ++ run_error shown ∷ [])

  abbrev pub printed : TestRun → String
  printed (finished out) = out
  printed _ = ""

  -- With no tests nothing is run, else the command for all of them.
  abbrev pub Ran : List String → VerificationResult → Type 0
  Ran [] r =
      (r.tests_passed ≡ 0) × (r.tests_failed ≡ 0) × (r.errors ≡ (changed_files git_status).1 ++ [])
  Ran (t ∷ ts) r =
      IsCounted (run_command (pytest (t ∷ ts))) r
      × IsShown (pytest (t ∷ ts)) (printed (run_command (pytest (t ∷ ts)))) r

  -- What a run of verify reports.
  pub record IsReport (r : VerificationResult) : Type 0 where
    pub planned : r.planned_files ≡ map normalize planned_files
    pub changed : r.changed_files ≡ (changed_files git_status).0
    pub unexpected :
        (f : String)
        → (one_of f r.unexpected_files ≡ true)
          ↔ ((one_of f r.changed_files ≡ true) × (not (one_of f r.planned_files) ≡ true))
    pub tests : List String
    pub selected : IsSelection tree (r.planned_files ++ r.changed_files) tests
    pub ran : Ran tests r
    pub counted : r.tests_run ≡ r.tests_passed + r.tests_failed
    pub verdict : Verdict r

  module _ (planned changed unexpected : List String) (diff : String) where
    abbrev concluded : List Evidence → Counts → VerificationResult
    concluded evidence c =
        conclude decimal tree normalize run_command planned changed unexpected diff evidence
          (changed_files git_status).1 c

    counts_of-IsCounted :
        (o : TestRun) (evidence : List Evidence)
        → IsCounted o (concluded evidence (counts_of decimal tree normalize run_command o))
    unfolding conclude counts_of
    counts_of-IsCounted (finished out) evidence = (refl, refl)
    counts_of-IsCounted tests_timed_out evidence = (refl, refl, refl)
    counts_of-IsCounted (runner_error shown) evidence = (refl, refl, refl)

    counts_of-printed :
        (o : TestRun) → (counts_of decimal tree normalize run_command o).output ≡ printed o
    unfolding counts_of
    counts_of-printed (finished out) = refl
    counts_of-printed tests_timed_out = refl
    counts_of-printed (runner_error shown) = refl

    run_selected-Ran :
        (ts : List String) (known : List Evidence)
        → let (evidence, c) = run_selected decimal tree normalize run_command ts known in
          Ran ts (concluded evidence c)
    unfolding run_selected run_tests conclude
    run_selected-Ran [] known = (refl, refl, refl)
    run_selected-Ran (t ∷ ts) known =
        let o = run_command (pytest (t ∷ ts)) in
        (
          counts_of-IsCounted o _,
          (
            known,
            ap (λ out. known ++ test_cmd (pytest (t ∷ ts)) ∷ test_output (tail_of out) ∷ [])
                (counts_of-printed o),
          ),
        )

module _ (decimal : ℕ → Option ℕ) (tree : Tree) (normalize : String → String)
    (run_command : List String → TestRun) (git_status : GitStatus) (diff : String)
    (planned_files : List String) where
  conclude-Verdict :
      (planned changed : List String) (shown : String) (evidence : List Evidence)
      (errors : List EngineError) (c : Counts)
      → Verdict (
          conclude decimal tree normalize run_command planned changed
            (keep (λ f. not (one_of f planned)) changed)
            shown
            evidence
            errors
            c)
  unfolding conclude
  conclude-Verdict planned changed shown evidence errors c =
      let unexpected = keep (λ f. not (one_of f planned)) changed in
      let k = keep-nil (λ f. one_of f planned) changed in
      let r = compute_risk-low_iff changed unexpected c.failed in
      (
        determine_status-success_iff planned changed c.failed,
        ((λ h. (let g = r.0 h in (g.0, k.0 g.1, g.2))), (λ h. r.1 (h.0, k.1 h.1, h.2))),
      )

  abbrev tests : List String
  tests = select_tests tree (map normalize planned_files ++ (changed_files git_status).0)

  abbrev known : List Evidence
  known =
      let planned = map normalize planned_files in
      let changed = (changed_files git_status).0 in
      facts decimal tree normalize run_command planned changed
        (keep (λ f. not (one_of f planned)) changed) tests

  abbrev ran : List Evidence × Counts
  ran = run_selected decimal tree normalize run_command tests known

  -- A run of verify runs the tests of the planned and the changed files, all of them with one command, and
  -- reports the counts that the output names, or none and an error if the run does not end by itself. It
  -- reports a success exactly when no test failed and, if files were planned, one of them was changed, or, if
  -- none was planned, some file was; and a low risk exactly when no test failed, every changed file was
  -- planned and at most two were changed.
  pub verify-Verdict :
      IsReport decimal tree normalize run_command git_status planned_files
        (verify decimal tree normalize run_command git_status diff planned_files)
  unfolding verify conclude
  verify-Verdict =
      let planned = map normalize planned_files in
      let changed = (changed_files git_status).0 in
      let unexpected = keep (λ f. not (one_of f planned)) changed in
      record {
        planned = refl;
        changed = refl;
        unexpected = λ f. one_of-keep (λ g. not (one_of g planned)) f changed;
        tests = tests;
        selected = select_tests-IsSelection tree (planned ++ changed);
        ran =
            run_selected-Ran decimal tree normalize run_command git_status planned_files planned
              changed unexpected diff tests known;
        counted = refl;
        verdict = conclude-Verdict planned changed diff ran.0 (changed_files git_status).1 ran.1;
      }

  none_failed :
      (ts : List String) (e : List Evidence)
      → ((cmd : List String) → run_command cmd ≡ tests_timed_out)
      → (run_selected decimal tree normalize run_command ts e).1.failed ≡ 0
  unfolding run_selected run_tests counts_of
  none_failed [] e h = refl
  none_failed (t ∷ ts) e h = rw (h (pytest (t ∷ ts))) refl

  -- If the run of the tests times out, a planned file that was changed is enough for a success: no test
  -- counts as failed.
  pub verify_timed_out :
      ((cmd : List String) → run_command cmd ≡ tests_timed_out)
      → any (λ f. one_of f (changed_files git_status).0) (map normalize planned_files) ≡ true
      → (verify decimal tree normalize run_command git_status diff planned_files).status ≡ success
  unfolding verify conclude
  verify_timed_out h p = rw (none_failed tests known h) (
      (determine_status-success_iff (map normalize planned_files) (changed_files git_status).0 0).1
        (refl, inl p))
