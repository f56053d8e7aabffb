-- ===== src/Verification/Selection.antt =====
-- _select_tests and _parse_pytest_counts. What a decimal digit of `\d` is worth, the parts of a path, the
-- files that exist, the impact of a file and the order of a set are parameters.
use pearl_ai.Base.{
  String, ℕ, Bool, List, [], ◌∷◌, Option, none, some, codes, has_prefix, if◌then◌else◌, not, one_of,
  text_of, ◌&&◌, ◌*◌, ◌++◌, ◌+◌,
}

module _ (decimal : ℕ → Option ℕ) where
  -- The digits from here on, and then the word.
  unfoldable pub digits_then : List ℕ → ℕ → List ℕ → Option ℕ
  unfolding has_prefix
  digits_then word n [] = none
  digits_then word n (c ∷ cs) = elim (decimal c) [
    | some d ↦ digits_then word (n * 10 + d) cs
    | none ↦ if has_prefix word (c ∷ cs) then some n else none
  ]

  -- `re.search(r"(\d+) …")`
  unfoldable pub search_count : List ℕ → List ℕ → Option ℕ
  unfolding digits_then
  search_count word [] = none
  search_count word (c ∷ cs) = elim (decimal c) [
    | none ↦ search_count word cs
    | some d ↦ elim (digits_then word d cs) [ some n ↦ some n | none ↦ search_count word cs ]
  ]

  abbrev pub or_zero : Option ℕ → ℕ
  or_zero none = 0
  or_zero (some n) = n

  -- `_parse_pytest_counts`
  unfoldable pub parse_pytest_counts : String → ℕ × ℕ
  unfolding search_count
  parse_pytest_counts output = (
    or_zero (search_count (codes " passed") (codes output)),
    or_zero (search_count (codes " failed") (codes output)),
  )

-- The repository as the selection of tests looks at it.
pub record Tree : Type 0 where
  pub has_tests_dir : Bool
  -- `Path(f).stem`
  pub stem : String → String
  -- whether a path from the root of the workspace exists
  pub exists : String → Bool
  -- `graph.impact(f)`, and nothing if there is no graph or the call fails
  pub impact : String → List String
  -- the order in which a set with these elements is walked through
  pub set_order : List String → List String

unfoldable pub impacted : Tree → List String → List String
impacted tree [] = []
impacted tree (f ∷ fs) = tree.impact f ++ impacted tree fs

unfoldable pub test_path : Tree → String → String
unfolding text_of
test_path tree f = text_of ("tests/test_" ∷ tree.stem f ∷ ".py" ∷ [])

-- The loop over the candidates: what was selected so far is in `seen`.
unfoldable pub choose : Tree → List String → List String → List String
unfolding test_path
choose tree seen [] = []
choose tree seen (f ∷ fs) =
    let skipped = choose tree seen fs in
    let chosen = test_path tree f ∷ choose tree (test_path tree f ∷ seen) fs in
    if not (one_of (test_path tree f) seen) && tree.exists (test_path tree f)
    then chosen
    else skipped

-- `_select_tests`
unfoldable pub select_tests : Tree → List String → List String
unfolding impacted choose
select_tests tree files =
    if tree.has_tests_dir
    then choose tree [] (tree.set_order (files ++ impacted tree files))
    else []
