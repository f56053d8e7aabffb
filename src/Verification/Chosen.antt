-- ===== src/Verification/Chosen.antt =====
-- Which tests a verification selects.
use pearl_ai.Verification.Selection.{Tree, choose, test_path, impacted, select_tests}
use pearl_ai.Base.{
  String, List, [], ◌∷◌, ◌++◌, ◌≡◌, refl, Bool-cases, and_right, All, any, arith, false, inl, inr,
  not, one_of, str_eq, true, ◌&&◌, Bool, eq_iff, ◌||◌, sym, ◌∙◌, if_false, if_true, subst,
}

-- The paths exist and are all different.
abbrev pub AreTests : Tree → List String → List String → Type 0
AreTests tree seen [] = Unit
AreTests tree seen (p ∷ ps) =
    (one_of p seen ≡ false) × (tree.exists p ≡ true) × AreTests tree (p ∷ seen) ps

-- The files whose tests are looked for.
abbrev pub candidates : Tree → List String → List String
candidates tree files = tree.set_order (files ++ impacted tree files)

-- The tests of some files: they exist, none is named twice, each of them is the test of a candidate, and no
-- test of a candidate is left out. There is none without a directory of tests.
pub record IsSelection (tree : Tree) (files tests : List String) : Type 0 where
  pub none_without_dir : tree.has_tests_dir ≡ false → tests ≡ []
  pub real : AreTests tree [] tests
  pub meant : All (λ p. any (λ f. str_eq (test_path tree f) p) (candidates tree files) ≡ true) tests
  pub complete :
      tree.has_tests_dir ≡ true
      → All
          (λ f. tree.exists (test_path tree f) ≡ true → one_of (test_path tree f) tests ≡ true)
          (candidates tree files)

module _ (tree : Tree) where
  abbrev fresh : List String → String → Bool
  fresh seen f = not (one_of (test_path tree f) seen) && tree.exists (test_path tree f)

  choose-AreTests : (seen fs : List String) → AreTests tree seen (choose tree seen fs)
  unfolding choose
  choose-AreTests seen [] = tt
  choose-AreTests seen (f ∷ fs) = elim (Bool-cases (fresh seen f)) [
    | inr b ↦ rw b (choose-AreTests seen fs)
    | inl b ↦ rw b (
      ground (arith, b),
      and_right (not (one_of (test_path tree f) seen)) (tree.exists (test_path tree f)) b,
      choose-AreTests (test_path tree f ∷ seen) fs,
    )
  ]

  abbrev Meant : List String → List String → Type 0
  Meant fs tests = All (λ p. any (λ f. str_eq (test_path tree f) p) fs ≡ true) tests

  Meant-more : (f : String) (fs tests : List String) → Meant fs tests → Meant (f ∷ fs) tests
  Meant-more f fs [] h = tt
  Meant-more f fs (p ∷ ps) h = (ground (arith, h.0), Meant-more f fs ps h.1)

  choose-Meant : (seen fs : List String) → Meant fs (choose tree seen fs)
  unfolding choose
  choose-Meant seen [] = tt
  choose-Meant seen (f ∷ fs) = elim (Bool-cases (fresh seen f)) [
    | inr b ↦ rw b (Meant-more f fs _ (choose-Meant seen fs))
    | inl b ↦ rw b (
      (let same = (eq_iff (test_path tree f) (test_path tree f)).1 refl in ground (arith, same)),
      Meant-more f fs _ (choose-Meant (test_path tree f ∷ seen) fs),
    )
  ]

  -- A path that was seen, or is chosen, stays among the two.
  choose_complete :
      (p : String) (seen fs : List String)
      → tree.exists p ≡ true
      → any (λ f. str_eq (test_path tree f) p) fs ≡ true
      → one_of p seen || one_of p (choose tree seen fs) ≡ true
  unfolding choose
  choose_complete p seen [] e h = cc h
  choose_complete p seen (f ∷ fs) e h = elim (Bool-cases (str_eq (test_path tree f) p)) [
    | inl same ↦
        let here : test_path tree f ≡ p = (eq_iff (test_path tree f) p).0 same in
        let real : tree.exists (test_path tree f) ≡ true = rw here e in
        elim (Bool-cases (one_of (test_path tree f) seen)) [
          | inl old ↦ rw (← here, old) refl
          | inr new ↦ rw (new, real, same) (ground arith)
        ]
    | inr other ↦
        let further : any (λ g. str_eq (test_path tree g) p) fs ≡ true = (rw other at h) in
        elim (Bool-cases (fresh seen f)) [
          | inl b ↦
              let rest = choose_complete p (test_path tree f ∷ seen) fs e further in
              rw (b, other) (rw other at rest)
          | inr b ↦ rw b (choose_complete p seen fs e further)
        ]
  ]

  choose-covers :
      (fs xs : List String)
      → ((p : String)
          → any (λ f. str_eq (test_path tree f) p) xs ≡ true
          → any (λ f. str_eq (test_path tree f) p) fs ≡ true)
      → All
          (λ f.
            tree.exists (test_path tree f) ≡ true
            → one_of (test_path tree f) (choose tree [] fs) ≡ true)
          xs
  choose-covers fs [] h = tt
  choose-covers fs (x ∷ xs) h = (
    λ e. choose_complete (test_path tree x) [] fs e (
        h (test_path tree x) (
          let same = (eq_iff (test_path tree x) (test_path tree x)).1 refl in
          ground (arith, same))),
    choose-covers fs xs (λ p k. h p (ground (arith, k))),
  )

  pub select_tests-IsSelection :
      (files : List String) → IsSelection tree files (select_tests tree files)
  unfolding select_tests
  select_tests-IsSelection files =
      let found = choose tree [] (candidates tree files) in
      elim (Bool-cases tree.has_tests_dir) [
        | inl b ↦
            subst (IsSelection tree files) (sym (if_true tree.has_tests_dir found [] b)) (record {
              none_without_dir = λ h. (let g : true ≡ false = sym b ∙ h in cc g);
              real = choose-AreTests [] (candidates tree files);
              meant = choose-Meant [] (candidates tree files);
              complete =
                  λ h. choose-covers (candidates tree files) (candidates tree files) (λ p k. k);
            })
        | inr b ↦
            subst (IsSelection tree files) (sym (if_false tree.has_tests_dir found [] b)) (record {
              none_without_dir = λ h. refl;
              real = tt;
              meant = tt;
              complete = λ h. (let g : true ≡ false = sym h ∙ b in cc g);
            })
      ]
