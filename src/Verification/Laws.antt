-- ===== src/Verification/Laws.antt =====
-- What the verdict of a verification says.
use pearl_ai.Verification.{determine_status, compute_risk, is_disjoint, success, low}
use pearl_ai.Base.{
  String, ℕ, List, [], ◌∷◌, ◌≡◌, refl, any, arith, false, is_empty, length, not, one_of, true, ◌↔◌,
  ◌≤◌, ◌⊎◌,
}

shared : (xs ys : List String) → is_disjoint xs ys ≡ not (any (λ x. one_of x ys) xs)
unfolding is_disjoint
shared [] ys = refl
shared (x ∷ xs) ys = ground (arith, shared xs ys)

-- A verification succeeds exactly when no test failed and, if files were planned, one of them was changed,
-- or, if none was planned, some file was changed.
pub determine_status-success_iff :
    (planned changed : List String) (tests_failed : ℕ)
    → (determine_status planned changed tests_failed ≡ success) ↔ (
        (tests_failed ≡ 0)
        × ((any (λ f. one_of f changed) planned ≡ true)
            ⊎ ((planned ≡ []) × (is_empty changed ≡ false))))
unfolding determine_status
determine_status-success_iff [] changed tests_failed = ground arith
determine_status-success_iff (p ∷ ps) changed tests_failed = ground (arith, shared (p ∷ ps) changed)

-- The risk is low exactly when no test failed, every changed file was planned, and at most two changed.
pub compute_risk-low_iff :
    (changed unexpected : List String) (tests_failed : ℕ)
    → (compute_risk changed unexpected tests_failed ≡ low)
      ↔ ((tests_failed ≡ 0) × (unexpected ≡ []) × (length changed ≤ 2))
unfolding compute_risk
compute_risk-low_iff changed [] tests_failed = ground arith
compute_risk-low_iff changed (u ∷ us) tests_failed = ground arith
