-- ===== src/Verification.antt =====
-- src/agent/verification.py: the checks behind an applied batch. The confidence, a float that no decision
-- reads, is left out.
pub mod Selection
pub mod Engine
pub mod Laws
pub mod Chosen
pub mod Answers
use pearl_ai.Base.{
  String, ℕ, Bool, List, [], ◌∷◌, any, if◌then◌else◌, is_empty, leb, length, ltb, not, one_of,
  starts_with, true, ◌&&◌, ◌||◌,
}

pub data VerificationStatus : Type 0 where
  success unverified failed_tests : VerificationStatus

pub data RiskLevel : Type 0 where
  low medium high : RiskLevel

-- `set(a).isdisjoint(set(b))`
unfoldable pub is_disjoint : List String → List String → Bool
is_disjoint [] ys = true
is_disjoint (x ∷ xs) ys = not (one_of x ys) && is_disjoint xs ys

-- `_determine_status`
unfoldable pub determine_status : List String → List String → ℕ → VerificationStatus
unfolding is_disjoint
determine_status planned changed tests_failed =
    if ltb 0 tests_failed
    then failed_tests
    else if is_empty planned && is_empty changed
    then unverified
    else if not (is_empty planned) && is_disjoint planned changed
    then unverified
    else success

-- `f.startswith(("src/", "src\\"))`
unfoldable pub is_critical : String → Bool
unfolding starts_with
is_critical f = starts_with f "src/" || starts_with f "src\\"

-- `_compute_risk`
unfoldable pub compute_risk : List String → List String → ℕ → RiskLevel
unfolding is_critical
compute_risk changed unexpected tests_failed =
    if ltb 0 tests_failed
    then high
    else if any is_critical unexpected
    then high
    else if ltb 5 (length changed) || ltb 2 (length unexpected)
    then high
    else if leb 3 (length changed) || ltb 0 (length unexpected)
    then medium
    else low
