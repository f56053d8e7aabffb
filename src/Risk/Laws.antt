-- ===== src/Risk/Laws.antt =====
-- The guarantees of the tiers: a batch is as risky as its riskiest member, and no batch with a
-- dangerous member is approved without a user.
use pearl_ai.Base.{
  ℕ, ◌≤◌, String, true, false, List, [], ◌∷◌, ◌≡◌, ◌≢◌, ◌⊎◌, refl, subst, sym, arith, str_eq,
  eq_iff, All, Bool-cases, inl, inr, one_of,
}
use pearl_ai.Risk.{
  risk_rank, riskier, max_from, max_risk, effective_mode, ExecutionPolicy, execution_policy,
  can_auto_approve,
}

-- Every level of the list ranks at most as high as `m`.
abbrev pub AllAtMost : String → List String → Type 0
AllAtMost m ls = All (λ l. risk_rank l ≤ risk_rank m) ls

module _ (best l : String) where
  riskier-ge_left : risk_rank best ≤ risk_rank (riskier best l)
  unfolding riskier
  riskier-ge_left = ground arith

  riskier-ge_right : risk_rank l ≤ risk_rank (riskier best l)
  unfolding riskier
  riskier-ge_right = ground arith

  max_from-cons : (ls : List String) → max_from best (l ∷ ls) ≡ max_from (riskier best l) ls
  unfolding max_from
  max_from-cons ls = refl

max_from-nil : (best : String) → max_from best [] ≡ best
unfolding max_from
max_from-nil best = refl

max_from-ge : (best : String) (ls : List String) → risk_rank best ≤ risk_rank (max_from best ls)
max_from-ge best [] = rw max_from-nil (omega arith)
max_from-ge best (l ∷ ls) =
    rw max_from-cons (omega (arith, riskier-ge_left best l, max_from-ge (riskier best l) ls))

max_from-AllAtMost : (best : String) (ls : List String) → AllAtMost (max_from best ls) ls
max_from-AllAtMost best [] = tt
max_from-AllAtMost best (l ∷ ls) =
    subst (λ m. AllAtMost m (l ∷ ls)) (sym (max_from-cons best l ls))
      (
        omega (arith, riskier-ge_right best l, max_from-ge (riskier best l) ls),
        max_from-AllAtMost (riskier best l) ls,
      )

max_risk-cons : (l : String) (ls : List String) → max_risk (l ∷ ls) ≡ max_from l ls
unfolding max_risk
max_risk-cons l ls = refl

-- No level of a batch ranks above the tier that `max_risk` reports for the batch.
max_risk-AllAtMost : (ls : List String) → AllAtMost (max_risk ls) ls
max_risk-AllAtMost [] = tt
max_risk-AllAtMost (l ∷ ls) =
    subst (λ m. AllAtMost m (l ∷ ls)) (sym (max_risk-cons l ls))
      (max_from-ge l ls, max_from-AllAtMost l ls)

max_from-le :
    (best : String) (ls : List String)
    → risk_rank best ≤ 2
    → All (λ l. risk_rank l ≤ 2) ls
    → risk_rank (max_from best ls) ≤ 2
max_from-le best [] h hs = rw max_from-nil h
max_from-le best (l ∷ ls) h hs =
    rw max_from-cons (max_from-le (riskier best l) ls (unfold riskier in ground arith) hs.1)

max_risk-le : (ls : List String) → All (λ l. risk_rank l ≤ 2) ls → risk_rank (max_risk ls) ≤ 2
max_risk-le [] h = unfold max_risk risk_rank in omega arith
max_risk-le (l ∷ ls) h = rw max_risk-cons (max_from-le l ls h.0 h.1)

rank_of_member :
    (k : ℕ) (a : String) (ls : List String)
    → All (λ l. risk_rank l ≤ k) ls
    → one_of a ls ≡ true
    → risk_rank a ≤ k
rank_of_member k a [] h m = cc
rank_of_member k a (l ∷ ls) h m = elim (Bool-cases (str_eq l a)) [
  | inl e ↦ subst (λ x. risk_rank x ≤ k) ((eq_iff l a).0 e) h.0
  | inr e ↦ rank_of_member k a ls h.1 (rw e at m)
]

dangerous_of_rank : (l : String) → risk_rank l ≡ 2 → l ≡ "dangerous"
unfolding risk_rank
dangerous_of_rank l h = ground (arith, eq_iff l "dangerous")

rank_of_dangerous : risk_rank "dangerous" ≡ 2
unfolding risk_rank
rank_of_dangerous = refl

dangerous_blocked : (p : ExecutionPolicy) → can_auto_approve p "dangerous" ≡ false
unfolding can_auto_approve
dangerous_blocked p = refl

-- A batch of known tiers that holds a dangerous tool is never approved without a user, whatever the
-- mode and the policy for staged changes are.
pub dangerous_batch_blocked :
    (p : ExecutionPolicy) (ls : List String)
    → All (λ l. risk_rank l ≤ 2) ls
    → one_of "dangerous" ls ≡ true
    → can_auto_approve p (max_risk ls) ≡ false
dangerous_batch_blocked p ls known has =
    let top : risk_rank (max_risk ls) ≡ 2 = omega (
      arith,
      rank_of_dangerous,
      max_risk-le ls known,
      rank_of_member (risk_rank (max_risk ls)) "dangerous" ls (max_risk-AllAtMost ls) has,
    ) in
    rw (dangerous_of_rank (max_risk ls) top) (dangerous_blocked p)

-- The mode in force, and what the mode that was asked for had to be.
mode_cases :
    (mode : String)
    → (effective_mode mode ≡ "interactive")
      ⊎ ((mode ≡ "headless") × (effective_mode mode ≡ "headless"))
      ⊎ ((mode ≡ "ci") × (effective_mode mode ≡ "ci"))
unfolding effective_mode
mode_cases mode =
    ground (arith, eq_iff mode "headless", eq_iff mode "ci", eq_iff mode "interactive")

approved_in :
    (m policy l : String)
    → can_auto_approve (record { mode = m; staged_policy = policy }) l ≡ true
    → (l ≢ "dangerous") × (m ≢ "interactive") × ((l ≡ "safe") ⊎ ((m ≢ "ci") × (policy ≡ "approve")))
unfolding can_auto_approve
approved_in m policy l h = ground (
  arith,
  eq_iff l "dangerous",
  eq_iff l "safe",
  eq_iff m "interactive",
  eq_iff m "ci",
  eq_iff policy "approve",
)

-- An automatic approval happens only in the modes "headless" and "ci", for a tier other than
-- "dangerous"; for a tier other than "safe" only in "headless" under the policy "approve".
can_auto_approve-needs :
    (mode policy l : String)
    → can_auto_approve (execution_policy mode policy) l ≡ true
    → (l ≢ "dangerous")
      × ((mode ≡ "headless") ⊎ (mode ≡ "ci"))
      × ((l ≡ "safe") ⊎ ((mode ≡ "headless") × (policy ≡ "approve")))
unfolding execution_policy
can_auto_approve-needs mode policy l h =
    ground (arith, approved_in (effective_mode mode) policy l h, mode_cases mode)

unknown_tier_reported : (l : String) → risk_rank l ≡ 3 → max_risk ("dangerous" ∷ l ∷ []) ≡ l
unfolding max_risk
unknown_tier_reported l h = ground (arith, eq_iff l "dangerous", eq_iff l "safe", eq_iff l "staged")

headless_approve :
    execution_policy "headless" "approve" ≡ record { mode = "headless"; staged_policy = "approve" }
unfolding execution_policy effective_mode
headless_approve = refl

unknown_tier_passes :
    (l : String)
    → risk_rank l ≡ 3
    → can_auto_approve (record { mode = "headless"; staged_policy = "approve" }) l ≡ true
unfolding can_auto_approve risk_rank
unknown_tier_passes l h = ground (arith, eq_iff l "dangerous", eq_iff l "safe")

-- A tier outside the three known ones hides a dangerous tool of the same batch: the batch is reported
-- as that tier, and "headless" with the policy "approve" lets it through.
unknown_tier_approved :
    (l : String)
    → risk_rank l ≡ 3
    → can_auto_approve (execution_policy "headless" "approve") (max_risk ("dangerous" ∷ l ∷ []))
      ≡ true
unknown_tier_approved l h =
    rw (unknown_tier_reported l h, headless_approve) (unknown_tier_passes l h)
