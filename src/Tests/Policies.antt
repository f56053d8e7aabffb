-- ===== src/Tests/Policies.antt =====
-- The policies at concrete tiers and errors.
use pearl_ai.Risk.Laws.{dangerous_batch_blocked}
use pearl_ai.Risk.{
  risk_rank, max_risk, execution_policy, effective_mode, can_auto_approve, ExecutionPolicy,
}
use pearl_ai.Retry.{
  is_transient_error, fatal_types, is_any, looks_transient, transient_patterns, transient_types,
}
use pearl_ai.Python.{Exception, plain, wrapper, message, classes, is_instance}
use pearl_ai.Base.{String, All, List, [], arith, false, refl, true, ◌∷◌, ◌≡◌, ◌≤◌, lower_holds}

abbrev tiers : List String
tiers = "safe" ∷ "dangerous" ∷ "staged" ∷ []

abbrev headless : ExecutionPolicy
headless = record { mode = "headless"; staged_policy = "approve" }

known_tiers : All (λ l. risk_rank l ≤ 2) tiers
unfolding risk_rank
known_tiers = (omega arith, (omega arith, (omega arith, tt)))

dangerous_batch_blocked_example : can_auto_approve headless (max_risk tiers) ≡ false
dangerous_batch_blocked_example = dangerous_batch_blocked headless tiers known_tiers refl

staged_passes : can_auto_approve (execution_policy "headless" "approve") "staged" ≡ true
unfolding can_auto_approve execution_policy effective_mode
staged_passes = refl

unknown_rank : risk_rank "network" ≡ 3
unfolding risk_rank
unknown_rank = refl

abbrev rate_limited : Exception
rate_limited =
    wrapper ("ToolExecutionError" ∷ "RuntimeError" ∷ []) "Tool 'x' failed: 429"
      (plain ("ValueError" ∷ []) "429")

-- An error of a fatal type and one of a transient type, with one message.
abbrev missing : Exception
missing = plain ("FileNotFoundError" ∷ "OSError" ∷ []) "timeout.py"

abbrev late : Exception
late = plain ("TimeoutError" ∷ "OSError" ∷ []) "timeout.py"

same_text : message missing ≡ message late
unfolding message
same_text = refl

type_before_text : (is_transient_error missing ≡ false) × (is_transient_error late ≡ true)
unfolding is_transient_error is_any looks_transient fatal_types transient_types transient_patterns
    is_instance classes message lower_holds
type_before_text = (refl, refl)

retried_for_its_text : is_transient_error rate_limited ≡ true
unfolding is_transient_error is_any looks_transient fatal_types transient_types transient_patterns
    is_instance classes message lower_holds
retried_for_its_text = refl
