-- ===== src/Commands.antt =====
-- src/tools/command_approval.py: the CommandApprovalManager, which stages shell commands and runs them
-- as one batch. How a request runs is the injected runner, a parameter.
pub mod Laws
use pearl_ai.Python.{Exception}
use pearl_ai.Base.{String, Bool, List, Option, [], is_empty, map, not, ℕ, ◌++◌, ◌∷◌}

pub record ShellCommandRequest : Type 0 where
  pub command : String
  pub cwd : String
  pub timeout : ℕ
  pub cpu_seconds : Option ℕ
  pub memory_mb : Option ℕ

-- `returncode`: not negative, or the negated number of the signal that ended the command.
pub data ReturnCode : Type 0 where
  exited signalled : ℕ → ReturnCode

-- What a command that ran gave: `subprocess.CompletedProcess`.
pub record Completed : Type 0 where
  pub returncode : ReturnCode
  pub stdout : String

pub data RunOutcome : Type 0 where
  ran : Completed → RunOutcome
  run_raised : Exception → RunOutcome

pub record CommandApprovalManager : Type 0 where
  pub staged : List ShellCommandRequest

unfoldable pub propose : ShellCommandRequest → CommandApprovalManager → CommandApprovalManager
propose request m = record m { staged = m.staged ++ request ∷ [] }

unfoldable pub has_pending : CommandApprovalManager → Bool
has_pending m = not (is_empty m.staged)

unfoldable pub affected_commands : CommandApprovalManager → List String
affected_commands m = map (λ r. r.command) m.staged

unfoldable pub discard_all : CommandApprovalManager → List String × CommandApprovalManager
unfolding affected_commands
discard_all m = (affected_commands m, record m { staged = [] })

-- How `approve_all` ends.
pub data Ran : Type 0 where
  all_ran : List Completed → Ran
  one_raised : Exception → Ran

module _ {W : Type 0} (runner : ShellCommandRequest → W → RunOutcome × W) where
  -- The list comprehension: it stops at the first command that raises.
  unfoldable pub run_each : List ShellCommandRequest → List Completed → W → Ran × W
  run_each [] results w = (all_ran results, w)
  run_each (r ∷ rs) results w =
      let (outcome, w') = runner r w in
      elim outcome [
        | ran c ↦ run_each rs (results ++ c ∷ []) w'
        | run_raised x ↦ (one_raised x, w')
      ]

  -- The batch is cleared only behind the comprehension.
  unfoldable pub approve_all : CommandApprovalManager → W → Ran × CommandApprovalManager × W
  approve_all m w =
      let (result, w') = run_each m.staged [] w in
      elim result [
        | all_ran cs ↦ (all_ran cs, record m { staged = [] }, w')
        | one_raised x ↦ (one_raised x, m, w')
      ]
