-- ===== src/Tests/Shell.antt =====
-- Batches of commands, with a runner whose world lists the commands that it was given.
use pearl_ai.Commands.{
  run_raised, ShellCommandRequest, RunOutcome, Completed, CommandApprovalManager, exited, ran,
}
use pearl_ai.Commands
use pearl_ai.Commands.Laws.{RunsAll, approve_all-RunsAll, approve_all-Broken, Broken}
use pearl_ai.Python.{plain, Exception}
use pearl_ai.Base.{String, List, [], if◌then◌else◌, none, refl, str_eq, ◌++◌, ◌∷◌, ◌≡◌}

abbrev shell : String → ShellCommandRequest
shell c = record { command = c; cwd = "."; timeout = 60; cpu_seconds = none; memory_mb = none }

abbrev failing : Exception
failing = plain ("CalledProcessError" ∷ []) "exit 1"

abbrev done : Completed
done = record { returncode = exited 0; stdout = "" }

abbrev ran_by : List String → ShellCommandRequest → RunOutcome × List String
ran_by w r =
    if str_eq r.command "false" then (run_raised failing, w) else (ran done, w ++ r.command ∷ [])

abbrev runner : ShellCommandRequest → List String → RunOutcome × List String
runner r w = ran_by w r

abbrev queue : String → CommandApprovalManager
queue c = record { staged = shell "make" ∷ shell c ∷ [] }

both_ran : (Commands.approve_all runner (queue "test") []).0 ≡ Commands.all_ran (done ∷ done ∷ [])
unfolding Commands.approve_all Commands.run_each
both_ran = refl

second_raised : (Commands.approve_all runner (queue "false") []).0 ≡ Commands.one_raised failing
unfolding Commands.approve_all Commands.run_each
second_raised = refl

approve_all-RunsAll_example :
    RunsAll runner
      (queue "test").staged
      (done ∷ done ∷ [])
      []
      (Commands.approve_all runner (queue "test") []).2
approve_all-RunsAll_example =
    approve_all-RunsAll runner (queue "test") [] (done ∷ done ∷ []) both_ran

approve_all-Broken_example :
    ((Commands.approve_all runner (queue "false") []).1 ≡ queue "false")
    × Broken runner
        (queue "false").staged
        failing
        []
        (Commands.approve_all runner (queue "false") []).2
approve_all-Broken_example = approve_all-Broken runner (queue "false") [] failing second_raised
