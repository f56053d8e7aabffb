-- ===== src/Lib.antt =====
-- Pearl, a coding agent: the part that runs a plan and guards what reaches the disk and the shell, and the
-- parts around it that keep sessions, verify what was written, route tasks to models and shorten conversations.
--
-- A planner turns a request into a list of tool calls. The executor (src/agent/executor.py) runs them
-- one at a time through the dispatcher. Tools do not write: while a run is active, they stage file edits
-- in a ChangeManager (src/tools/patch_manager.py) and shell commands in a CommandApprovalManager
-- (src/tools/command_approval.py). Where something is staged when the loop ends, the run pauses, and the
-- user answers with approve() or reject(). A failed step is retried, or handed back to the planner, by
-- the rules of src/agent/retry.py; the tiers of src/tools/models.py and the policy of
-- src/agent/headless.py say which batches may be approved with no user.
--
-- The files:
--   Base and its children: the helpers that the parts share: lists over the native numbers, Python's
--     operations on texts, association lists.
--   Python: values and exceptions, as far as the code looks at them: an exception is the names of the
--     classes that it is an instance of, its message, and the error that it wraps.
--   Retry (src/agent/retry.py): is_transient_error, classify_error.
--   Risk (src/tools/models.py, src/agent/headless.py): max_risk, ExecutionPolicy. Risk/Laws.
--   Changes (src/tools/patch_manager.py): ChangeManager with propose, stale_paths, apply_all and
--     discard_all. Changes/Files is the file system below it; Fresh is about stale_paths, Writes about
--     single writes, Commit about a batch that goes through, Rollback about one that fails.
--   Commands (src/tools/command_approval.py): CommandApprovalManager. Commands/Laws.
--   Plan (src/llm/parser.py): ToolCall. Plan/Parser: ToolParser; Parser/Described is about what it reads.
--     Plan/Validator (src/agent/plan_validator.py): the checks of
--     validate_plan on the steps; its children are about the order of reads and writes, about paths
--     written twice, and about the dependencies (validate_dependencies, and validate_plan as a whole).
--     Plan/Graph (src/agent/dependency_graph.py): topological_sort; Graph/Release, Build and Kahn hold
--     the lemmas on its loops, Graph/Order what it hands back.
--   Planner (src/agent/planner.py): Planner/Intent are the gates of src/agent/conversational.py, Calls is
--     validate_tool_call of src/llm/validation.py, Confidence is src/agent/confidence.py, Prompt is build_prompt
--     and build_replan_prompt, Steps is plan and replan. Ids and Order say where a step stands in the sorted plan,
--     Fit what the checks ensure, Sound what a plan is fit for, Total and Ends how a call ends, Budget whether a
--     prompt fits, Confidence/Charged what a factor takes off a score, Confidence/Bounds where the scores lie;
--     Wired puts the planner into the executor.
--   Report (src/agent/execution_model.py): steps, events, reports, the paused state, _summarize,
--     _reflect, _describe_planning_failure.
--   Tools (src/tools/registry.py, src/agent/dispatcher.py): lookup, registration, removal, dispatch.
--     Tools/Laws. Tools/Filter (src/agent/tool_filter.py): relevant_tools.
--   Executor (src/agent/executor.py): the state of AutonomousExecutor (the record Executor), and its
--     surroundings (the record Environment). Executor/Loop is _execute: Vars are the variables of the
--     loop, `round` is one round of `while pending`, and take_step, handle_error, recover and ask_replan
--     are its parts in the order of the code. Executor/Finish is _finish_or_pause and
--     _replan_from_reflection, Executor/Planning is run and _plan_with_retry, Executor/Approval is
--     approve and reject. Loop/Cases, Loop/Terminates, Loop/Counts, Loop/Outcomes, Settles, Returns,
--     Answers and Rejects hold the proofs about them.
--   Sessions (src/agent/session_manager.py): SessionRecord, to_dict, summary_dict, the slice of load_history.
--     Sessions/Values is what json reads and writes, Machine what the manager runs on, Decode is _now and
--     from_dict, Manager the operations of SessionManager. Paths, Roundtrip, Save, Table, Refines and History
--     hold the proofs; Refines says what each operation does to a table of the sessions.
--   Verification (src/agent/verification.py): _determine_status, _compute_risk; Selection is _select_tests and
--     _parse_pytest_counts, Engine is verify; Laws, Chosen and Answers hold the proofs. The executor takes the engine
--     as a parameter.
--   Router (src/llm/router.py): the provider and the model of a task; Clients is ModelRouter with client_for.
--     Policy is about profiles, Sharing about the table of clients, Floor about the fallback.
--   Context (src/llm/token_budget.py, src/agent/condenser.py): Tokens is the estimate and the truncation,
--     Condenser the condensation of a conversation; Allowance is src/llm/context_budget.py; Budget and Middle
--     hold the proofs.
--   Tenancy (src/api/tenancy.py): SessionRegistry with its evictions. Busy is about what they keep, Capacity
--     about the cap.
--   Editor (src/tools/search_replace_editor.py): Texts are Python's searches in a text, Regions the normalized and
--     the fuzzy search, Replace is SearchReplaceEditor.apply, Tool is validate and replace_in_file of
--     src/tools/edit_tools.py. Occurrences and Exact are about exact matches, Windows and Changed about what is
--     replaced, Staging about the batch, Agrees about validate.
--   Tests and its children: concrete runs.
--
-- What is a parameter: the file system (with the documented effect of a write, a removal and mkdir, each
-- of which may fail half-way), the tools' functions, the planner, the validator as a whole, the command runner,
-- the checkpoints, the index, the verification engine, the reflection engine's model, and the cancel
-- event, which each read of it may find set since another thread sets it. Each takes the world that it
-- meets and leaves another one. For the parts around the executor: the clock, uuid4, json and os.replace under
-- the sessions (Sessions/Machine says what they promise), git and the runner of the tests under verify, the
-- constructors of model clients under the router, and the model that writes a summary. For the planner: the
-- model, the templates, what the regular expressions of the gates say, json and the signatures of the tools. For the
-- editor: the ratios of difflib, and the resolution of a path inside the workspace.
-- Inside the executor the planner as a whole is a parameter; Planner/Wired fills it with plan and replan.
--
-- Fuel: the loop runs on (max_iterations + 1 - iteration) * (max_retries + 1) + max_retries + 1 rounds,
-- since a round uses up an iteration or one of the retries of the call at the front. The way back from a
-- reflection into the loop runs on max_replans + 1, since each takes one replan of the budget. The queue of
-- topological_sort runs on the number of steps, since each leaves it once, and the eviction over the cap of
-- the session registry on the number of sessions, since each round drops one. All are proved to be enough.
--
-- Not modelled: logging, the progress listeners, whose errors the code drops, the wording of events
-- (they keep their kind), the rounding of the confidence score to four places, the warning on a dirty workspace, and the locks: every operation is one step.
-- The rest of the repository (the parsers and the index, the model clients, the servers, the editing
-- tools) is not modelled.
mod Base
pub mod Python
pub mod Retry
pub mod Risk
pub mod Changes
pub mod Commands
pub mod Plan
pub mod Report
pub mod Tools
pub mod Executor
pub mod Sessions
pub mod Verification
pub mod Router
pub mod Context
pub mod Tenancy
pub mod Planner
pub mod Editor
mod Tests
