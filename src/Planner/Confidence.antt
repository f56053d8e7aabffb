-- ===== src/Planner/Confidence.antt =====
-- src/agent/confidence.py: how sure a plan is. The score of a step is in hundredths: the code rounds it to
-- four places, which removes what floats add. The score of a plan is a fraction, before it is rounded.
pub mod Charged
pub mod Bounds
use pearl_ai.Plan.{ToolCall}
use pearl_ai.Python.{str}
use pearl_ai.Base.{
  String, ℕ, Bool, List, [], ◌∷◌, ◌++◌, none, some, str_eq, one_of, codes, has_infix, lookup, any,
  length, is_empty, text_of, show_nat, ltb, if◌then◌else◌, ◌+◌, ◌*◌, ◌-◌, ◌==◌, leb, ◌&&◌,
}

abbrev pub position_penalty : ℕ
position_penalty = 2

abbrev pub write_penalty : ℕ
write_penalty = 10

abbrev pub shell_penalty : ℕ
shell_penalty = 20

abbrev pub shell_complex_penalty : ℕ
shell_complex_penalty = 5

abbrev pub replan_penalty : ℕ
replan_penalty = 15

abbrev pub max_replan_penalty : ℕ
max_replan_penalty = 30

abbrev pub write_tool_names : List String
write_tool_names =
    "create_file" ∷ "replace_in_file" ∷ "edit_lines" ∷ "patch_file" ∷ "write_file" ∷ "append_file"
    ∷ "make_directory" ∷ "delete_file" ∷ "rename_file" ∷ "copy_file" ∷ "replace_function"
    ∷ "replace_class" ∷ "insert_after_symbol" ∷ "insert_before_symbol" ∷ "git_commit"
    ∷ "git_restore" ∷ "git_create_branch" ∷ []

abbrev pub shell_tool_names : List String
shell_tool_names = "execute_shell" ∷ "run_python" ∷ []

abbrev pub shell_complex_indicators : List String
shell_complex_indicators = "&&" ∷ "||" ∷ ";" ∷ "|" ∷ ">>" ∷ ">" ∷ "<" ∷ "`" ∷ "$(" ∷ []

pub record ConfidenceFactor : Type 0 where
  pub name : String
  pub deduction : ℕ
  pub description : String

pub record StepConfidence : Type 0 where
  pub step_index : ℕ
  pub tool_name : String
  pub score : ℕ
  pub factors : List ConfidenceFactor

-- The score is `score` hundredths of `scale`.
pub record PlanConfidence : Type 0 where
  pub score : ℕ
  pub scale : ℕ
  pub step_scores : List StepConfidence
  pub plan_factors : List ConfidenceFactor

-- `negsuc n` is -(n + 1).
pub data ℤ : Type 0 where
  pos : ℕ → ℤ
  negsuc : ℕ → ℤ

abbrev pub minus : ℤ → ℕ → ℤ
minus (pos a) b = if leb b a then pos (a - b) else negsuc (b - a - 1)
minus (negsuc a) b = negsuc (a + b)

-- `_clamp`, for a value in parts of which `one` make 1.0.
unfoldable pub clamp : (one : ℕ) → ℤ → ℕ
clamp one (pos n) = if ltb one n then one else n
clamp one (negsuc n) = 0

-- The variables `score` (or `base`) and `factors` while a score is computed.
pub record Scoring : Type 0 where
  pub score : ℤ
  pub factors : List ConfidenceFactor

-- `if index > 0:`
unfoldable pub score_position : ℕ → Scoring → Scoring
unfolding text_of show_nat
score_position index s =
    let deduction = position_penalty * index in
    if index == 0 then s else record {
      score = minus s.score deduction;
      factors =
          s.factors
          ++ record {
            name = "position";
            deduction = deduction;
            description = text_of (
                "Step "
                ∷ show_nat (index + 1)
                ∷ " depends on "
                ∷ show_nat index
                ∷ " prior step(s) succeeding"
                ∷ []);
          }
            ∷ [];
    }

-- `if step.tool_name in WRITE_TOOL_NAMES:`
unfoldable pub score_write : String → Scoring → Scoring
unfolding text_of
score_write tool s =
    if one_of tool write_tool_names
    then record {
      score = minus s.score write_penalty;
      factors =
          s.factors
          ++ record {
            name = "write_operation";
            deduction = write_penalty;
            description = text_of ("'" ∷ tool ∷ "' modifies files or repository state" ∷ []);
          }
            ∷ [];
    }
    else s

-- `str(step.kwargs.get("command", ""))`
unfoldable pub command_of : ToolCall → String
unfolding lookup str
command_of step = elim (lookup "command" step.kwargs) [ none ↦ "" | some v ↦ str v ]

unfoldable pub is_complex : String → Bool
unfolding has_infix
is_complex command = any (λ ind. has_infix (codes ind) (codes command)) shell_complex_indicators

-- `if step.tool_name == "execute_shell":`
unfoldable pub score_complex : ToolCall → Scoring → Scoring
unfolding command_of is_complex
score_complex step s =
    if str_eq step.tool_name "execute_shell" && is_complex (command_of step)
    then record {
      score = minus s.score shell_complex_penalty;
      factors =
          s.factors
          ++ record {
            name = "complex_shell";
            deduction = shell_complex_penalty;
            description =
                "Shell command chains multiple operations (pipes, redirects, or logical operators)";
          }
            ∷ [];
    }
    else s

-- `if step.tool_name in SHELL_TOOL_NAMES:`
unfoldable pub score_shell : ToolCall → Scoring → Scoring
unfolding text_of score_complex
score_shell step s =
    if one_of step.tool_name shell_tool_names
    then score_complex step (record {
      score = minus s.score shell_penalty;
      factors =
          s.factors
          ++ record {
            name = "shell_command";
            deduction = shell_penalty;
            description = text_of ("'" ∷ step.tool_name ∷ "' executes arbitrary code" ∷ []);
          }
            ∷ [];
    })
    else s

-- `_score_step`
unfoldable pub score_step : ToolCall → ℕ → StepConfidence
unfolding score_position score_write score_shell clamp
score_step step index =
    let s = score_shell step (
      score_write step.tool_name
        (score_position index (record { score = pos 100; factors = [] }))) in
    if str_eq step.tool_name "none"
    then record { step_index = index; tool_name = "none"; score = 100; factors = [] }
    else record {
      step_index = index;
      tool_name = step.tool_name;
      score = clamp 100 s.score;
      factors = s.factors;
    }

unfoldable pub score_steps : ℕ → List ToolCall → List StepConfidence
unfolding score_step
score_steps i [] = []
score_steps i (step ∷ steps) = score_step step i ∷ score_steps (i + 1) steps

abbrev pub total : List StepConfidence → ℕ
total [] = 0
total (s ∷ ss) = s.score + total ss

abbrev pub replan_deduction : ℕ → ℕ
replan_deduction n =
    if ltb max_replan_penalty (replan_penalty * n) then max_replan_penalty else replan_penalty * n

-- `if replans_used > 0:`, for a base of which `parts` hundredths make a hundredth of the score.
unfoldable pub score_replans : ℕ → ℕ → Scoring → Scoring
unfolding text_of show_nat
score_replans parts n s =
    let deduction = replan_deduction n in
    if n == 0 then s else record {
      score = minus s.score (parts * deduction);
      factors =
          s.factors
          ++ record {
            name = "prior_replans";
            deduction = deduction;
            description = text_of (
                show_nat n
                ∷ " replan(s) already used: the task is harder than the initial plan anticipated"
                ∷ []);
          }
            ∷ [];
    }

-- `score_plan`. The base is the mean of the steps; over the number of steps, it is their sum.
unfoldable pub score_plan : List ToolCall → ℕ → PlanConfidence
unfolding score_steps score_replans clamp
score_plan steps replans_used =
    let scores = score_steps 0 steps in
    let base =
      score_replans (length steps) replans_used
        (record { score = pos (total scores); factors = [] }) in
    if is_empty steps
    then record { score = 100; scale = 1; step_scores = []; plan_factors = [] }
    else record {
      score = clamp (100 * length steps) base.score;
      scale = length steps;
      step_scores = scores;
      plan_factors = base.factors;
    }
