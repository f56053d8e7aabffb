-- ===== src/Planner/Prompt.antt =====
-- build_prompt and build_replan_prompt of src/agent/planner.py.
use pearl_ai.Context.Tokens.{truncate_to_tokens}
use pearl_ai.Context.Allowance.{ContextBudget, context_token_allowance}
use pearl_ai.Tools.Filter.{relevant_tools}
use pearl_ai.Tools.{Tool}
use pearl_ai.Base.{String, List, [], ◌∷◌, str_eq, text_of, if◌then◌else◌}

-- The block of context before a prompt.
unfoldable pub with_context : String → String → String
unfolding text_of
with_context workspace_context prompt =
    if str_eq workspace_context ""
    then prompt
    else text_of (
        "Current workspace context (recent activity in this session):\n\n" ∷ workspace_context
        ∷ "\n\n" ∷ prompt ∷ [])

-- What `_generate_json` is sent; the templates, filled in with the tools as JSON and the workspace's root,
-- are parameters.
module _ (tools : List Tool) (budget : ContextBudget) (planning : List Tool → String → String) where
  -- The prompt without a context.
  unfoldable pub base_prompt : String → String
  unfolding relevant_tools
  base_prompt user_prompt = planning (relevant_tools (λ t. t.name) user_prompt tools) user_prompt

  -- `build_prompt`
  unfoldable pub build_prompt : String → String → String
  unfolding base_prompt with_context context_token_allowance truncate_to_tokens
  build_prompt user_prompt workspace_context =
      let prompt = base_prompt user_prompt in
      if str_eq workspace_context ""
      then prompt
      else with_context
          (truncate_to_tokens workspace_context (context_token_allowance budget prompt)) prompt

-- `build_replan_prompt`: the template takes the completed steps, the failed one and its suggestion too.
module _ {C R : Type 0} (tools : List Tool)
    (replanning : List Tool → String → List C → R → String → String) (suggestion : R → String) where
  unfoldable pub build_replan_prompt : String → List C → R → String
  unfolding relevant_tools
  build_replan_prompt user_prompt completed failure =
      replanning (relevant_tools (λ t. t.name) user_prompt tools) user_prompt completed failure
        (suggestion failure)
