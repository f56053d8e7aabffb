-- ===== src/Router.antt =====
-- src/llm/router.py: which provider and model serve a task. A task is its name, and a setting that is not
-- set is the empty text.
pub mod Clients
pub mod Policy
pub mod Sharing
pub mod Floor
use pearl_ai.Base.{
  String, ℕ, Bool, List, [], ◌∷◌, Option, any, if◌then◌else◌, none, not, one_of, some, str_eq, ◌&&◌,
}

pub record Settings : Type 0 where
  pub llm_provider : String
  pub model_profile : String
  pub planning_provider : String
  pub chat_provider : String
  pub edit_provider : String
  pub condenser_provider : String
  pub autocomplete_provider : String
  pub vision_provider : String
  pub reflection_provider : String
  pub planning_model : String
  pub chat_model : String
  pub edit_model : String
  pub condenser_model_name : String
  pub autocomplete_model : String
  pub vision_model : String
  pub reflection_model : String
  pub openai_api_key : String
  pub anthropic_api_key : String
  pub openrouter_api_key : String
  pub gemini_api_key : String
  pub pearl_inference_api_key : String
  pub pearl_inference_plan_model : String
  pub pearl_inference_chat_model : String
  pub autocomplete_local_model_file : String
  pub local_model_file : String
  pub local_model_ctx : ℕ
  pub model_fallback_to_local : Bool

-- `bool(text)`
abbrev pub is_set : String → Bool
is_set s = not (str_eq s "")

-- `{…}.get(task, "")`
abbrev pub pick_name : String → List (String × String) → String
pick_name task [] = ""
pick_name task ((t, v) ∷ rest) = if str_eq t task then v else pick_name task rest

-- What `_build` constructs a client from.
pub data Request : Type 0 where
  local_file : (filename : String) → (n_ctx : ℕ) → Request
  with_model : (provider model : String) → Request
  default_model : (provider : String) → Request

module _ (s : Settings) where
  -- `_explicit_provider`
  unfoldable pub explicit_provider : String → String
  explicit_provider task = pick_name task (
      ("planning", s.planning_provider)
      ∷ ("chat", s.chat_provider)
      ∷ ("edit", s.edit_provider)
      ∷ ("condenser", s.condenser_provider)
      ∷ ("autocomplete", s.autocomplete_provider)
      ∷ ("vision", s.vision_provider)
      ∷ ("reflection", s.reflection_provider)
      ∷ [])

  -- `_remote_key_configured`
  unfoldable pub remote_key_configured : Bool
  remote_key_configured = any is_set (
      s.openai_api_key ∷ s.anthropic_api_key ∷ s.openrouter_api_key ∷ s.gemini_api_key
      ∷ s.pearl_inference_api_key ∷ [])

  unfoldable pub resolve_profile : String
  unfolding remote_key_configured
  resolve_profile =
      if str_eq s.model_profile "auto"
      then (if not (str_eq s.llm_provider "pearl")
          then "cloud"
          else if remote_key_configured
          then "hybrid"
          else "local")
      else if one_of s.model_profile ("local" ∷ "hybrid" ∷ "cloud" ∷ [])
      then s.model_profile
      else "local"

  -- `_profile_provider`
  unfoldable pub profile_provider : String → String
  unfolding resolve_profile
  profile_provider task =
      if str_eq task "autocomplete"
      then (if not (str_eq s.llm_provider "pearl") then s.llm_provider else "pearl")
      else if str_eq resolve_profile "local"
      then "pearl"
      else if str_eq resolve_profile "cloud"
      then s.llm_provider
      else if one_of task ("planning" ∷ "reflection" ∷ "edit" ∷ [])
      then s.llm_provider
      else "pearl"

  -- `_effective_provider`
  unfoldable pub effective_provider : String → String
  unfolding explicit_provider profile_provider
  effective_provider task =
      if is_set (explicit_provider task)
      then explicit_provider task
      else if one_of task ("edit" ∷ "condenser" ∷ []) && is_set s.chat_provider
      then s.chat_provider
      else if str_eq task "reflection" && is_set s.chat_provider
      then s.chat_provider
      else profile_provider task

  unfoldable pub explicit_model : String → String
  explicit_model task = pick_name task (
      ("planning", s.planning_model)
      ∷ ("chat", s.chat_model)
      ∷ ("edit", s.edit_model)
      ∷ ("condenser", s.condenser_model_name)
      ∷ ("autocomplete", s.autocomplete_model)
      ∷ ("vision", s.vision_model)
      ∷ ("reflection", s.reflection_model)
      ∷ [])

  -- `_override_model`
  unfoldable pub override_model : String → String → Option String
  unfolding explicit_model
  override_model provider task =
      if is_set (explicit_model task)
      then some (explicit_model task)
      else if str_eq provider "pearl"
      then (if str_eq task "planning"
          then some s.pearl_inference_plan_model
          else if str_eq task "autocomplete"
          then some s.autocomplete_local_model_file
          else some s.pearl_inference_chat_model)
      else none

  -- `_is_local_pearl`
  unfoldable pub is_local_pearl : String → Bool
  is_local_pearl provider = str_eq provider "pearl" && not (is_set s.pearl_inference_api_key)

  -- `_local_model_file`
  unfoldable pub local_model_file : String → String → Option String
  unfolding is_local_pearl
  local_model_file provider task =
      if not (is_local_pearl provider)
      then none
      else if str_eq task "autocomplete"
      then (if str_eq s.autocomplete_local_model_file s.local_model_file
          then none
          else some s.autocomplete_local_model_file)
      else none

  unfoldable pub named_request : String → Option String → Request
  named_request provider none = default_model provider
  named_request provider (some model) =
      if is_set model then with_model provider model else default_model provider

  -- `_build` up to the call of the constructors, with `_create_local_provider`.
  unfoldable pub build_request : String → String → Request
  unfolding local_model_file named_request override_model
  build_request task provider = elim (local_model_file provider task) [
    | some file ↦ local_file file (if str_eq task "autocomplete" then 2048 else s.local_model_ctx)
    | none ↦ named_request provider (override_model provider task)
  ]
