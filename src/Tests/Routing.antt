-- ===== src/Tests/Routing.antt =====
-- A router with a remote provider that cannot be reached; the world counts the constructions.
use pearl_ai.Router.{
  Settings, Request, local_file, with_model, default_model, effective_provider, resolve_profile,
  profile_provider, explicit_provider, build_request, local_model_file, is_local_pearl,
  named_request, override_model, explicit_model,
}
use pearl_ai.Router.Clients.{
  ModelRouter, Built, built, raised, client_for, shared_client, identity, settle, fall_back,
}
use pearl_ai.Router.Sharing.{client_for-AllFiled, AllFiled}
use pearl_ai.Router.Floor.{client_for-Served}
use pearl_ai.Python.{Exception, plain}
use pearl_ai.Base.{ℕ, true, [], ◌∷◌, ◌≡◌, refl, str_eq, lookup, put, if◌then◌else◌, ◌+◌}

abbrev hybrid : Settings
hybrid = record {
  llm_provider = "openai";
  model_profile = "hybrid";
  planning_provider = "";
  chat_provider = "";
  edit_provider = "";
  condenser_provider = "";
  autocomplete_provider = "";
  vision_provider = "";
  reflection_provider = "";
  planning_model = "";
  chat_model = "";
  edit_model = "";
  condenser_model_name = "";
  autocomplete_model = "";
  vision_model = "";
  reflection_model = "";
  openai_api_key = "key";
  anthropic_api_key = "";
  openrouter_api_key = "";
  gemini_api_key = "";
  pearl_inference_api_key = "";
  pearl_inference_plan_model = "plan";
  pearl_inference_chat_model = "chat";
  autocomplete_local_model_file = "small.gguf";
  local_model_file = "large.gguf";
  local_model_ctx = 8192;
  model_fallback_to_local = true;
}

abbrev local_only : Settings
local_only = record hybrid { model_profile = "local" }

abbrev unreachable : Exception
unreachable = plain ("ConnectionError" ∷ []) "no route"

abbrev construct : Request → ℕ → Built ℕ × ℕ
construct (local_file file n) w = (built w, w + 1)
construct (with_model provider model) w =
    if str_eq provider "pearl" then (built w, w + 1) else (raised unreachable, w)
construct (default_model provider) w = (raised unreachable, w)

abbrev empty_router : ModelRouter ℕ ℕ
empty_router = record { clients = []; by_identity = []; world = 0 }

fallen_back : (client_for hybrid construct "planning" empty_router).0 ≡ built 0
unfolding client_for shared_client identity settle fall_back build_request local_model_file
    is_local_pearl named_request override_model explicit_model effective_provider explicit_provider
    profile_provider resolve_profile lookup put
fallen_back = refl

nothing_filed : AllFiled hybrid construct empty_router
unfolding lookup
nothing_filed task c e = cc e

client_for-AllFiled_example :
    AllFiled hybrid construct (client_for hybrid construct "planning" empty_router).1
client_for-AllFiled_example =
    client_for-AllFiled hybrid construct "planning" empty_router nothing_filed

local_built :
    (w : ℕ) → (c : ℕ) × ((construct (build_request hybrid "planning" "pearl") w).0 ≡ built c)
unfolding build_request local_model_file is_local_pearl named_request override_model explicit_model
local_built w = (w, refl)

client_for-Served_example :
    (c : ℕ) × ((client_for hybrid construct "planning" empty_router).0 ≡ built c)
    × (client_for hybrid construct "planning"
          (client_for hybrid construct "planning" empty_router).1
        ≡ (built c, (client_for hybrid construct "planning" empty_router).1))
client_for-Served_example =
    client_for-Served hybrid construct "planning" empty_router refl refl local_built
