-- ===== src/Router/Clients.antt =====
-- ModelRouter: the clients, one for each identity. The constructors of the providers are a parameter: what
-- they answer to a request, in a world that they may change.
use pearl_ai.Router.{
  Settings, effective_provider, override_model, local_model_file, build_request, is_set, Request,
}
use pearl_ai.Python.{Exception}
use pearl_ai.Base.{
  String, Bool, List, [], ◌∷◌, Option, none, some, Dict, false, if◌then◌else◌, lookup, not, put,
  str_eq, true, ◌&&◌, ◌||◌,
}

pub record Identity : Type 0 where
  pub provider : String
  pub model : Option String
  pub file : Option String

abbrev pub option_eq : Option String → Option String → Bool
option_eq none none = true
option_eq (some a) (some b) = str_eq a b
option_eq none (some b) = false
option_eq (some a) none = false

abbrev pub is_same : Identity → Identity → Bool
is_same a b = str_eq a.provider b.provider && option_eq a.model b.model && option_eq a.file b.file

-- How a constructor answers.
pub data Built (C : Type 0) : Type 0 where
  built : C → Built C
  raised : Exception → Built C

pub record ModelRouter (C W : Type 0) : Type 0 where
  -- `_clients` and `_by_identity`
  pub clients : Dict C
  pub by_identity : List (Identity × C)
  pub world : W

unfoldable pub shared_client {ℓ} : {C : Type ℓ} → Identity → List (Identity × C) → Option C
shared_client id [] = none
shared_client id ((i, c) ∷ rest) = if is_same i id then some c else shared_client id rest

module _ {C W : Type 0} (s : Settings) (construct : Request → W → Built C × W) where
  -- `_identity`
  unfoldable pub identity : String → String → Identity
  unfolding override_model local_model_file
  identity task provider = record {
    provider = provider;
    model = override_model s provider task;
    file = local_model_file s provider task;
  }

  -- `self._clients[task] = client`, and the return of the client.
  abbrev pub answer : String → C → ModelRouter C W → Built C × ModelRouter C W
  answer task c r = (built c, record r { clients = put task c r.clients })

  abbrev pub answer_new : String → Identity → C → ModelRouter C W → Built C × ModelRouter C W
  answer_new task id c r =
      (built c, record r { clients = put task c r.clients; by_identity = (id, c) ∷ r.by_identity })

  abbrev pub settle_local : String → Built C × W → ModelRouter C W → Built C × ModelRouter C W
  settle_local task (built c, w) r =
      answer_new task (identity task "pearl") c (record r { world = w })
  settle_local task (raised x, w) r = (raised x, record r { world = w })

  -- The fallback to local inference.
  unfoldable pub fall_back : String → ModelRouter C W → Built C × ModelRouter C W
  unfolding identity build_request shared_client
  fall_back task r = elim (shared_client (identity task "pearl") r.by_identity) [
    | some c ↦ answer task c r
    | none ↦ settle_local task (construct (build_request s task "pearl") r.world) r
  ]

  abbrev pub may_fall_back : String → String → Bool
  may_fall_back task provider =
      s.model_fallback_to_local && not (str_eq provider "pearl") && not (str_eq task "vision")

  unfoldable pub settle :
      String → String → Built C × W → ModelRouter C W → Built C × ModelRouter C W
  unfolding fall_back
  settle task provider (built c, w) r =
      answer_new task (identity task provider) c (record r { world = w })
  settle task provider (raised x, w) r =
      if may_fall_back task provider
      then fall_back task (record r { world = w })
      else (raised x, record r { world = w })

  -- `client_for`
  unfoldable pub client_for : String → ModelRouter C W → Built C × ModelRouter C W
  unfolding identity effective_provider build_request shared_client settle lookup
  client_for task r = elim (lookup task r.clients) [
    | some c ↦ (built c, r)
    | none ↦
        let provider = effective_provider s task in
        elim (shared_client (identity task provider) r.by_identity) [
          | some c ↦ answer task c r
          | none ↦ settle task provider (construct (build_request s task provider) r.world) r
        ]
  ]

  abbrev pub chat_client : ModelRouter C W → Built C × ModelRouter C W
  chat_client = client_for "chat"

  unfoldable pub edit_client : ModelRouter C W → Built C × ModelRouter C W
  edit_client =
      if is_set s.edit_provider || is_set s.edit_model then client_for "edit" else chat_client

  unfoldable pub condenser_client : ModelRouter C W → Built C × ModelRouter C W
  condenser_client =
      if is_set s.condenser_provider || is_set s.condenser_model_name
      then client_for "condenser"
      else chat_client

  unfoldable pub reflection_client : ModelRouter C W → Built C × ModelRouter C W
  reflection_client =
      if is_set s.reflection_provider || is_set s.reflection_model
      then client_for "reflection"
      else chat_client

  abbrev pub or_none : Built C → Option C
  or_none (built c) = some c
  or_none (raised x) = none

  unfoldable pub vision_client : ModelRouter C W → Option C × ModelRouter C W
  unfolding client_for
  vision_client r =
      let (c, r') = client_for "vision" r in
      if is_set s.vision_provider || is_set s.vision_model then (or_none c, r') else (none, r)

  -- `all_same_provider`
  unfoldable pub all_same_provider : Bool
  unfolding effective_provider
  all_same_provider =
      str_eq (effective_provider s "planning") (effective_provider s "chat")
      && not (is_set s.planning_model || is_set s.chat_model)
      && not (
          str_eq (effective_provider s "planning") "pearl"
          && not (str_eq s.pearl_inference_plan_model s.pearl_inference_chat_model))
