-- ===== src/Router/Policy.antt =====
-- Which provider serves a task under a profile.
use pearl_ai.Router.{
  Settings, effective_provider, explicit_provider, profile_provider, resolve_profile, Request,
}
use pearl_ai.Router.Clients.{ModelRouter, Built, client_for, reflection_client}
use pearl_ai.Base.{String, ◌≡◌, refl, Bool-cases, arith, eq_iff, if◌then◌else◌, inl, inr, str_eq}

-- Under the local profile, a task with no provider of its own is served on the device, but for the
-- completion, which goes to the global provider.
effective_provider-local :
    (s : Settings) (task : String)
    → s.model_profile ≡ "local"
    → explicit_provider s task ≡ ""
    → s.chat_provider ≡ ""
    → effective_provider s task ≡ (if str_eq task "autocomplete" then s.llm_provider else "pearl")
unfolding effective_provider profile_provider resolve_profile
effective_provider-local s task p e c = elim (Bool-cases (str_eq task "autocomplete")) [
  | inl a ↦ elim (Bool-cases (str_eq s.llm_provider "pearl")) [
    | inl l ↦ rw (e, c, a, l) (ground (arith, (eq_iff s.llm_provider "pearl").0 l))
    | inr l ↦ rw (e, c, a, l) (ground arith)
  ]
  | inr a ↦ rw (e, c, a, p) (ground arith)
]

-- Under the hybrid profile, with nothing set for the reflection or the chat, the reflection has the global
-- provider, but reflection_client hands out the client of the chat, which is local.
reflection_client-hybrid :
    {C W : Type 0} (s : Settings) (construct : Request → W → Built C × W) (r : ModelRouter C W)
    → resolve_profile s ≡ "hybrid"
    → s.reflection_provider ≡ ""
    → s.reflection_model ≡ ""
    → s.chat_provider ≡ ""
    → (effective_provider s "reflection" ≡ s.llm_provider)
      × (effective_provider s "chat" ≡ "pearl")
      × (reflection_client s construct r ≡ client_for s construct "chat" r)
unfolding effective_provider explicit_provider profile_provider reflection_client
reflection_client-hybrid s construct r h p m c = (rw (h, p, c) refl, rw (h, c) refl, rw (p, m) refl)
