-- ===== src/Router/Floor.antt =====
-- Local inference as the floor: with the fallback on, a task always gets a client.
use pearl_ai.Router.{Settings, Request, effective_provider, build_request}
use pearl_ai.Router.Clients.{
  ModelRouter, Built, built, raised, client_for, shared_client, identity, answer, settle,
  settle_local, fall_back, may_fall_back,
}
use pearl_ai.Base.{
  String, ◌≡◌, refl, some, lookup, put, Bool-cases, Dict, Option-cases, eq_iff, false, inl, inr,
  lookup-put, str_eq, subst, sym, true, ◌∙◌,
}

module _ {C W : Type 0} (s : Settings) (construct : Request → W → Built C × W) (task : String) where
  -- A client is handed out, and kept for the task.
  abbrev pub Served : Built C × ModelRouter C W → Type 0
  Served res = (c : C) × (res.0 ≡ built c) × (lookup task res.1.clients ≡ some c)

  abbrev IsBuilt : Built C × W → Type 0
  IsBuilt p = (c : C) × (p.0 ≡ built c)

  put-own : (c : C) (d : Dict C) → lookup task (put task c d) ≡ some c
  put-own c d = lookup-put task task c d ∙ (rw ((eq_iff task task).1 refl) refl)

  via : (p q : Built C × ModelRouter C W) → p ≡ q → Served q → Served p
  via p q e h = subst Served (sym e) h

  settle_local-Served :
      (p : Built C × W) (r : ModelRouter C W)
      → IsBuilt p
      → Served (settle_local s construct task p r)
  settle_local-Served (built c, w) r h = (c, refl, put-own c r.clients)
  settle_local-Served (raised x, w) r (c, e) = cc e

  fall_back-Served :
      (r : ModelRouter C W)
      → ((w : W) → IsBuilt (construct (build_request s task "pearl") w))
      → Served (fall_back s construct task r)
  unfolding fall_back
  fall_back-Served r h =
      let here = fall_back s construct task r in
      let fresh = construct (build_request s task "pearl") r.world in
      elim (Option-cases (shared_client (identity s construct task "pearl") r.by_identity)) [
        | inr (c, e) ↦
            via here (answer s construct task c r) (rw (e, fall_back) refl)
              (c, refl, put-own c r.clients)
        | inl e ↦
            via here (settle_local s construct task fresh r) (rw (e, fall_back) refl)
              (settle_local-Served fresh r (h r.world))
      ]

  settle-Served :
      (provider : String) (p : Built C × W) (r : ModelRouter C W)
      → s.model_fallback_to_local ≡ true
      → str_eq task "vision" ≡ false
      → (str_eq provider "pearl" ≡ true → IsBuilt p)
      → ((w : W) → IsBuilt (construct (build_request s task "pearl") w))
      → Served (settle s construct task provider p r)
  unfolding settle
  settle-Served provider (built c, w) r f v l h = (c, refl, put-own c r.clients)
  settle-Served provider (raised x, w) r f v l h =
      let r' : ModelRouter C W = record r { world = w } in
      elim (Bool-cases (str_eq provider "pearl")) [
        | inl b ↦ (let (c, e) = l b in cc e)
        | inr b ↦
            let may : may_fall_back s construct task provider ≡ true = (rw (f, v, b) refl) in
            via (settle s construct task provider (raised x, w) r) (fall_back s construct task r')
              (rw may refl) (fall_back-Served r' h)
      ]

  served :
      (r : ModelRouter C W)
      → s.model_fallback_to_local ≡ true
      → str_eq task "vision" ≡ false
      → ((w : W) → IsBuilt (construct (build_request s task "pearl") w))
      → Served (client_for s construct task r)
  unfolding client_for
  served r f v h =
      let provider = effective_provider s task in
      let fresh = construct (build_request s task provider) r.world in
      let here = client_for s construct task r in
      elim (Option-cases (lookup task r.clients)) [
        | inr (c, e) ↦ via here (built c, r) (rw (e, client_for) refl) (c, refl, e)
        | inl e ↦
            elim (Option-cases (shared_client (identity s construct task provider) r.by_identity)) [
              | inr (c, g) ↦
                  via here (answer s construct task c r) (rw (e, g, client_for) refl)
                    (c, refl, put-own c r.clients)
              | inl g ↦
                  via here (settle s construct task provider fresh r) (rw (e, g, client_for) refl) (
                    settle-Served provider fresh r f v
                      (λ b.
                        subst (λ q. IsBuilt (construct (build_request s task q) r.world))
                          (sym ((eq_iff provider "pearl").0 b)) (h r.world))
                      h)
            ]
      ]

  again :
      (r : ModelRouter C W) (c : C)
      → lookup task r.clients ≡ some c
      → client_for s construct task r ≡ (built c, r)
  unfolding client_for
  again r c e = rw (e, client_for) refl

  -- With the fallback on, and a local inference that can always be set up, every task but vision gets a
  -- client, whatever its provider does, and asking again gives the same client and changes nothing.
  pub client_for-Served :
      (r : ModelRouter C W)
      → s.model_fallback_to_local ≡ true
      → str_eq task "vision" ≡ false
      → ((w : W) → (c : C) × ((construct (build_request s task "pearl") w).0 ≡ built c))
      → (c : C) × ((client_for s construct task r).0 ≡ built c)
        × (client_for s construct task (client_for s construct task r).1
            ≡ (built c, (client_for s construct task r).1))
  client_for-Served r f v h =
      let (c, e, k) = served r f v h in (c, e, again (client_for s construct task r).1 c k)
