-- ===== src/Router/Sharing.antt =====
-- The clients that client_for hands out: kept, shared and, with a fallback, always there.
use pearl_ai.Router.{Settings, Request, effective_provider, build_request}
use pearl_ai.Router.Clients.{
  ModelRouter, Built, shared_client, Identity, is_same, option_eq, identity, answer_new, built,
  client_for, fall_back, may_fall_back, raised, settle, settle_local, answer,
}
use pearl_ai.Base.{
  String, List, ◌∷◌, ◌≡◌, refl, Option, none, some, lookup, put, Bool-cases, Dict, ap, arith,
  eq_iff, inl, inr, lookup-put, str_eq, sym, true, ◌∙◌, ◌⊎◌, Option-cases, subst,
}

option_eq→eq : (a b : Option String) → option_eq a b ≡ true → a ≡ b
option_eq→eq none none h = refl
option_eq→eq (some a) (some b) h = ap some ((eq_iff a b).0 h)
option_eq→eq none (some b) h = cc h
option_eq→eq (some a) none h = cc h

same→eq : (a b : Identity) → is_same a b ≡ true → a ≡ b
same→eq a b h =
    let p = (eq_iff a.provider b.provider).0 (ground (arith, h)) in
    let m = option_eq→eq a.model b.model (ground (arith, h)) in
    let f = option_eq→eq a.file b.file (ground (arith, h)) in
    λ i. record { provider = p i; model = m i; file = f i }

option_eq_refl : (a : Option String) → option_eq a a ≡ true
option_eq_refl none = refl
option_eq_refl (some a) = (eq_iff a a).1 refl

same_refl : (a : Identity) → is_same a a ≡ true
same_refl a =
    ground
      (arith, (eq_iff a.provider a.provider).1 refl, option_eq_refl a.model, option_eq_refl a.file)

module _ {C W : Type 0} (s : Settings) (construct : Request → W → Built C × W) where
  -- A new entry hides none of the others.
  shared_client-new :
      (new id : Identity) (c d : C) (by : List (Identity × C))
      → shared_client new by ≡ none
      → shared_client id by ≡ some d
      → shared_client id ((new, c) ∷ by) ≡ some d
  unfolding shared_client
  shared_client-new new id c d by n e = elim (Bool-cases (is_same new id)) [
    | inr b ↦ rw b e
    | inl b ↦
        let g : none ≡ some d = sym n ∙ ap (λ i. shared_client i by) (same→eq new id b) ∙ e in cc g
  ]

  -- The client of a task is filed under the identity of the task with its provider, or with the local one.
  abbrev pub Filed : List (Identity × C) → String → C → Type 0
  Filed by task c =
      (shared_client (identity s construct task (effective_provider s task)) by ≡ some c)
      ⊎ (shared_client (identity s construct task "pearl") by ≡ some c)

  abbrev pub AllFiled : ModelRouter C W → Type 0
  AllFiled r = (task : String) (c : C) → lookup task r.clients ≡ some c → Filed r.by_identity task c

  Filed-new :
      (new : Identity) (c d : C) (by : List (Identity × C)) (task : String)
      → shared_client new by ≡ none
      → Filed by task d
      → Filed ((new, c) ∷ by) task d
  Filed-new new c d by task n (inl e) = inl (shared_client-new new _ c d by n e)
  Filed-new new c d by task n (inr e) = inr (shared_client-new new _ c d by n e)

  -- A client that is filed becomes the client of a task.
  put-AllFiled :
      (clients : Dict C) (by by' : List (Identity × C)) (task : String) (c : C)
      → ((t : String) (d : C) → lookup t clients ≡ some d → Filed by' t d)
      → Filed by' task c
      → (t : String) (d : C) → lookup t (put task c clients) ≡ some d
      → Filed by' t d
  put-AllFiled clients by by' task c old f t d e = elim (Bool-cases (str_eq task t)) [
    | inl b ↦
        let g : some c ≡ some d = sym (lookup-put task t c clients ∙ rw b refl) ∙ e in
        subst (λ u. Filed by' u d) ((eq_iff task t).0 b)
          (subst (λ u. Filed by' task u) (let k : c ≡ d = cc g in k) f)
    | inr b ↦ old t d (sym (lookup-put task t c clients ∙ (rw b refl)) ∙ e)
  ]

  shared_client-own :
      (id : Identity) (c : C) (by : List (Identity × C)) → shared_client id ((id, c) ∷ by) ≡ some c
  unfolding shared_client
  shared_client-own id c by = rw (same_refl id) refl

  abbrev under : String → String → Identity
  under task provider = identity s construct task provider

  -- A new client, under the provider of the task or the local one.
  answer_new-AllFiled :
      (task provider : String) (c : C) (r : ModelRouter C W)
      → (provider ≡ effective_provider s task) ⊎ (provider ≡ "pearl")
      → shared_client (under task provider) r.by_identity ≡ none
      → AllFiled r
      → AllFiled (answer_new s construct task (under task provider) c r).1
  answer_new-AllFiled task provider c r p n old =
      let by' = (under task provider, c) ∷ r.by_identity in
      let own = shared_client-own (under task provider) c r.by_identity in
      let filed : Filed by' task c = elim p [
        | inl e ↦ inl (subst (λ q. shared_client (under task q) by' ≡ some c) e own)
        | inr e ↦ inr (subst (λ q. shared_client (under task q) by' ≡ some c) e own)
      ] in
      put-AllFiled r.clients r.by_identity by' task c
        (λ t d e. Filed-new (under task provider) c d r.by_identity t n (old t d e)) filed

  settle_local-AllFiled :
      (task : String) (p : Built C × W) (r : ModelRouter C W)
      → shared_client (under task "pearl") r.by_identity ≡ none
      → AllFiled r
      → AllFiled (settle_local s construct task p r).1
  settle_local-AllFiled task (built c, w) r n old =
      answer_new-AllFiled task "pearl" c (record r { world = w }) (inr refl) n old
  settle_local-AllFiled task (raised x, w) r n old = old

  -- What a call comes to leaves the same router.
  via : (p q : Built C × ModelRouter C W) → p ≡ q → AllFiled q.1 → AllFiled p.1
  via p q e h = subst (λ o. AllFiled o.1) (sym e) h

  fall_back-AllFiled :
      (task : String) (r : ModelRouter C W) → AllFiled r → AllFiled (fall_back s construct task r).1
  unfolding fall_back
  fall_back-AllFiled task r old =
      let local = shared_client (under task "pearl") r.by_identity in
      let fresh = construct (build_request s task "pearl") r.world in
      elim (Option-cases local) [
        | inr (c, e) ↦
            via (fall_back s construct task r) (answer s construct task c r)
              (rw (e, fall_back) refl)
              (put-AllFiled r.clients r.by_identity r.by_identity task c old (inr e))
        | inl e ↦
            via (fall_back s construct task r) (settle_local s construct task fresh r)
              (rw (e, fall_back) refl) (settle_local-AllFiled task fresh r e old)
      ]

  settle-AllFiled :
      (task : String) (p : Built C × W) (r : ModelRouter C W)
      → shared_client (under task (effective_provider s task)) r.by_identity ≡ none
      → AllFiled r
      → AllFiled (settle s construct task (effective_provider s task) p r).1
  unfolding settle
  settle-AllFiled task (built c, w) r n old =
      answer_new-AllFiled task (effective_provider s task) c (record r { world = w }) (inl refl) n
        old
  settle-AllFiled task (raised x, w) r n old =
      let r' : ModelRouter C W = record r { world = w } in
      let here = settle s construct task (effective_provider s task) (raised x, w) r in
      elim (Bool-cases (may_fall_back s construct task (effective_provider s task))) [
        | inl b ↦
            via here (fall_back s construct task r') (rw b refl) (fall_back-AllFiled task r' old)
        | inr b ↦ via here (raised x, r') (rw b refl) old
      ]

  -- Every client that the router keeps for a task stays filed under the identity of the task, with its
  -- provider or with the local one.
  pub client_for-AllFiled :
      (task : String) (r : ModelRouter C W)
      → AllFiled r
      → AllFiled (client_for s construct task r).1
  unfolding client_for
  client_for-AllFiled task r old =
      let provider = effective_provider s task in
      let fresh = construct (build_request s task provider) r.world in
      let here = client_for s construct task r in
      elim (Option-cases (lookup task r.clients)) [
        | inr (c, e) ↦ via here (built c, r) (rw (e, client_for) refl) old
        | inl e ↦ elim (Option-cases (shared_client (under task provider) r.by_identity)) [
          | inr (c, f) ↦
              via here (answer s construct task c r) (rw (e, f, client_for) refl)
                (put-AllFiled r.clients r.by_identity r.by_identity task c old (inl f))
          | inl f ↦
              via here (settle s construct task provider fresh r) (rw (e, f, client_for) refl)
                (settle-AllFiled task fresh r f old)
        ]
      ]
