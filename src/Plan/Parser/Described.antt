-- ===== src/Plan/Parser/Described.antt =====
-- Which responses ToolParser reads as a plan, and as what plan.
use pearl_ai.Plan.{ToolCall}
use pearl_ai.Plan.Parser.{
  read_tool, read_arguments, read_id, read_depends_on, read_entries, Parsed, parsed, failed, ◌>>=◌,
  kwargs_of, parse_fields, parse_payload, parse_plan, parse_step, parse_steps, read_steps,
}
use pearl_ai.Sessions.Values.{Json, Items, Members, find}
use pearl_ai.Base.{
  String, List, [], ◌∷◌, Option, none, some, ◌≡◌, ◌⊎◌, inl, inr, refl, ap, ◌∙◌, subst, ℕ, ◌+◌, ◌↔◌,
  ◌≢◌,
}

abbrev pub texts : List String → Items
texts [] = Items.nil
texts (d ∷ ds) = Items.item (Json.text d) (texts ds)

-- The fields of a step say this tool, these arguments, this id and these references.
pub record Describes (step : Members) (name : String) (arguments : Members) (id : Option String)
    (deps : List String) : Type 0 where
  pub tool : find "tool" step ≡ some (Json.text name)
  pub given :
      ((find "arguments" step ≡ none) × (arguments ≡ Members.end))
      ⊎ (find "arguments" step ≡ some (Json.object arguments))
  pub named :
      ((id ≡ none) × ((find "id" step ≡ none) ⊎ (find "id" step ≡ some Json.null)))
      ⊎ ((s : String) × (id ≡ some s) × (find "id" step ≡ some (Json.text s)))
  pub waits :
      ((find "depends_on" step ≡ none) × (deps ≡ []))
      ⊎ (find "depends_on" step ≡ some (Json.array (texts deps)))

bind_inv {ℓ κ} :
    {A : Type ℓ} {B : Type κ} (m : Parsed A) (f : A → Parsed B) (b : B)
    → (m >>= f) ≡ parsed b
    → (a : A) × (m ≡ parsed a) × (f a ≡ parsed b)
bind_inv (parsed a) f b h = (a, refl, h)
bind_inv (failed e) f b h = cc h

read_tool-text :
    (raw : String) (o : Option Json) (name : String)
    → read_tool raw o ≡ parsed name
    → o ≡ some (Json.text name)
unfolding read_tool
read_tool-text raw none name h = cc h
read_tool-text raw (some (Json.text s)) name h = cc h
read_tool-text raw (some other) name h = cc h

read_arguments-object :
    (raw : String) (o : Option Json) (arguments : Members)
    → read_arguments raw o ≡ parsed arguments
    → ((o ≡ none) × (arguments ≡ Members.end)) ⊎ (o ≡ some (Json.object arguments))
unfolding read_arguments
read_arguments-object raw none arguments h = inl (refl, cc h)
read_arguments-object raw (some (Json.object ms)) arguments h = inr (cc h)
read_arguments-object raw (some other) arguments h = cc h

read_id-text :
    (raw : String) (o : Option Json) (id : Option String)
    → read_id raw o ≡ parsed id
    → ((id ≡ none) × ((o ≡ none) ⊎ (o ≡ some Json.null)))
      ⊎ ((s : String) × (id ≡ some s) × (o ≡ some (Json.text s)))
unfolding read_id
read_id-text raw none id h = inl (cc h, inl refl)
read_id-text raw (some Json.null) id h = inl (cc h, inr refl)
read_id-text raw (some (Json.text s)) id h = inr (s, cc h, refl)
read_id-text raw (some other) id h = cc h

read_entries-texts :
    (raw : String) (entries : Items) (deps : List String)
    → read_entries raw entries ≡ parsed deps
    → entries ≡ texts deps
unfolding read_entries
read_entries-texts raw Items.nil deps h = let e : [] ≡ deps = cc h in ap texts e
read_entries-texts raw (Items.item (Json.text s) entries) deps h =
    let (ds, read, out) = bind_inv (read_entries raw entries) _ deps h in
    let e : s ∷ ds ≡ deps = cc out in
    ap (λ xs. Items.item (Json.text s) xs) (read_entries-texts raw entries ds read) ∙ ap texts e
read_entries-texts raw (Items.item other entries) deps h = cc h

texts-read : (raw : String) (deps : List String) → read_entries raw (texts deps) ≡ parsed deps
unfolding read_entries
texts-read raw [] = refl
texts-read raw (d ∷ ds) = rw (texts-read raw ds) refl

read_depends_on-texts :
    (raw : String) (o : Option Json) (deps : List String)
    → read_depends_on raw o ≡ parsed deps
    → ((o ≡ none) × (deps ≡ [])) ⊎ (o ≡ some (Json.array (texts deps)))
unfolding read_depends_on
read_depends_on-texts raw none deps h = inl (refl, cc h)
read_depends_on-texts raw (some (Json.array xs)) deps h =
    inr (ap (λ ys. some (Json.array ys)) (read_entries-texts raw xs deps h))
read_depends_on-texts raw (some other) deps h = cc h

module _ (shown : Json → String) where
  -- The call is what the fields of the step describe, as a new object.
  pub record IsCall (new : ℕ) (step : Members) (call : ToolCall) : Type 0 where
    pub arguments : Members
    pub describes : Describes step call.tool_name arguments call.step_id call.depends_on
    pub kwargs : call.kwargs ≡ kwargs_of shown arguments
    pub args : call.args ≡ []
    pub object_id : call.object_id ≡ new

  abbrev made : ℕ → String → Members → Option String → List String → ToolCall
  made new name arguments id deps = record {
    object_id = new;
    tool_name = name;
    args = [];
    kwargs = kwargs_of shown arguments;
    step_id = id;
    depends_on = deps;
  }

  parse_fields-IsCall :
      (new : ℕ) (raw : String) (step : Members) (call : ToolCall)
      → parse_fields shown new raw step ≡ parsed call
      → IsCall new step call
  unfolding parse_fields
  parse_fields-IsCall new raw step call h =
      let (name, e1, h1) = bind_inv (read_tool raw (find "tool" step)) _ call h in
      let (arguments, e2, h2) = bind_inv (read_arguments raw (find "arguments" step)) _ call h1 in
      let (id, e3, h3) = bind_inv (read_id raw (find "id" step)) _ call h2 in
      let (deps, e4, h4) = bind_inv (read_depends_on raw (find "depends_on" step)) _ call h3 in
      let e : made new name arguments id deps ≡ call = cc h4 in
      subst (IsCall new step) e (record {
        arguments = arguments;
        describes = record {
          tool = read_tool-text raw _ name e1;
          given = read_arguments-object raw _ arguments e2;
          named = read_id-text raw _ id e3;
          waits = read_depends_on-texts raw _ deps e4;
        };
        kwargs = refl;
        args = refl;
        object_id = refl;
      })

  given_read :
      (raw : String) (o : Option Json) (arguments : Members)
      → ((o ≡ none) × (arguments ≡ Members.end)) ⊎ (o ≡ some (Json.object arguments))
      → read_arguments raw o ≡ parsed arguments
  unfolding read_arguments
  given_read raw o arguments (inl (e, f)) = rw (e, f) refl
  given_read raw o arguments (inr e) = rw e refl

  named_read :
      (raw : String) (o : Option Json) (id : Option String)
      → ((id ≡ none) × ((o ≡ none) ⊎ (o ≡ some Json.null)))
        ⊎ ((s : String) × (id ≡ some s) × (o ≡ some (Json.text s)))
      → read_id raw o ≡ parsed id
  unfolding read_id
  named_read raw o id (inl (e, inl f)) = rw (e, f) refl
  named_read raw o id (inl (e, inr f)) = rw (e, f) refl
  named_read raw o id (inr (s, e, f)) = rw (e, f) refl

  waits_read :
      (raw : String) (o : Option Json) (deps : List String)
      → ((o ≡ none) × (deps ≡ [])) ⊎ (o ≡ some (Json.array (texts deps)))
      → read_depends_on raw o ≡ parsed deps
  unfolding read_depends_on
  waits_read raw o deps (inl (e, f)) = rw (e, f) refl
  waits_read raw o deps (inr e) = rw e (texts-read raw deps)

  IsCall-parse_fields :
      (new : ℕ) (raw : String) (step : Members) (call : ToolCall)
      → IsCall new step call
      → parse_fields shown new raw step ≡ parsed call
  unfolding parse_fields read_tool
  IsCall-parse_fields new raw step call c =
      let d = c.describes in
      rw
        (
          d.tool,
          given_read raw _ c.arguments d.given,
          named_read raw _ call.step_id d.named,
          waits_read raw _ call.depends_on d.waits,
        )
        (cc (c.kwargs, c.args, c.object_id))

  -- The items are steps, and the calls are what they describe, in order and numbered from `new`.
  abbrev pub AreCalls : ℕ → Items → List ToolCall → Type 0
  AreCalls new Items.nil [] = Unit {0}
  AreCalls new Items.nil (call ∷ calls) = ⊥
  AreCalls new (Items.item j items) [] = ⊥
  AreCalls new (Items.item j items) (call ∷ calls) =
      ((step : Members) × (j ≡ Json.object step) × IsCall new step call)
      × AreCalls (new + 1) items calls

  parse_step-object :
      (new : ℕ) (raw : String) (j : Json) (call : ToolCall)
      → parse_step shown new raw j ≡ parsed call
      → (step : Members) × (j ≡ Json.object step) × IsCall new step call
  unfolding parse_step
  parse_step-object new raw (Json.object step) call h =
      (step, refl, parse_fields-IsCall new raw step call h)
  parse_step-object new raw other call h = cc h

  parse_steps-AreCalls :
      (new : ℕ) (raw : String) (items : Items) (calls : List ToolCall)
      → parse_steps shown new raw items ≡ parsed calls
      → AreCalls new items calls
  unfolding parse_steps
  parse_steps-AreCalls new raw Items.nil calls h =
      let e : [] ≡ calls = cc h in subst (AreCalls new Items.nil) e tt
  parse_steps-AreCalls new raw (Items.item j items) calls h =
      let (call, e1, h1) = bind_inv (parse_step shown new raw j) _ calls h in
      let (rest, e2, h2) = bind_inv (parse_steps shown (new + 1) raw items) _ calls h1 in
      let e : call ∷ rest ≡ calls = cc h2 in
      subst (AreCalls new (Items.item j items)) e
        (parse_step-object new raw j call e1, parse_steps-AreCalls (new + 1) raw items rest e2)

  AreCalls-parse_steps :
      (new : ℕ) (raw : String) (items : Items) (calls : List ToolCall)
      → AreCalls new items calls
      → parse_steps shown new raw items ≡ parsed calls
  unfolding parse_steps parse_step
  AreCalls-parse_steps new raw Items.nil [] h = refl
  AreCalls-parse_steps new raw Items.nil (call ∷ calls) h = absurd h
  AreCalls-parse_steps new raw (Items.item j items) [] h = absurd h
  AreCalls-parse_steps new raw (Items.item j items) (call ∷ calls) ((step, e, c), rest) =
      rw
        (
          e,
          IsCall-parse_fields new raw step call c,
          AreCalls-parse_steps (new + 1) raw items calls rest,
        )
        refl

  read_steps-array :
      (new : ℕ) (raw : String) (o : Option Json) (calls : List ToolCall)
      → read_steps shown new raw o ≡ parsed calls
      → (items : Items) × (o ≡ some (Json.array items)) × AreCalls new items calls × (calls ≢ [])
  unfolding read_steps
  read_steps-array new raw none calls h = cc h
  read_steps-array new raw (some (Json.array Items.nil)) calls h = cc h
  read_steps-array new raw (some (Json.array (Items.item j items))) calls h =
      let read = parse_steps-AreCalls new raw (Items.item j items) calls h in
      (Items.item j items, refl, read, λ e. subst (AreCalls new (Items.item j items)) e read)
  read_steps-array new raw (some other) calls h = cc h

  array-read_steps :
      (new : ℕ) (raw : String) (items : Items) (calls : List ToolCall)
      → AreCalls new items calls
      → calls ≢ []
      → read_steps shown new raw (some (Json.array items)) ≡ parsed calls
  unfolding read_steps
  array-read_steps new raw Items.nil [] h ne = absurd (ne refl)
  array-read_steps new raw Items.nil (call ∷ calls) h ne = absurd h
  array-read_steps new raw (Items.item j items) calls h ne =
      AreCalls-parse_steps new raw (Items.item j items) calls h

  module _ (loads : String → Option Json) where
    -- The response is an object with an array of steps that describe the calls, of which there is one at
    -- least.
    pub record IsPlan (new : ℕ) (response : String) (calls : List ToolCall) : Type 0 where
      pub payload : Members
      pub items : Items
      pub loaded : loads response ≡ some (Json.object payload)
      pub steps : find "steps" payload ≡ some (Json.array items)
      pub are_calls : AreCalls new items calls
      pub some_call : calls ≢ []

    parse_payload-IsPlan :
        (new : ℕ) (response : String) (o : Option Json) (calls : List ToolCall)
        → loads response ≡ o
        → parse_payload shown new response o ≡ parsed calls
        → IsPlan new response calls
    unfolding parse_payload
    parse_payload-IsPlan new response none calls e h = cc h
    parse_payload-IsPlan new response (some (Json.object payload)) calls e h =
        let (items, s, are, ne) = read_steps-array new response _ calls h in
        record {
          payload = payload;
          items = items;
          loaded = e;
          steps = s;
          are_calls = are;
          some_call = ne;
        }
    parse_payload-IsPlan new response (some other) calls e h = cc h

    -- A plan is read from a response exactly when the response is an object whose `steps` are an array of
    -- objects, one at least, and the calls are what these describe, in their order: the tool's name, the
    -- arguments, or none where the key is missing, the id unless it is missing or null, and the references.
    pub parse_plan-IsPlan_iff :
        (new : ℕ) (response : String) (calls : List ToolCall)
        → (parse_plan shown loads new response ≡ parsed calls) ↔ IsPlan new response calls
    unfolding parse_plan parse_payload
    parse_plan-IsPlan_iff new response calls = (
      λ h. parse_payload-IsPlan new response (loads response) calls refl h,
      λ p.
          rw (p.loaded, p.steps)
            (array-read_steps new response p.items calls p.are_calls p.some_call),
    )
