-- ===== src/Plan/Validator/Dependencies/References.antt =====
-- A plan that the validator accepts can be ordered, with every reference in it.
use pearl_ai.Plan.Graph.{topological_sort, Sorted, cycle, sorted}
use pearl_ai.Plan.Validator.Dependencies.{
  validate_dependencies, is_own, collect_ids, DependencyError, cycle_errors, dependency_errors,
  depends_on_itself, reference_errors, unknown_step_id,
}
use pearl_ai.Plan.{ToolCall}
use pearl_ai.Base.{
  String, lookup, Bool, Dict, List, Option-cases, [], any, eq_iff, inl, inr, refl, some, true, ℕ,
  ◌∷◌, ◌≡◌, ◌⊎◌, All, Bool-cases, Option, ap, arith, false, is_empty, lookup-put, none, put, str_eq,
  sym, ◌++◌, ◌+◌, ◌∙◌, ◌≢◌, is_empty-nil,
}

-- Some step of the plan has the id.
abbrev pub is_id : List ToolCall → String → Bool
is_id steps dep = any (λ (s : ToolCall). is_own dep s.step_id) steps

is_own_same : (id : String) → is_own id (some id) ≡ true
is_own_same id = (eq_iff id id).1 refl

nil_left : (xs ys : List DependencyError) → xs ++ ys ≡ [] → xs ≡ []
nil_left [] ys h = refl
nil_left (x ∷ xs) ys h = cc h

nil_right : (xs ys : List DependencyError) → xs ++ ys ≡ [] → ys ≡ []
nil_right [] ys h = h
nil_right (x ∷ xs) ys h = cc h

-- Every id of the map is in the map before or is the id of a step.
abbrev Known : Dict ℕ → List ToolCall → Dict ℕ → Type 0
Known seen steps ids =
    (dep : String) (j : ℕ)
    → lookup dep ids ≡ some j
    → (is_id steps dep ≡ true) ⊎ ((k : ℕ) × (lookup dep seen ≡ some k))

collect_ids-none :
    (i : ℕ) (seen : Dict ℕ) (s : ToolCall) (steps : List ToolCall)
    → s.step_id ≡ none
    → collect_ids i seen (s ∷ steps) ≡ collect_ids (i + 1) seen steps
unfolding collect_ids
collect_ids-none i seen s steps f = rw (f, collect_ids) refl

collect_ids-new :
    (i : ℕ) (seen : Dict ℕ) (s : ToolCall) (steps : List ToolCall) (id : String)
    → s.step_id ≡ some id
    → lookup id seen ≡ none
    → collect_ids i seen (s ∷ steps) ≡ collect_ids (i + 1) (put id i seen) steps
unfolding collect_ids
collect_ids-new i seen s steps id f e = rw (f, collect_ids) (rw (e, collect_ids) refl)

collect_ids-again :
    (i : ℕ) (seen : Dict ℕ) (s : ToolCall) (steps : List ToolCall) (id : String) (first : ℕ)
    → s.step_id ≡ some id
    → lookup id seen ≡ some first
    → (collect_ids i seen (s ∷ steps)).1 ≡ (collect_ids (i + 1) seen steps).1
unfolding collect_ids
collect_ids-again i seen s steps id first f e = rw (f, collect_ids) (rw (e, collect_ids) refl)

-- A step more before the plan.
Known-cons :
    (seen : Dict ℕ) (s : ToolCall) (steps : List ToolCall) (ids : Dict ℕ)
    → Known seen steps ids
    → Known seen (s ∷ steps) ids
Known-cons seen s steps ids h dep j e = elim (h dep j e) [
  | inl b ↦ inl (ground arith)
  | inr k ↦ inr k
]

-- The id of the step itself.
Known-put :
    (seen : Dict ℕ) (s : ToolCall) (steps : List ToolCall) (ids : Dict ℕ) (id : String) (i : ℕ)
    → s.step_id ≡ some id
    → Known (put id i seen) steps ids
    → Known seen (s ∷ steps) ids
Known-put seen s steps ids id i f h dep j e = elim (h dep j e) [
  | inl b ↦ inl (ground arith)
  | inr (k, g) ↦ elim (Bool-cases (str_eq id dep)) [
    | inl b ↦ inl (rw f (rw ((eq_iff dep id).1 (sym ((eq_iff id dep).0 b))) refl))
    | inr b ↦
        let same : lookup dep (put id i seen) ≡ lookup dep seen =
          lookup-put id dep i seen ∙ (rw b refl) in
        inr (k, sym same ∙ g)
  ]
]

collect_ids-Known :
    (i : ℕ) (seen : Dict ℕ) (steps : List ToolCall) → Known seen steps (collect_ids i seen steps).1
collect_ids-Known i seen [] = unfold collect_ids in (λ dep j e. inr (j, e))
collect_ids-Known i seen (s ∷ steps) = elim (Option-cases s.step_id) [
  | inl f ↦
      rw (collect_ids-none i seen s steps f)
        (Known-cons seen s steps _ (collect_ids-Known (i + 1) seen steps))
  | inr (id, f) ↦ elim (Option-cases (lookup id seen)) [
    | inl e ↦
        rw (collect_ids-new i seen s steps id f e)
          (Known-put seen s steps _ id i f (collect_ids-Known (i + 1) (put id i seen) steps))
    | inr (first, e) ↦
        rw (collect_ids-again i seen s steps id first f e)
          (Known-cons seen s steps _ (collect_ids-Known (i + 1) seen steps))
  ]
]

-- What a reference of an accepted plan is.
abbrev Refers : Dict ℕ → Option String → String → Type 0
Refers seen id dep = (is_own dep id ≡ false) × ((j : ℕ) × (lookup dep seen ≡ some j))

dependency_errors-Refers :
    (seen : Dict ℕ) (i : ℕ) (id : Option String) (deps : List String)
    → dependency_errors seen i id deps ≡ []
    → All (Refers seen id) deps
unfolding dependency_errors
dependency_errors-Refers seen i id [] h = tt
dependency_errors-Refers seen i id (dep ∷ deps) h = elim (Bool-cases (is_own dep id)) [
  | inl b ↦
      let g : depends_on_itself i ∷ dependency_errors seen i id deps ≡ [] =
        (rw (b, dependency_errors) at h) in
      cc g
  | inr b ↦ elim (Option-cases (lookup dep seen)) [
    | inl e ↦
        let g : unknown_step_id i dep ∷ dependency_errors seen i id deps ≡ [] =
          (rw (b, e, dependency_errors) at h) in
        cc g
    | inr (j, e) ↦
        ((b, (j, e)), dependency_errors-Refers seen i id deps (rw (b, e, dependency_errors) at h))
  ]
]

-- Every reference of every step names another step of the plan.
abbrev pub References : List ToolCall → List ToolCall → Type 0
References plan = All (λ (s : ToolCall).
    All (λ dep. (is_own dep s.step_id ≡ false) × (is_id plan dep ≡ true)) s.depends_on)

All-map {ℓ κ μ} :
    {A : Type ℓ} (P : A → Type κ) (Q : A → Type μ) (xs : List A)
    → ((x : A) → P x → Q x)
    → All P xs
    → All Q xs
All-map P Q [] f h = tt
All-map P Q (x ∷ xs) f h = (f x h.0, All-map P Q xs f h.1)

reference_errors-References :
    (plan : List ToolCall) (seen : Dict ℕ) (i : ℕ) (steps : List ToolCall)
    → ((dep : String) (j : ℕ) → lookup dep seen ≡ some j → is_id plan dep ≡ true)
    → reference_errors seen i steps ≡ []
    → References plan steps
unfolding reference_errors
reference_errors-References plan seen i [] k h = tt
reference_errors-References plan seen i (s ∷ steps) k h =
    let own = dependency_errors seen i s.step_id s.depends_on in
    let rest = reference_errors seen (i + 1) steps in
    (
      All-map (Refers seen s.step_id) _ s.depends_on (λ dep r. (r.0, k dep r.1.0 r.1.1))
          (dependency_errors-Refers seen i s.step_id s.depends_on (nil_left own rest h)),
      reference_errors-References plan seen (i + 1) steps k (nil_right own rest h),
    )

cycle_errors-sorted :
    (o : Option Sorted) → cycle_errors o ≡ some [] → (out : List ToolCall) × (o ≡ some (sorted out))
unfolding cycle_errors
cycle_errors-sorted none h = cc h
cycle_errors-sorted (some (sorted steps)) h = (steps, refl)
cycle_errors-sorted (some (cycle a b)) h = cc h

no_errors :
    (steps : List ToolCall)
    → is_empty ((collect_ids 1 [] steps).0 ++ reference_errors (collect_ids 1 [] steps).1 1 steps)
      ≡ false
    → validate_dependencies steps ≢ some []
unfolding validate_dependencies
no_errors steps b h =
    let errors =
      (collect_ids 1 [] steps).0 ++ reference_errors (collect_ids 1 [] steps).1 1 steps in
    let g : some errors ≡ some [] = (rw (b, validate_dependencies) at h) in
    let f : errors ≡ [] = cc in let e : true ≡ false = ap is_empty (sym f) ∙ b in cc e

-- A plan whose dependencies the validator accepts can be sorted, and every reference of every step in it
-- names a step of the plan by an id that is not the step's own.
pub validate_dependencies-References :
    (steps : List ToolCall)
    → validate_dependencies steps ≡ some []
    → References steps steps
      × ((out : List ToolCall) × (topological_sort steps ≡ some (sorted out)))
unfolding validate_dependencies
validate_dependencies-References steps h =
    let found = collect_ids 1 [] steps in
    let errors = found.0 ++ reference_errors found.1 1 steps in
    elim (Bool-cases (is_empty errors)) [
      | inr b ↦ absurd (no_errors steps b h)
      | inl b ↦
          let clear =
            nil_right found.0 (reference_errors found.1 1 steps) (is_empty-nil errors b) in
          (
            reference_errors-References steps found.1 1 steps
                (λ dep j e. elim (collect_ids-Known 1 [] steps dep j e) [
                  | inl k ↦ k
                  | inr (k, none_yet) ↦ (unfold lookup in cc none_yet)
                ])
                clear,
            cycle_errors-sorted (topological_sort steps) (rw (b, validate_dependencies) at h),
          )
    ]
