-- ===== src/Planner/Ids.antt =====
-- The positions of a plan and the ids of its steps.
use pearl_ai.Plan.Graph.{index_ids, pick}
use pearl_ai.Plan.Graph.Build.{at, known_dependencies}
use pearl_ai.Plan.Validator.Dependencies.{is_own}
use pearl_ai.Plan.Validator.Dependencies.References.{is_id}
use pearl_ai.Plan.{ToolCall}
use pearl_ai.Base.{
  String, ℕ, Bool, true, List, [], ◌∷◌, ◌++◌, ◌+◌, ◌<◌, Option, none, some, Dict, lookup, put,
  lookup-put, str_eq, eq_iff, any, count, get_elem?, ◌≡◌, ◌⊎◌, inl, inr, refl, sym, ◌∙◌, ap, arith,
  Option-cases, Bool-cases, suc, zero, ◌==◌,
}

-- The step at a position has the id.
abbrev pub HasId : List ToolCall → ℕ → String → Type 0
HasId steps d dep = (s : ToolCall) × (get_elem? steps d ≡ some s) × (s.step_id ≡ some dep)

kept :
    (i : ℕ) (steps : List ToolCall) (ids : Dict ℕ) (dep : String) (j : ℕ)
    → lookup dep ids ≡ some j
    → (d : ℕ) × (lookup dep (index_ids i steps ids) ≡ some d)
unfolding index_ids
kept i [] ids dep j e = (j, e)
kept i (s ∷ steps) ids dep j e = elim (Option-cases s.step_id) [
  | inl f ↦ rw f (kept (i + 1) steps ids dep j e)
  | inr (id, f) ↦ rw f (elim (Bool-cases (str_eq id dep)) [
    | inl b ↦ kept (i + 1) steps (put id i ids) dep i (lookup-put id dep i ids ∙ (rw b refl))
    | inr b ↦ kept (i + 1) steps (put id i ids) dep j (lookup-put id dep i ids ∙ (rw b e))
  ])
]

is_own-some : (dep : String) (o : Option String) → is_own dep o ≡ true → o ≡ some dep
is_own-some dep none h = cc h
is_own-some dep (some id) h = ap some (sym ((eq_iff dep id).0 h))

pub found :
    (i : ℕ) (steps : List ToolCall) (ids : Dict ℕ) (dep : String)
    → is_id steps dep ≡ true
    → (d : ℕ) × (lookup dep (index_ids i steps ids) ≡ some d)
unfolding index_ids
found i [] ids dep h = cc h
found i (s ∷ steps) ids dep h = elim (Bool-cases (is_own dep s.step_id)) [
  | inl b ↦
      let e = is_own-some dep s.step_id b in
      rw e (
        kept (i + 1) steps (put dep i ids) dep i
          (lookup-put dep dep i ids ∙ (rw ((eq_iff dep dep).1 refl) refl)))
  | inr b ↦
      found (i + 1) steps (elim s.step_id [ none ↦ ids | some id ↦ put id i ids ]) dep (rw b at h)
]

-- A position in the map has the id, unless it was in the map before.
pub named :
    (i : ℕ) (steps : List ToolCall) (ids : Dict ℕ) (dep : String) (d : ℕ)
    → lookup dep (index_ids i steps ids) ≡ some d
    → (lookup dep ids ≡ some d) ⊎ ((k : ℕ) × (d ≡ i + k) × HasId steps k dep)
unfolding index_ids
named i [] ids dep d e = inl e
named i (s ∷ steps) ids dep d e = elim (Option-cases s.step_id) [
  | inl f ↦ later (named (i + 1) steps ids dep d (rw f at e))
  | inr (id, f) ↦ elim (named (i + 1) steps (put id i ids) dep d (rw f at e)) [
    | inr found ↦ later (inr found)
    | inl g ↦ elim (Bool-cases (str_eq id dep)) [
      | inl b ↦
          let same : some i ≡ some d = sym (lookup-put id dep i ids ∙ (rw b refl)) ∙ g in
          let is : i ≡ d = cc same in
          inr (zero, (omega arith), (s, refl, f ∙ ap some ((eq_iff id dep).0 b)))
      | inr b ↦ inl (sym (lookup-put id dep i ids ∙ (rw b refl)) ∙ g)
    ]
  ]
]
  where
    later :
        (lookup dep ids ≡ some d) ⊎ ((k : ℕ) × (d ≡ i + 1 + k) × HasId steps k dep)
        → (lookup dep ids ≡ some d) ⊎ ((k : ℕ) × (d ≡ i + k) × HasId (s ∷ steps) k dep)
    later (inl g) = inl g
    later (inr (k, p, has)) = inr (suc k, omega (arith, p), has)

pub at-get_elem? :
    (ids : Dict ℕ) (steps : List ToolCall) (i : ℕ) (s : ToolCall)
    → get_elem? steps i ≡ some s
    → at ids steps i ≡ known_dependencies ids s.depends_on
unfolding at
at-get_elem? ids [] i s e = cc e
at-get_elem? ids (t ∷ steps) zero s e = let f : t ≡ s = cc e in rw f refl
at-get_elem? ids (t ∷ steps) (suc i) s e = at-get_elem? ids steps i s e

any-get_elem? :
    (p : ToolCall → Bool) (steps : List ToolCall) (i : ℕ) (s : ToolCall)
    → get_elem? steps i ≡ some s
    → p s ≡ true
    → any p steps ≡ true
any-get_elem? p [] i s e h = cc e
any-get_elem? p (t ∷ steps) zero s e h = let f : t ≡ s = cc e in rw (f, h) refl
any-get_elem? p (t ∷ steps) (suc i) s e h = ground (arith, any-get_elem? p steps i s e h)

pub pick-none :
    (steps : List ToolCall) (i : ℕ) (is : List ℕ)
    → get_elem? steps i ≡ none
    → pick steps (i ∷ is) ≡ pick steps is
unfolding pick
pick-none steps i is e = rw (e, pick) refl

pub pick-some :
    (steps : List ToolCall) (i : ℕ) (is : List ℕ) (s : ToolCall)
    → get_elem? steps i ≡ some s
    → pick steps (i ∷ is) ≡ s ∷ pick steps is
unfolding pick
pick-some steps i is s e = rw (e, pick) refl

-- An id of the steps that are picked is an id of a step.
pub is_id-pick :
    (steps : List ToolCall) (is : List ℕ) (dep : String)
    → is_id (pick steps is) dep ≡ true
    → is_id steps dep ≡ true
unfolding pick
is_id-pick steps [] dep h = cc h
is_id-pick steps (i ∷ is) dep h = elim (Option-cases (get_elem? steps i)) [
  | inl e ↦ is_id-pick steps is dep (rw (pick-none steps i is e) at h)
  | inr (s, e) ↦ elim (Bool-cases (is_own dep s.step_id)) [
    | inl b ↦ any-get_elem? (λ (t : ToolCall). is_own dep t.step_id) steps i s e b
    | inr b ↦ is_id-pick steps is dep (rw (pick-some steps i is s e, b) at h)
  ]
]

-- A position that is picked brings its id.
pub pick-is_id :
    (steps : List ToolCall) (is : List ℕ) (d : ℕ) (dep : String)
    → HasId steps d dep
    → 0 < count d is
    → is_id (pick steps is) dep ≡ true
pick-is_id steps [] d dep has c = absurd (omega (arith, c))
pick-is_id steps (i ∷ is) d dep (s, e, f) c = elim (Bool-cases (i == d)) [
  | inl b ↦
      let same : i ≡ d = ground arith in
      rw (pick-some steps i is s (ap (get_elem? steps) same ∙ e), f, (eq_iff dep dep).1 refl) refl
  | inr b ↦
      let more = pick-is_id steps is d dep (s, e, f) (ground arith) in
      elim (Option-cases (get_elem? steps i)) [
        | inl g ↦ rw (pick-none steps i is g) more
        | inr (t, g) ↦ rw (pick-some steps i is t g) (ground arith)
      ]
]

pub pick-append :
    (steps : List ToolCall) (is js : List ℕ)
    → pick steps (is ++ js) ≡ pick steps is ++ pick steps js
unfolding pick
pick-append steps [] js = refl
pick-append steps (i ∷ is) js = elim (Option-cases (get_elem? steps i)) [
  | inl e ↦ rw (pick-none steps i (is ++ js) e, pick-none steps i is e) (pick-append steps is js)
  | inr (s, e) ↦
      rw (pick-some steps i (is ++ js) s e, pick-some steps i is s e)
        (ap (s ∷◌) (pick-append steps is js))
]
