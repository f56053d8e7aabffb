-- ===== src/Planner/Order.antt =====
-- The order of a plan by its ids: a step that refers to another one comes behind it.
use pearl_ai.Plan.Graph.Order.{
  topological_sort-Ordering, in_order, deadlock, dependencies, unannotated,
}
use pearl_ai.Plan.Graph.{index_ids, pick, cycle, is_annotated, sorted, topological_sort}
use pearl_ai.Plan.Graph.Build.{known_dependencies, known-take}
use pearl_ai.Plan.Graph.Kahn.{IsComplete, Respects}
use pearl_ai.Plan.Validator.Dependencies.{is_own}
use pearl_ai.Plan.Validator.Dependencies.References.{is_id, References}
use pearl_ai.Plan.{ToolCall}
use mathlib.Core.List.{append-nil}
use pearl_ai.Base.{
  String, ℕ, true, List, [], ◌∷◌, ◌++◌, ◌<◌, Option, some, lookup, any, All, count, get_elem?, ◌≡◌,
  ◌⊎◌, inl, inr, sym, ◌∙◌, ap, arith, Option-cases, Bool-cases, length, false, subst,
}
use pearl_ai.Planner.Ids.{
  named, found, at-get_elem?, pick-none, pick-some, is_id-pick, pick-is_id, pick-append,
}

-- Every reference of every step names a step in front of it; `front` is what comes before the list.
abbrev pub InOrder : List ToolCall → List ToolCall → Type 0
InOrder front [] = Unit {0}
InOrder front (s ∷ ss) =
    All (λ dep. is_id front dep ≡ true) s.depends_on × InOrder (front ++ s ∷ []) ss

-- The steps are those of the plan, as they stand or in an order that holds each position once.
abbrev pub Arranged : List ToolCall → List ToolCall → Type 0
Arranged calls steps =
    (steps ≡ calls)
    ⊎ ((order : List ℕ) × IsComplete (length calls) order × (steps ≡ pick calls order))

-- The references of a step stand in the picked steps when its dependencies do.
behind :
    (steps : List ToolCall) (seen : List ℕ) (deps : List String) (own : Option String)
    → ((d : ℕ) → 0 < count d (known_dependencies (index_ids 0 steps []) deps) → 0 < count d seen)
    → All (λ dep. (is_own dep own ≡ false) × (is_id steps dep ≡ true)) deps
    → All (λ dep. is_id (pick steps seen) dep ≡ true) deps
behind steps seen [] own h r = tt
behind steps seen (dep ∷ deps) own h r =
    let (d, e) = found 0 steps [] dep r.0.1 in
    let taken = known-take (index_ids 0 steps []) dep deps d e in
    let here : 0 < count d seen = h d (subst (λ xs. 0 < count d xs) (sym taken) (ground arith)) in
    (
      elim (named 0 steps [] dep d e) [
        | inl g ↦ (unfold lookup in cc g)
        | inr (k, p, has) ↦
            let same : d ≡ k = omega (arith, p) in
            pick-is_id steps seen k dep has (subst (λ n. 0 < count n seen) same here)
      ],
      behind steps seen deps own
          (λ k c. h k (subst (λ xs. 0 < count k xs) (sym taken) (ground (arith, c)))) r.1,
    )

-- The references of the steps name steps of the plan that was sorted.
abbrev Refer : List ToolCall → List ToolCall → Type 0
Refer plan = All (λ (s : ToolCall).
    All (λ dep. (is_own dep s.step_id ≡ false) × (is_id plan dep ≡ true)) s.depends_on)

pick-InOrder :
    (steps : List ToolCall) (seen order : List ℕ)
    → Respects (dependencies steps) seen order
    → Refer steps (pick steps order)
    → InOrder (pick steps seen) (pick steps order)
unfolding pick
pick-InOrder steps seen [] r refer = tt
pick-InOrder steps seen (i ∷ is) r refer = elim (Option-cases (get_elem? steps i)) [
  | inl e ↦
      let more =
        pick-InOrder steps (seen ++ i ∷ []) is r.1 (rw (pick-none steps i is e) at refer) in
      let f : pick steps (seen ++ i ∷ []) ≡ pick steps seen =
        pick-append steps seen (i ∷ [])
        ∙ ap (pick steps seen ++◌) (pick-none steps i [] e)
        ∙ append-nil (pick steps seen) in
      rw (pick-none steps i is e) (subst (λ front. InOrder front (pick steps is)) f more)
  | inr (s, e) ↦
      let refer' : Refer steps (s ∷ pick steps is) = rw (pick-some steps i is s e) at refer in
      let more = pick-InOrder steps (seen ++ i ∷ []) is r.1 refer'.1 in
      let f : pick steps (seen ++ i ∷ []) ≡ pick steps seen ++ s ∷ [] =
        pick-append steps seen (i ∷ []) ∙ ap (pick steps seen ++◌) (pick-some steps i [] s e) in
      let deps = at-get_elem? (index_ids 0 steps []) steps i s e in
      rw (pick-some steps i is s e) (
        behind steps seen s.depends_on s.step_id
            (λ d c. r.0 d (subst (λ xs. 0 < count d xs) (sym deps) c)) refer'.0,
        subst (λ front. InOrder front (pick steps is)) f more,
      )
]

-- References to picked steps are references to steps.
Refer-pick :
    (steps : List ToolCall) (order : List ℕ) (ss : List ToolCall)
    → Refer (pick steps order) ss
    → Refer steps ss
Refer-pick steps order [] h = tt
Refer-pick steps order (s ∷ ss) h = (wider s.depends_on h.0, Refer-pick steps order ss h.1)
  where
    wider :
        (deps : List String)
        → All (λ dep. (is_own dep s.step_id ≡ false) × (is_id (pick steps order) dep ≡ true)) deps
        → All (λ dep. (is_own dep s.step_id ≡ false) × (is_id steps dep ≡ true)) deps
    wider [] h = tt
    wider (dep ∷ deps) h = ((h.0.0, is_id-pick steps order dep h.0.1), wider deps h.1)

unannotated-free : (s : ToolCall) → is_annotated s ≡ false → s.depends_on ≡ []
unfolding is_annotated
unannotated-free s h = elim (Option-cases s.step_id) [
  | inr (id, e) ↦ let g : true ≡ false = rw (e, is_annotated) at h in cc g
  | inl e ↦ ground (arith, e, h)
]

-- With no annotation there is no reference.
unannotated-InOrder :
    (front steps : List ToolCall) → any is_annotated steps ≡ false → InOrder front steps
unannotated-InOrder front [] h = tt
unannotated-InOrder front (s ∷ ss) h = (
  rw (unannotated-free s (ground arith)) tt,
  unannotated-InOrder (front ++ s ∷ []) ss (ground arith),
)

sorted_inj : (xs ys : List ToolCall) → some (sorted xs) ≡ some (sorted ys) → xs ≡ ys
sorted_inj xs ys h = cc h

-- A sorted plan whose references name steps of it is in order.
pub topological_sort-InOrder :
    (calls steps : List ToolCall)
    → topological_sort calls ≡ some (sorted steps)
    → (any is_annotated steps ≡ true → References steps steps)
    → InOrder [] steps × Arranged calls steps
topological_sort-InOrder calls steps h refs = elim (topological_sort-Ordering calls) [
  | unannotated b e ↦
      let same = sorted_inj calls steps (sym e ∙ h) in
      (subst (InOrder []) same (unannotated-InOrder [] calls b), inl (sym same))
  | deadlock order e stuck ↦
      let g : some (cycle (length order) (length calls)) ≡ some (sorted steps) = sym e ∙ h in cc g
  | in_order order e complete respects ↦
      let same : pick calls order ≡ steps = sorted_inj _ _ (sym e ∙ h) in
      (
        elim (Bool-cases (any is_annotated steps)) [
          | inr b ↦ unannotated-InOrder [] steps b
          | inl b ↦
              let r : References (pick calls order) (pick calls order) =
                subst (λ xs. References xs xs) (sym same) (refs b) in
              subst (InOrder []) same
                ((unfold pick in pick-InOrder calls [] order respects (Refer-pick calls order _ r)))
        ],
        inr (order, complete, sym same),
      )
]
