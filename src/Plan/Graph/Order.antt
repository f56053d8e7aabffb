-- ===== src/Plan/Graph/Order.antt =====
-- The order of a plan: what topological_sort hands back, and when it reports a cycle.
use pearl_ai.Plan.Graph.{
  replicate, ready_from, index_ids, edges_of, degree, after, Edges, Sorted, check_order, cycle,
  is_annotated, pick, sorted, topological_sort,
}
use pearl_ai.Plan.{ToolCall}
use pearl_ai.Plan.Graph.Build.{
  at, Names, known-skip, known-take, known_dependencies, Sized, add_steps-Adds, index_ids-Names,
}
use pearl_ai.Plan.Graph.Kahn.{
  pending, Inv, Inv-IsComplete, Inv-IsStuck, IsComplete, IsStuck, Respects, kahn-Inv,
}
use pearl_ai.Plan.Graph.Release.{waiting}
use pearl_ai.Base.{
  String, count, All, Dict, List, Option-cases, [], arith, if◌then◌else◌, inl, inr, leb, length,
  lookup, ltb, refl, subst, suc, sym, zero, ℕ, ◌+◌, ◌-◌, ◌<◌, ◌==◌, ◌∷◌, ◌≡◌, ◌≤◌, Bool-cases, ap,
  false, ltb→le, true, ◌∙◌, Option, any, some, eqb→eq, eqb→ne,
}

length-replicate {ℓ} : {A : Type ℓ} (n : ℕ) (x : A) → length (replicate n x) ≡ n
length-replicate zero x = refl
length-replicate (suc n) x = omega (arith, length-replicate n x)

after-replicate : (n d : ℕ) → after (replicate n []) d ≡ []
after-replicate zero d = refl
after-replicate (suc n) zero = refl
after-replicate (suc n) (suc d) = after-replicate n d

degree-replicate : (n j : ℕ) → degree (replicate n 0) j ≡ (if ltb j n then 0 else 1)
degree-replicate zero j = ground arith
degree-replicate (suc n) zero = ground arith
degree-replicate (suc n) (suc j) = ground (arith, degree-replicate n j)

at-past : (ids : Dict ℕ) (steps : List ToolCall) (j : ℕ) → length steps ≤ j → at ids steps j ≡ []
unfolding at
at-past ids [] j l = refl
at-past ids (s ∷ steps) zero l = absurd (omega (arith, l))
at-past ids (s ∷ steps) (suc j) l = at-past ids steps j (omega (arith, l))

known_dependencies-lt :
    (n : ℕ) (ids : Dict ℕ) (deps : List String)
    → Names n ids
    → (d : ℕ) → 0 < count d (known_dependencies ids deps)
    → d < n
unfolding known_dependencies
known_dependencies-lt n ids [] h d c = absurd (omega (arith, c))
known_dependencies-lt n ids (dep ∷ deps) h d c = elim (Option-cases (lookup dep ids)) [
  | inl e ↦
      known_dependencies-lt n ids deps h d
        (subst (λ xs. 0 < count d xs) (known-skip ids dep deps e) c)
  | inr (k, e) ↦
      let c' = subst (λ xs. 0 < count d xs) (known-take ids dep deps k e) c in
      ground (arith, h dep k e, known_dependencies-lt n ids deps h d, c')
]

at-lt :
    (n : ℕ) (ids : Dict ℕ) (steps : List ToolCall) (k : ℕ)
    → Names n ids
    → (d : ℕ) → 0 < count d (at ids steps k)
    → d < n
unfolding at
at-lt n ids [] k h d c = absurd (omega (arith, c))
at-lt n ids (s ∷ steps) zero h d c = known_dependencies-lt n ids s.depends_on h d c
at-lt n ids (s ∷ steps) (suc k) h d c = at-lt n ids steps k h d c

replicate-Sized :
    (n : ℕ) → Sized n (record { in_degree = replicate n 0; successors = replicate n [] })
replicate-Sized n = record {
  degrees = length-replicate n 0;
  lists = length-replicate n [];
  inside = λ d. subst (All (λ j. j < n)) (sym (after-replicate n d)) tt;
}

-- The positions that the step at a position depends on.
abbrev pub dependencies : List ToolCall → ℕ → List ℕ
dependencies steps = at (index_ids 0 steps []) steps

start_at :
    (ids : Dict ℕ) (steps : List ToolCall) (j : ℕ)
    → (if leb 0 j then at ids steps (j - 0) else []) ≡ at ids steps j
start_at ids steps j =
    let z : j - 0 ≡ j = omega arith in let b : leb 0 j ≡ true = ground arith in rw (z, b) refl

length_past :
    (ids : Dict ℕ) (steps : List ToolCall) (j : ℕ)
    → ltb j (length steps) ≡ false
    → length (at ids steps j) ≡ 0
length_past ids steps j b = ap length (at-past ids steps j (ltb→le j (length steps) b))

-- What the arrays of a plan hold.
record Built (steps : List ToolCall) : Type 0 where
  pub sized : Sized (length steps) (edges_of steps)
  pub in_degrees :
      (j : ℕ)
      → degree (edges_of steps).in_degree j
        ≡ (if ltb j (length steps) then length (dependencies steps j) else 1)
  pub edges :
      (d k : ℕ) → count k (after (edges_of steps).successors d) ≡ count d (dependencies steps k)
  pub bounded : (k d : ℕ) → 0 < count d (dependencies steps k) → d < length steps

edges_of-Built : (steps : List ToolCall) → Built steps
unfolding edges_of
edges_of-Built steps =
    let n = length steps in
    let ids = index_ids 0 steps [] in
    let none_yet : Names n [] = λ id d e. (unfold lookup in cc e) in
    let named = index_ids-Names n 0 steps [] (omega arith) none_yet in
    let g : Edges = record { in_degree = replicate n 0; successors = replicate n [] } in
    let adds = add_steps-Adds n ids named 0 steps g (omega arith) (replicate-Sized n) in
    record {
      sized = adds.sized;
      in_degrees = λ j. ground (
        arith,
        adds.in_degrees j,
        degree-replicate n j,
        start_at ids steps j,
        length_past ids steps j,
      );
      edges =
          λ d k. adds.edges d k ∙ (rw (after-replicate n d, start_at ids steps k) (omega arith));
      bounded = λ k d c. at-lt n ids steps k named d c;
    }

ready_from-count :
    (i : ℕ) (ds : List ℕ) (j : ℕ)
    → count j (ready_from i ds) ≡ (if leb i j then (if degree ds (j - i) == 0 then 1 else 0) else 0)
unfolding ready_from
ready_from-count i [] j = ground arith
ready_from-count i (d ∷ ds) j = elim (Bool-cases (leb i j)) [
  | inr b ↦ ground (arith, ready_from-count (i + 1) ds j)
  | inl b ↦ elim (Bool-cases (i == j)) [
    | inl e ↦
        let z : j - i ≡ 0 = ground arith in rw z (ground (arith, ready_from-count (i + 1) ds j))
    | inr e ↦
        let z : j - i ≡ suc (j - (i + 1)) = ground arith in
        rw z (ground (arith, ready_from-count (i + 1) ds j))
  ]
]

ready_from-waiting : (i : ℕ) (ds : List ℕ) → length (ready_from i ds) + waiting ds ≡ length ds
unfolding ready_from
ready_from-waiting i [] = refl
ready_from-waiting i (d ∷ ds) = ground (arith, ready_from-waiting (i + 1) ds)

pending-nil : (xs : List ℕ) → pending [] xs ≡ length xs
pending-nil [] = refl
pending-nil (x ∷ xs) = ground (arith, pending-nil xs)

count_ready :
    (ds : List ℕ) (j : ℕ) → count j (ready_from 0 ds) ≡ (if degree ds j == 0 then 1 else 0)
count_ready ds j =
    let z : j - 0 ≡ j = omega arith in
    let b : leb 0 j ≡ true = ground arith in ready_from-count 0 ds j ∙ (rw (z, b) refl)

-- How the sort of a plan ends.
pub data Ordering (steps : List ToolCall) (o : Option Sorted) : Type 0 where
  unannotated : any is_annotated steps ≡ false → o ≡ some (sorted steps) → Ordering steps o
  in_order :
      (order : List ℕ)
      → o ≡ some (sorted (pick steps order))
      → IsComplete (length steps) order
      → Respects (dependencies steps) [] order
      → Ordering steps o
  deadlock :
      (order : List ℕ)
      → o ≡ some (cycle (length order) (length steps))
      → IsStuck (dependencies steps) (length steps) order
      → Ordering steps o

module _ (steps : List ToolCall) where
  built : Built steps
  built = edges_of-Built steps

  -- The state before the first round.
  first-Inv :
      Inv
        (dependencies steps)
        (length steps)
        (edges_of steps).successors
        built.edges
        built.sized.inside
        (ready_from 0 (edges_of steps).in_degree)
        (edges_of steps).in_degree
        []
  first-Inv = record {
    size = built.sized.degrees;
    counts = λ j l. ground (arith, built.in_degrees j, pending-nil (dependencies steps j), l);
    once = λ j. omega (arith, count_ready (edges_of steps).in_degree j);
    ordered = tt;
    total = omega (arith, built.sized.degrees, ready_from-waiting 0 (edges_of steps).in_degree);
  }

  -- The sort of a plan ends. A plan with no annotation keeps its order. Any other is put in an order that
  -- holds each step once, each behind the steps that it depends on; or a cycle is reported, and then some
  -- steps could not be ordered, each of which depends on one of them.
  pub topological_sort-Ordering : Ordering steps (topological_sort steps)
  unfolding topological_sort check_order
  topological_sort-Ordering = elim (Bool-cases (any is_annotated steps)) [
    | inr b ↦ unannotated b (rw b refl)
    | inl b ↦
        let (order, ds, e, inv) =
          kahn-Inv (dependencies steps) (length steps) (edges_of steps).successors built.edges
            built.sized.inside (length steps) (ready_from 0 (edges_of steps).in_degree)
            (edges_of steps).in_degree [] first-Inv
            (omega (arith, ready_from-waiting 0 (edges_of steps).in_degree, built.sized.degrees)) in
        elim (Bool-cases (length order == length steps)) [
          | inl c ↦
              in_order order (rw (b, e, c) refl)
                (Inv-IsComplete (dependencies steps) (length steps) (edges_of steps).successors
                  built.edges built.sized.inside built.bounded ds order inv (eqb→eq _ _ c))
                inv.ordered
          | inr c ↦ deadlock order (rw (b, e, c) refl) (
              Inv-IsStuck (dependencies steps) (length steps) (edges_of steps).successors
                built.edges built.sized.inside built.bounded ds order inv (eqb→ne _ _ c))
        ]
  ]
