-- ===== src/Plan/Graph.antt =====
-- src/agent/dependency_graph.py: the execution order of a plan with dependency annotations.
pub mod Release
pub mod Build
pub mod Kahn
pub mod Order
use pearl_ai.Plan.{ToolCall}
use pearl_ai.Base.{
  String, lookup, put, Bool, Dict, List, Option, [], any, get_elem?, get_or, if◌then◌else◌,
  is_empty, length, ltb, none, not, set, some, suc, true, zero, ℕ, ◌++◌, ◌+◌, ◌-◌, ◌==◌, ◌∷◌,
}

-- `step.step_id is not None or step.depends_on`
unfoldable pub is_annotated : ToolCall → Bool
is_annotated step = elim step.step_id [ some id ↦ true | none ↦ not (is_empty step.depends_on) ]

-- The map from `step_id` to the position; the last step of an id wins.
unfoldable pub index_ids : ℕ → List ToolCall → Dict ℕ → Dict ℕ
unfolding put
index_ids i [] ids = ids
index_ids i (step ∷ steps) ids =
    index_ids (i + 1) steps (elim step.step_id [ none ↦ ids | some id ↦ put id i ids ])

-- The arrays: how many dependencies a step waits for, and which steps wait for it.
pub record Edges : Type 0 where
  pub in_degree : List ℕ
  pub successors : List (List ℕ)

abbrev pub degree : List ℕ → ℕ → ℕ
degree ds j = get_or ds j 1

abbrev pub after : List (List ℕ) → ℕ → List ℕ
after ss j = get_or ss j []

-- `successors[d].append(i)` and `in_degree[i] += 1`
unfoldable pub add_edge : ℕ → ℕ → Edges → Edges
add_edge i d g = record {
  in_degree = set g.in_degree i (degree g.in_degree i + 1);
  successors = set g.successors d (after g.successors d ++ i ∷ []);
}

-- The inner loop; a reference that names no step is skipped.
unfoldable pub add_dependencies : Dict ℕ → ℕ → List String → Edges → Edges
unfolding add_edge lookup
add_dependencies ids i [] g = g
add_dependencies ids i (dep ∷ deps) g =
    add_dependencies ids i deps (elim (lookup dep ids) [ none ↦ g | some d ↦ add_edge i d g ])

unfoldable pub add_steps : Dict ℕ → ℕ → List ToolCall → Edges → Edges
unfolding add_dependencies
add_steps ids i [] g = g
add_steps ids i (step ∷ steps) g =
    add_steps ids (i + 1) steps (add_dependencies ids i step.depends_on g)

abbrev pub replicate {ℓ} : {A : Type ℓ} → ℕ → A → List A
replicate zero x = []
replicate (suc n) x = x ∷ replicate n x

unfoldable pub edges_of : List ToolCall → Edges
unfolding index_ids add_steps
edges_of steps =
    add_steps (index_ids 0 steps []) 0 steps
      (record { in_degree = replicate (length steps) 0; successors = replicate (length steps) [] })

-- The positions of in-degree 0, in order.
unfoldable pub ready_from : ℕ → List ℕ → List ℕ
ready_from i [] = []
ready_from i (d ∷ ds) = let rest = ready_from (i + 1) ds in if d == 0 then i ∷ rest else rest

-- The loop over the successors of a step: the new in-degrees, and the steps that became ready.
unfoldable pub release : List ℕ → List ℕ → List ℕ × List ℕ
release [] ds = (ds, [])
release (j ∷ js) ds =
    let now = degree ds j - 1 in
    let (out, ready) = release js (set ds j now) in
    if now == 0 then (out, j ∷ ready) else (out, ready)

abbrev pub insert : ℕ → List ℕ → List ℕ
insert x [] = x ∷ []
insert x (y ∷ ys) = let rest = y ∷ insert x ys in if ltb x y then x ∷ y ∷ ys else rest

-- `list.sort` on positions
abbrev pub sort : List ℕ → List ℕ
sort [] = []
sort (x ∷ xs) = insert x (sort xs)

-- `while queue`: the positions in the order in which they leave the queue.
unfoldable pub kahn : ℕ → List (List ℕ) → List ℕ → List ℕ → List ℕ → Option (List ℕ)
unfolding release
kahn fuel ss [] ds order = some order
kahn zero ss (i ∷ queue) ds order = none
kahn (suc fuel) ss (i ∷ queue) ds order =
    let (out, ready) = release (after ss i) ds in
    kahn fuel ss (queue ++ sort ready) out (order ++ i ∷ [])

pub data Sorted : Type 0 where
  sorted : List ToolCall → Sorted
  -- how many steps could be ordered, and how many there are
  cycle : ℕ → ℕ → Sorted

-- `steps[i]` for the positions of an order
unfoldable pub pick : List ToolCall → List ℕ → List ToolCall
pick steps [] = []
pick steps (i ∷ is) = elim (get_elem? steps i) [ none ↦ pick steps is | some s ↦ s ∷ pick steps is ]

unfoldable pub check_order : List ToolCall → List ℕ → Sorted
unfolding pick
check_order steps order =
    if length order == length steps
    then sorted (pick steps order)
    else cycle (length order) (length steps)

-- `topological_sort`: each step leaves the queue once, so the number of steps is fuel enough.
unfoldable pub topological_sort : List ToolCall → Option Sorted
unfolding is_annotated edges_of ready_from kahn check_order
topological_sort steps =
    let g = edges_of steps in
    if any is_annotated steps
    then elim (kahn (length steps) g.successors (ready_from 0 g.in_degree) g.in_degree []) [
      | none ↦ none
      | some order ↦ some (check_order steps order)
    ]
    else some (sorted steps)
