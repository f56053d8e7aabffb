-- ===== src/Plan/Graph/Build.antt =====
-- The arrays that are built from the annotations hold each dependency on both of its ends.
use pearl_ai.Plan.Graph.{index_ids, degree, after, add_edge, Edges, add_dependencies, add_steps}
use pearl_ai.Plan.{ToolCall}
use pearl_ai.Base.{
  String, count, get_or-set, length-set, lookup-put, All, Bool-cases, Dict, List, Option-cases, [],
  arith, if◌then◌else◌, inl, inr, length, lookup, none, put, refl, some, str_eq, suc, sym, zero, ℕ,
  ◌++◌, ◌+◌, ◌<◌, ◌==◌, ◌∙◌, ◌∷◌, ◌≡◌, ◌≤◌, All-append, count-append, leb, ◌-◌, subst, true,
}

-- The positions that the references of a step name.
unfoldable pub known_dependencies : Dict ℕ → List String → List ℕ
unfolding lookup
known_dependencies ids [] = []
known_dependencies ids (dep ∷ deps) =
    let rest = known_dependencies ids deps in
    elim (lookup dep ids) [ none ↦ rest | some d ↦ d ∷ rest ]

pub known-skip :
    (ids : Dict ℕ) (dep : String) (deps : List String)
    → lookup dep ids ≡ none
    → known_dependencies ids (dep ∷ deps) ≡ known_dependencies ids deps
unfolding known_dependencies
known-skip ids dep deps e = rw (e, known_dependencies) refl

pub known-take :
    (ids : Dict ℕ) (dep : String) (deps : List String) (d : ℕ)
    → lookup dep ids ≡ some d
    → known_dependencies ids (dep ∷ deps) ≡ d ∷ known_dependencies ids deps
unfolding known_dependencies
known-take ids dep deps d e = rw (e, known_dependencies) refl

-- The positions that the step at `j` depends on.
unfoldable pub at : Dict ℕ → List ToolCall → ℕ → List ℕ
unfolding known_dependencies
at ids [] j = []
at ids (s ∷ steps) zero = known_dependencies ids s.depends_on
at ids (s ∷ steps) (suc j) = at ids steps j

-- `ids` names positions below `n`.
abbrev pub Names : ℕ → Dict ℕ → Type 0
Names n ids = (id : String) (d : ℕ) → lookup id ids ≡ some d → d < n

some_inj : (a b : ℕ) → some a ≡ some b → a ≡ b
some_inj a b h = cc

Names-put : (n i : ℕ) (id : String) (ids : Dict ℕ) → i < n → Names n ids → Names n (put id i ids)
Names-put n i id ids l h k d e = elim (Bool-cases (str_eq id k)) [
  | inl b ↦
      let f : lookup k (put id i ids) ≡ some i = lookup-put id k i ids ∙ (rw b refl) in
      omega (arith, some_inj i d (sym f ∙ e), l)
  | inr b ↦
      let f : lookup k (put id i ids) ≡ lookup k ids = lookup-put id k i ids ∙ (rw b refl) in
      h k d (sym f ∙ e)
]

pub index_ids-Names :
    (n i : ℕ) (steps : List ToolCall) (ids : Dict ℕ)
    → i + length steps ≤ n
    → Names n ids
    → Names n (index_ids i steps ids)
unfolding index_ids
index_ids-Names n i [] ids l h = h
index_ids-Names n i (s ∷ steps) ids l h = elim (Option-cases s.step_id) [
  | inl e ↦ rw e (index_ids-Names n (i + 1) steps ids (omega (arith, l)) h)
  | inr (id, e) ↦ rw e (
      index_ids-Names n (i + 1) steps (put id i ids) (omega (arith, l))
        (Names-put n i id ids (omega (arith, l)) h))
]

-- Both arrays have `n` places, and the successors are below `n`.
pub record Sized (n : ℕ) (g : Edges) : Type 0 where
  pub degrees : length g.in_degree ≡ n
  pub lists : length g.successors ≡ n
  pub inside : (d : ℕ) → All (λ j. j < n) (after g.successors d)

module _ (n : ℕ) (ids : Dict ℕ) (named : Names n ids) where
  -- What an update adds to the in-degrees and to the successors.
  pub record Adds (f : ℕ → List ℕ) (g g' : Edges) : Type 0 where
    pub sized : Sized n g'
    pub in_degrees : (j : ℕ) → degree g'.in_degree j ≡ degree g.in_degree j + length (f j)
    pub edges :
        (d k : ℕ) → count k (after g'.successors d) ≡ count k (after g.successors d) + count d (f k)

  module _ (i : ℕ) (l : i < n) where
    abbrev only : List ℕ → ℕ → List ℕ
    only xs j = if i == j then xs else []

    add_edge-Adds :
        (d : ℕ) (g : Edges) → d < n → Sized n g → Adds (only (d ∷ [])) g (add_edge i d g)
    unfolding add_edge
    add_edge-Adds d g m s =
        let grown = after g.successors d ++ i ∷ [] in
        let look = λ (e : ℕ). get_or-set g.successors d e grown [] (omega (arith, s.lists, m)) in
        record {
          sized = record {
            degrees = length-set g.in_degree i (degree g.in_degree i + 1) ∙ s.degrees;
            lists = length-set g.successors d grown ∙ s.lists;
            inside = λ e. rw (look e) (elim (Bool-cases (d == e)) [
              | inl b ↦
                  rw b
                    (All-append (λ j. j < n) (after g.successors d) (i ∷ []) (s.inside d) (l, tt))
              | inr b ↦ rw b (s.inside e)
            ]);
          };
          in_degrees = λ j.
              ground (arith, s.degrees, get_or-set g.in_degree i j (degree g.in_degree i + 1) 1);
          edges = λ e k. rw (look e) (elim (Bool-cases (d == e)) [
            | inl b ↦ ground (arith, count-append k (i ∷ []) (after g.successors d))
            | inr b ↦ ground arith
          ]);
        }

    add_dependencies-Adds :
        (deps : List String) (g : Edges)
        → Sized n g
        → Adds (only (known_dependencies ids deps)) g (add_dependencies ids i deps g)
    unfolding add_dependencies known_dependencies
    add_dependencies-Adds [] g s = record {
      sized = s;
      in_degrees = λ j. ground arith;
      edges = λ e k. ground arith;
    }
    add_dependencies-Adds (dep ∷ deps) g s = elim (Option-cases (lookup dep ids)) [
      | inl e ↦
          subst (λ xs. Adds (only xs) g (add_dependencies ids i (dep ∷ deps) g))
            (sym (known-skip ids dep deps e)) (rw e (add_dependencies-Adds deps g s))
      | inr (d, e) ↦
          let one = add_edge-Adds d g (named dep d e) s in
          let rest = add_dependencies-Adds deps (add_edge i d g) one.sized in
          subst (λ xs. Adds (only xs) g (add_dependencies ids i (dep ∷ deps) g))
            (sym (known-take ids dep deps d e))
            (rw e (record {
              sized = rest.sized;
              in_degrees = λ j. ground (arith, one.in_degrees j, rest.in_degrees j);
              edges = λ a k. ground (arith, one.edges a k, rest.edges a k);
            }))
    ]

  -- The steps from position `i` on.
  abbrev pub from : ℕ → List ToolCall → ℕ → List ℕ
  from i steps j = if leb i j then at ids steps (j - i) else []

  from-cons :
      (i : ℕ) (step : ToolCall) (steps : List ToolCall) (j : ℕ)
      → from i (step ∷ steps) j
        ≡ (if i == j then known_dependencies ids step.depends_on else from (i + 1) steps j)
  unfolding at
  from-cons i step steps j = elim (Bool-cases (leb i j)) [
    | inr b ↦ ground arith
    | inl b ↦ elim (Bool-cases (i == j)) [
      | inl e ↦ let z : j - i ≡ 0 = ground arith in rw (b, e, z) refl
      | inr e ↦
          let z : j - i ≡ suc (j - (i + 1)) = ground arith in
          let c : leb (i + 1) j ≡ true = ground arith in rw (b, e, z, c) refl
    ]
  ]

  pub add_steps-Adds :
      (i : ℕ) (steps : List ToolCall) (g : Edges)
      → i + length steps ≤ n
      → Sized n g
      → Adds (from i steps) g (add_steps ids i steps g)
  unfolding add_steps at
  add_steps-Adds i [] g l s = record {
    sized = s;
    in_degrees = λ j. ground arith;
    edges = λ e k. ground arith;
  }
  add_steps-Adds i (step ∷ steps) g l s =
      let one = add_dependencies-Adds i (omega (arith, l)) step.depends_on g s in
      let rest =
        add_steps-Adds (i + 1) steps (add_dependencies ids i step.depends_on g) (omega (arith, l))
          one.sized in
      record {
        sized = rest.sized;
        in_degrees = λ j.
            rw (from-cons i step steps j) (ground (arith, one.in_degrees j, rest.in_degrees j));
        edges =
            λ a k. rw (from-cons i step steps k) (ground (arith, one.edges a k, rest.edges a k));
      }
