-- ===== src/Plan/Graph/Kahn.antt =====
-- Kahn's loop on any graph: it ends, and its order is complete and respects the dependencies, or every
-- step that is left waits for another one that is left.
use pearl_ai.Plan.Graph.Release.{
  Counted, waiting, count-release, degree-release, length-release, waiting-release,
}
use pearl_ai.Plan.Graph.{sort, insert, degree, after, release, kahn}
use mathlib.Core.List.{append-nil, append_assoc}
use pearl_ai.Base.{
  count, count-append, All, Bool-cases, List, [], arith, if◌then◌else◌, inl, inr, length, refl,
  subst, sym, ℕ, ◌++◌, ◌+◌, ◌<◌, ◌==◌, ◌∷◌, ◌≡◌, ◌≤◌, length-append, ◌∙◌, get_or, leb, leb→le,
  leb→lt, suc, zero, ◌⊎◌, ltb, some, ◌≢◌,
}

count-insert :
    (a x : ℕ) (ys : List ℕ) → count a (insert x ys) ≡ (if x == a then 1 else 0) + count a ys
count-insert a x [] = refl
count-insert a x (y ∷ ys) = ground (arith, count-insert a x ys)

count-sort : (a : ℕ) (xs : List ℕ) → count a (sort xs) ≡ count a xs
count-sort a [] = refl
count-sort a (x ∷ xs) = omega (arith, count-insert a x (sort xs), count-sort a xs)

length-insert : (x : ℕ) (ys : List ℕ) → length (insert x ys) ≡ length ys + 1
length-insert x [] = omega arith
length-insert x (y ∷ ys) = ground (arith, length-insert x ys)

length-sort : (xs : List ℕ) → length (sort xs) ≡ length xs
length-sort [] = refl
length-sort (x ∷ xs) = omega (arith, length-insert x (sort xs), length-sort xs)

-- How many entries of `xs` are not in `done`.
abbrev pub pending : List ℕ → List ℕ → ℕ
pending done [] = 0
pending done (x ∷ xs) = (if count x done == 0 then 1 else 0) + pending done xs

pending-append :
    (done xs : List ℕ) (i : ℕ)
    → count i done ≡ 0
    → pending (done ++ i ∷ []) xs + count i xs ≡ pending done xs
pending-append done [] i h = omega arith
pending-append done (x ∷ xs) i h =
    ground (arith, pending-append done xs i h, count-append x (i ∷ []) done)

count-le-pending : (done xs : List ℕ) (i : ℕ) → count i done ≡ 0 → count i xs ≤ pending done xs
count-le-pending done xs i h = omega (arith, pending-append done xs i h)

-- Nothing pending: every entry is done.
pending-zero : (done xs : List ℕ) (d : ℕ) → pending done xs ≡ 0 → 0 < count d xs → 0 < count d done
pending-zero done [] d h c = absurd (omega (arith, c))
pending-zero done (x ∷ xs) d h c = ground (arith, pending-zero done xs d)

-- Something pending: an entry that is not done.
pending-some :
    (done xs : List ℕ) → 0 < pending done xs → (d : ℕ) × (0 < count d xs) × (count d done ≡ 0)
pending-some done [] h = absurd (omega (arith, h))
pending-some done (x ∷ xs) h = elim (Bool-cases (count x done == 0)) [
  | inl b ↦ (x, ground arith, ground arith)
  | inr b ↦ let (d, c, e) = pending-some done xs (ground arith) in (d, omega (arith, c), e)
]

-- Each entry of the order comes behind its dependencies; `seen` are the entries before the order.
abbrev pub Respects : (ℕ → List ℕ) → List ℕ → List ℕ → Type 0
Respects deps seen [] = Unit
Respects deps seen (i ∷ is) =
    ((d : ℕ) → 0 < count d (deps i) → 0 < count d seen) × Respects deps (seen ++ i ∷ []) is

Respects-append :
    (deps : ℕ → List ℕ) (seen is : List ℕ) (k : ℕ)
    → Respects deps seen is
    → ((d : ℕ) → 0 < count d (deps k) → 0 < count d (seen ++ is))
    → Respects deps seen (is ++ k ∷ [])
Respects-append deps seen [] k r h =
    (λ d c. subst (λ l. 0 < count d l) (append-nil seen) (h d c), tt)
Respects-append deps seen (i ∷ is) k r h = (
  r.0,
  Respects-append deps (seen ++ i ∷ []) is k r.1
      (λ d c. subst (λ l. 0 < count d l) (sym (append_assoc seen (i ∷ []) is)) (h d c)),
)

get_or_past : (ds : List ℕ) (j d : ℕ) → length ds ≤ j → get_or ds j d ≡ d
get_or_past [] j d h = refl
get_or_past (x ∷ ds) zero d h = absurd (omega (arith, h))
get_or_past (x ∷ ds) (suc j) d h = get_or_past ds j d (omega (arith, h))

count_past : (n k : ℕ) (js : List ℕ) → n ≤ k → All (λ j. j < n) js → count k js ≡ 0
count_past n k [] h a = refl
count_past n k (j ∷ js) h a = ground (arith, a.0, count_past n k js h a.1)

le_or_lt : (n k : ℕ) → (n ≤ k) ⊎ (k < n)
le_or_lt n k = elim (Bool-cases (leb n k)) [
  | inl b ↦ inl (leb→le n k b)
  | inr b ↦ inr (leb→lt n k b)
]

module _ (deps : ℕ → List ℕ) (n : ℕ) (ss : List (List ℕ))
    -- the lists of successors hold each dependency as often as the step names it
    (edges : (i k : ℕ) → count k (after ss i) ≡ count i (deps k))
    (inside : (i : ℕ) → All (λ j. j < n) (after ss i)) where
  abbrev is_zero : ℕ → ℕ
  is_zero d = if d == 0 then 1 else 0

  -- The state of the loop: what is in the order, in the queue, and still counted.
  pub record Inv (queue ds order : List ℕ) : Type 0 where
    pub size : length ds ≡ n
    pub counts : (j : ℕ) → j < n → degree ds j ≡ pending order (deps j)
    pub once : (j : ℕ) → count j order + count j queue ≡ is_zero (degree ds j)
    pub ordered : Respects deps [] order
    pub total : length order + length queue + waiting ds ≡ n

  module _ (i : ℕ) (queue ds order : List ℕ) (inv : Inv (i ∷ queue) ds order) where
    unprocessed : count i order ≡ 0
    unprocessed = ground (arith, inv.once i)

    ready_now : degree ds i ≡ 0
    ready_now = ground (arith, inv.once i)

    i-lt : i < n
    i-lt = elim (le_or_lt n i) [
      | inl past ↦
          absurd (omega (arith, ready_now, get_or_past ds i 1 (omega (arith, inv.size, past))))
      | inr lt ↦ lt
    ]

    Inv-Counted : Counted (after ss i) ds
    Inv-Counted = record {
      inside = rw inv.size (inside i);
      enough = λ k. elim (le_or_lt n k) [
        | inl past ↦ omega (arith, count_past n k (after ss i) past (inside i))
        | inr lt ↦
            omega (arith, edges i k, inv.counts k lt, count-le-pending order (deps k) i unprocessed)
      ];
    }

    Inv-step :
        Inv
          (queue ++ sort (release (after ss i) ds).1)
          (release (after ss i) ds).0
          (order ++ i ∷ [])
    Inv-step = record {
      size = length-release (after ss i) ds ∙ inv.size;
      counts = λ j lt. omega (
        arith,
        degree-release (after ss i) ds j Inv-Counted,
        edges i j,
        inv.counts j lt,
        pending-append order (deps j) i unprocessed,
      );
      once = λ j. ground (
        arith,
        inv.once j,
        count-append j (i ∷ []) order,
        count-append j (sort (release (after ss i) ds).1) queue,
        count-sort j (release (after ss i) ds).1,
        count-release (after ss i) ds j Inv-Counted,
        degree-release (after ss i) ds j Inv-Counted,
        Counted.enough Inv-Counted j,
      );
      ordered =
          Respects-append deps [] order i inv.ordered
            (λ d c. pending-zero order (deps i) d (omega (arith, inv.counts i i-lt, ready_now)) c);
      total = omega (
        arith,
        inv.total,
        length-append order (i ∷ []),
        length-append queue (sort (release (after ss i) ds).1),
        length-sort (release (after ss i) ds).1,
        waiting-release (after ss i) ds Inv-Counted,
      );
    }

  -- The loop ends, with an order that keeps the invariant and an empty queue.
  pub kahn-Inv :
      (fuel : ℕ) (queue ds order : List ℕ)
      → Inv queue ds order
      → length queue + waiting ds ≤ fuel
      → (final : List ℕ) × (rest : List ℕ) × (kahn fuel ss queue ds order ≡ some final)
        × Inv [] rest final
  unfolding kahn
  kahn-Inv fuel [] ds order inv l = (order, ds, refl, inv)
  kahn-Inv zero (i ∷ queue) ds order inv l = absurd (omega (arith, l))
  kahn-Inv (suc fuel) (i ∷ queue) ds order inv l =
      let next = Inv-step i queue ds order inv in
      kahn-Inv fuel (queue ++ sort (release (after ss i) ds).1) (release (after ss i) ds).0
        (order ++ i ∷ []) next
        (omega (arith, l, inv.total, next.total, length-append order (i ∷ [])))

-- Each position below `n` once, and no other.
abbrev pub IsComplete : ℕ → List ℕ → Type 0
IsComplete n order = (j : ℕ) → count j order ≡ (if ltb j n then 1 else 0)

-- A position below `n` that the order leaves out.
abbrev pub Left : ℕ → List ℕ → ℕ → Type 0
Left n order j = (j < n) × (count j order ≡ 0)

-- Some positions are left out, and each of them waits for one that is left out too.
abbrev pub IsStuck : (ℕ → List ℕ) → ℕ → List ℕ → Type 0
IsStuck deps n order =
    ((j : ℕ) × Left n order j)
    × ((j : ℕ) → Left n order j → (d : ℕ) × (0 < count d (deps j)) × Left n order d)

waiting-none : (ds : List ℕ) (j : ℕ) → waiting ds ≡ 0 → j < length ds → degree ds j ≡ 0
waiting-none [] j h l = absurd (omega (arith, l))
waiting-none (d ∷ ds) zero h l = ground arith
waiting-none (d ∷ ds) (suc j) h l = ground (arith, waiting-none ds j)

waiting-some : (ds : List ℕ) → 0 < waiting ds → (j : ℕ) × (j < length ds) × (0 < degree ds j)
waiting-some [] h = absurd (omega (arith, h))
waiting-some (zero ∷ ds) h =
    let (j, l, p) = waiting-some ds (omega (arith, h)) in (suc j, omega (arith, l), p)
waiting-some (suc d ∷ ds) h = (zero, omega arith, omega arith)

module _ (deps : ℕ → List ℕ) (n : ℕ) (ss : List (List ℕ))
    (edges : (i k : ℕ) → count k (after ss i) ≡ count i (deps k))
    (inside : (i : ℕ) → All (λ j. j < n) (after ss i))
    (bounded : (j d : ℕ) → 0 < count d (deps j) → d < n) (ds order : List ℕ)
    (inv : Inv deps n ss edges inside [] ds order) where
  pub Inv-IsComplete : length order ≡ n → IsComplete n order
  Inv-IsComplete e j = elim (le_or_lt n j) [
    | inl past ↦ ground (arith, inv.once j, get_or_past ds j 1, inv.size)
    | inr lt ↦ ground (arith, inv.once j, waiting-none ds j, inv.size, inv.total, e)
  ]

  pub Inv-IsStuck : length order ≢ n → IsStuck deps n order
  Inv-IsStuck ne =
      let (k, l, p) = waiting-some ds (ground (arith, inv.total)) in
      (
        (k, (omega (arith, l, inv.size), ground (arith, inv.once k, p))),
        λ j left.
            let (d, c, e) =
              pending-some order (deps j)
                (ground (arith, inv.once j, inv.counts j, left.0, left.1)) in
            (d, c, (bounded j d c, e)),
      )
