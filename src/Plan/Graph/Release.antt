-- ===== src/Plan/Graph/Release.antt =====
-- What one step releases: the in-degrees fall by the edges from it, and the steps that wait for nothing
-- else become ready, each once.
use pearl_ai.Plan.Graph.{release, degree}
use pearl_ai.Base.{
  count, get_or-set, length-set, All, Bool-cases, List, [], arith, if◌then◌else◌, inl, inr, length,
  refl, set, subst, suc, sym, zero, ℕ, ◌+◌, ◌-◌, ◌<◌, ◌==◌, ◌∙◌, ◌∷◌, ◌≡◌, ◌≤◌,
}

-- One where a step with `d` dependencies left and `c` edges from the released step becomes ready.
abbrev pub hits : ℕ → ℕ → ℕ
hits d c = if c == 0 then 0 else if d == c then 1 else 0

-- How many in-degrees are not 0.
abbrev pub waiting : List ℕ → ℕ
waiting [] = 0
waiting (d ∷ ds) = (if d == 0 then 0 else 1) + waiting ds

release-out :
    (j : ℕ) (js ds : List ℕ) → (release (j ∷ js) ds).0 ≡ (release js (set ds j (degree ds j - 1))).0
unfolding release
release-out j js ds = elim (Bool-cases (degree ds j - 1 == 0)) [
  | inl b ↦ rw b refl
  | inr b ↦ rw b refl
]

release-ready :
    (j : ℕ) (js ds : List ℕ)
    → (release (j ∷ js) ds).1 ≡ (
        if degree ds j - 1 == 0
        then j ∷ (release js (set ds j (degree ds j - 1))).1
        else (release js (set ds j (degree ds j - 1))).1)
unfolding release
release-ready j js ds = elim (Bool-cases (degree ds j - 1 == 0)) [
  | inl b ↦ rw b refl
  | inr b ↦ rw b refl
]

-- Every edge counts a dependency that is still there.
pub record Counted (js ds : List ℕ) : Type 0 where
  pub inside : All (λ j. j < length ds) js
  pub enough : (k : ℕ) → count k js ≤ degree ds k

Counted-tail :
    (j : ℕ) (js ds : List ℕ) → Counted (j ∷ js) ds → Counted js (set ds j (degree ds j - 1))
Counted-tail j js ds c = record {
  inside = subst (λ n. All (λ k. k < n) js) (sym (length-set ds j (degree ds j - 1))) c.inside.1;
  enough = λ k. ground (arith, c.enough k, get_or-set ds j k (degree ds j - 1) 1 c.inside.0);
}

pub degree-release :
    (js ds : List ℕ) (k : ℕ) → Counted js ds → degree (release js ds).0 k ≡ degree ds k - count k js
degree-release [] ds k c = unfold release in omega arith
degree-release (j ∷ js) ds k c = rw release-out (
    ground (
      arith,
      degree-release js (set ds j (degree ds j - 1)) k (Counted-tail j js ds c),
      get_or-set ds j k (degree ds j - 1) 1 c.inside.0,
    ))

pub length-release : (js ds : List ℕ) → length (release js ds).0 ≡ length ds
length-release [] ds = unfold release in refl
length-release (j ∷ js) ds =
    rw release-out
      (length-release js (set ds j (degree ds j - 1)) ∙ length-set ds j (degree ds j - 1))

pub count-release :
    (js ds : List ℕ) (k : ℕ)
    → Counted js ds
    → count k (release js ds).1 ≡ hits (degree ds k) (count k js)
count-release [] ds k c = unfold release in ground arith
count-release (j ∷ js) ds k c = rw release-ready (
    ground (
      arith,
      c.enough k,
      c.enough j,
      count-release js (set ds j (degree ds j - 1)) k (Counted-tail j js ds c),
      get_or-set ds j k (degree ds j - 1) 1 c.inside.0,
    ))

waiting-set :
    (ds : List ℕ) (j d : ℕ)
    → j < length ds
    → waiting (set ds j d) + (if degree ds j == 0 then 0 else 1)
      ≡ waiting ds + (if d == 0 then 0 else 1)
waiting-set [] j d h = absurd (omega (arith, h))
waiting-set (x ∷ ds) zero d h = ground arith
waiting-set (x ∷ ds) (suc j) d h = ground (arith, waiting-set ds j d)

pub waiting-release :
    (js ds : List ℕ)
    → Counted js ds
    → waiting (release js ds).0 + length (release js ds).1 ≡ waiting ds
waiting-release [] ds c = unfold release in omega arith
waiting-release (j ∷ js) ds c =
    rw (release-out, release-ready)
      (ground (
        arith,
        c.enough j,
        waiting-release js (set ds j (degree ds j - 1)) (Counted-tail j js ds c),
        waiting-set ds j (degree ds j - 1) c.inside.0,
      ))
