-- ===== src/Plan/Validator/Writes.antt =====
-- No path written twice: what a plan with no error of the validator guarantees.
use pearl_ai.Plan.Validator.Reads.{append_nil_right}
use pearl_ai.Plan.Validator.{
  written_twice, write_tools, write_errors, scope_errors, read_errors, plan_errors, path_of,
  count_errors,
}
use pearl_ai.Plan.{ToolCall}
use pearl_ai.Base.{
  String, eq_iff, lookup-put, lookup, put, Bool, Bool-cases, Dict, List, Option-cases, [], and_left,
  and_right, false, inl, inr, none, not, one_of, refl, some, str_eq, subst, sym, true, ℕ, ◌&&◌,
  ◌++◌, ◌+◌, ◌∙◌, ◌∷◌, ◌≡◌, ◌≢◌, Option,
}

-- The step writes to the path.
abbrev pub writes : String → ToolCall → Bool
writes p step = one_of step.tool_name write_tools && str_eq (path_of step) p

abbrev is_some : Option ℕ → Bool
is_some none = false
is_some (some i) = true

abbrev known : String → Dict ℕ → Bool
known p d = is_some (lookup p d)

known-put : (p q : String) (i : ℕ) (d : Dict ℕ) → known q d ≡ true → known q (put p i d) ≡ true
known-put p q i d h = elim (Bool-cases (str_eq p q)) [
  | inl b ↦ rw (lookup-put p q i d, b) refl
  | inr b ↦ rw (lookup-put p q i d, b) h
]

known-put_same : (p : String) (i : ℕ) (d : Dict ℕ) → known p (put p i d) ≡ true
known-put_same p i d = rw (lookup-put p p i d, (eq_iff p p).1 refl) refl

-- What one round of the loop passes on.
record Next (i : ℕ) (seen : Dict ℕ) (x : ToolCall) (xs : List ToolCall) : Type 0 where
  pub passed : Dict ℕ
  pub clear : write_errors (i + 1) passed xs ≡ []
  pub keeps : (p : String) → known p seen ≡ true → known p passed ≡ true
  pub notes :
      (p : String) → p ≢ "" → writes p x ≡ true → (known p seen ≡ false) × (known p passed ≡ true)

no_write :
    (x : ToolCall) (p : String)
    → (one_of x.tool_name write_tools && not (str_eq (path_of x) "")) ≡ false
    → p ≢ ""
    → writes p x ≢ true
no_write x p b full w =
    let same : path_of x ≡ p =
      (eq_iff (path_of x) p).0
        (and_right (one_of x.tool_name write_tools) (str_eq (path_of x) p) w) in
    let g : not (str_eq (path_of x) "") ≡ false =
      (rw (and_left (one_of x.tool_name write_tools) (str_eq (path_of x) p) w) at b) in
    elim (Bool-cases (str_eq (path_of x) "")) [
      | inl c ↦ full (sym same ∙ (eq_iff (path_of x) "").0 c)
      | inr c ↦ let k : true ≡ false = rw c at g in cc k
    ]

write_errors-Next :
    (i : ℕ) (seen : Dict ℕ) (x : ToolCall) (xs : List ToolCall)
    → write_errors i seen (x ∷ xs) ≡ []
    → Next i seen x xs
unfolding write_errors
write_errors-Next i seen x xs h =
    elim (Bool-cases (one_of x.tool_name write_tools && not (str_eq (path_of x) ""))) [
      | inr b ↦ record {
        passed = seen;
        clear = rw (b, write_errors) at h;
        keeps = λ p k. k;
        notes = λ p full w. absurd (no_write x p b full w);
      }
      | inl b ↦ elim (Option-cases (lookup (path_of x) seen)) [
        | inr (first, e) ↦
            let g : written_twice i (path_of x) first ∷ write_errors (i + 1) seen xs ≡ [] =
              rw (b, e, write_errors) at h in
            cc g
        | inl e ↦ record {
          passed = put (path_of x) i seen;
          clear = rw (b, e, write_errors) at h;
          keeps = λ p k. known-put (path_of x) p i seen k;
          notes = λ p full w.
              subst (λ q. (known q seen ≡ false) × (known q (put (path_of x) i seen) ≡ true))
                ((eq_iff (path_of x) p).0 (and_right _ _ w))
                (rw e refl, known-put_same (path_of x) i seen);
        }
      ]
    ]

-- A path that is known is not written any more.
known_unwritten :
    (p : String) (mid back : List ToolCall) (t : ToolCall) (i : ℕ) (seen : Dict ℕ)
    → p ≢ ""
    → known p seen ≡ true
    → write_errors i seen (mid ++ t ∷ back) ≡ []
    → writes p t ≢ true
known_unwritten p [] back t i seen full k h w =
    let n = write_errors-Next i seen t back h in
    let g : true ≡ false = sym k ∙ (n.notes p full w).0 in cc g
known_unwritten p (x ∷ mid) back t i seen full k h w =
    let n = write_errors-Next i seen x (mid ++ t ∷ back) h in
    known_unwritten p mid back t (i + 1) n.passed full (n.keeps p k) n.clear w

written_once :
    (p : String) (front mid back : List ToolCall) (s t : ToolCall) (i : ℕ) (seen : Dict ℕ)
    → p ≢ ""
    → write_errors i seen (front ++ s ∷ (mid ++ t ∷ back)) ≡ []
    → writes p s ≡ true
    → writes p t ≢ true
written_once p [] mid back s t i seen full h w =
    let n = write_errors-Next i seen s (mid ++ t ∷ back) h in
    known_unwritten p mid back t (i + 1) n.passed full (n.notes p full w).1 n.clear
written_once p (x ∷ front) mid back s t i seen full h w =
    let n = write_errors-Next i seen x (front ++ s ∷ (mid ++ t ∷ back)) h in
    written_once p front mid back s t (i + 1) n.passed full n.clear w

-- In a plan in which the checks find no error, no path but the empty one is written by two steps.
pub plan_errors-written_once :
    (suffix : String → String) (exts : List String) (p : String) (front mid back : List ToolCall)
    (s t : ToolCall)
    → p ≢ ""
    → plan_errors suffix exts (front ++ s ∷ (mid ++ t ∷ back)) ≡ []
    → writes p s ≡ true
    → writes p t ≢ true
unfolding plan_errors
plan_errors-written_once suffix exts p front mid back s t full h w =
    let steps = front ++ s ∷ (mid ++ t ∷ back) in
    let before =
      (count_errors steps ++ scope_errors suffix exts 1 steps) ++ read_errors 1 false steps in
    written_once p front mid back s t 1 [] full
      (append_nil_right before (write_errors 1 [] steps) h) w
