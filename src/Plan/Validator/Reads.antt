-- ===== src/Plan/Validator/Reads.antt =====
-- Read before write: what a plan with no error of the validator guarantees.
use pearl_ai.Plan.Validator.{
  read_errors, plan_errors, destructive_write_tools, PlanError, scope_errors, write_before_read,
  write_errors, count_errors, max_steps, too_many_steps,
}
use pearl_ai.Plan.{ToolCall}
use pearl_ai.Base.{
  String, eq_iff, Bool, Bool-cases, List, [], any, arith, false, inl, inr, one_of, refl, str_eq,
  subst, true, ℕ, ◌++◌, ◌+◌, ◌∷◌, ◌≡◌, ◌≢◌, length, ltb, ltb→le, ◌≤◌,
}

abbrev pub reads : ToolCall → Bool
reads step = str_eq step.tool_name "read_file"

abbrev pub destroys : ToolCall → Bool
destroys step = one_of step.tool_name destructive_write_tools

destroys-not_reads :
    (name : String) → one_of name destructive_write_tools ≡ true → str_eq name "read_file" ≡ false
destroys-not_reads name h = elim (Bool-cases (str_eq name "read_file")) [
  | inr b ↦ b
  | inl b ↦
      let g : one_of "read_file" destructive_write_tools ≡ true =
        subst (λ n. one_of n destructive_write_tools ≡ true) ((eq_iff name "read_file").0 b) h in
      cc g
]

pub append_nil_left : (xs ys : List PlanError) → xs ++ ys ≡ [] → xs ≡ []
append_nil_left [] ys h = refl
append_nil_left (x ∷ xs) ys h = cc h

pub append_nil_right : (xs ys : List PlanError) → xs ++ ys ≡ [] → ys ≡ []
append_nil_right [] ys h = h
append_nil_right (x ∷ xs) ys h = cc h

read_errors-next :
    (i : ℕ) (seen : Bool) (x : ToolCall) (xs : List ToolCall)
    → reads x ≡ false
    → read_errors i seen (x ∷ xs) ≡ []
    → read_errors (i + 1) seen xs ≡ []
unfolding read_errors
read_errors-next i seen x xs b h = ground (arith, b, h)

read_errors-read :
    (i : ℕ) (x : ToolCall) (xs : List ToolCall)
    → destroys x ≡ true
    → read_errors i false (x ∷ xs) ≢ []
unfolding read_errors
read_errors-read i x xs d h =
    (let n = destroys-not_reads x.tool_name d in
      let g : write_before_read i ∷ read_errors (i + 1) false xs ≡ [] =
        rw (n, d, read_errors) at h in
      cc g)

read_errors-guarded :
    (front back : List ToolCall) (step : ToolCall) (i : ℕ)
    → read_errors i false (front ++ step ∷ back) ≡ []
    → destroys step ≡ true
    → any reads front ≡ true
read_errors-guarded [] back step i h d = absurd (read_errors-read i step back d h)
read_errors-guarded (x ∷ front) back step i h d = elim (Bool-cases (reads x)) [
  | inl b ↦ rw b refl
  | inr b ↦ rw b (read_errors-guarded front back step (i + 1) (read_errors-next i false x _ b h) d)
]

count_errors-nil : (steps : List ToolCall) → count_errors steps ≡ [] → length steps ≤ 25
unfolding count_errors
count_errors-nil steps h = elim (Bool-cases (ltb max_steps (length steps))) [
  | inl b ↦ let g : too_many_steps (length steps) ∷ [] ≡ [] = rw (b, count_errors) at h in cc g
  | inr b ↦ ltb→le _ _ b
]

-- A plan in which the checks find no error has at most 25 steps, and each of its steps that overwrites
-- a file comes behind a step that reads one.
pub plan_errors-guarded :
    (suffix : String → String) (exts : List String) (front back : List ToolCall) (step : ToolCall)
    → plan_errors suffix exts (front ++ step ∷ back) ≡ []
    → (length (front ++ step ∷ back) ≤ 25) × (destroys step ≡ true → any reads front ≡ true)
unfolding plan_errors
plan_errors-guarded suffix exts front back step h =
    let steps = front ++ step ∷ back in
    let written = write_errors 1 [] steps in
    let read = read_errors 1 false steps in
    let scope = scope_errors suffix exts 1 steps in
    let count = count_errors steps in
    let front_part = append_nil_left ((count ++ scope) ++ read) written h in
    let few = append_nil_left count scope (append_nil_left (count ++ scope) read front_part) in
    let clear = append_nil_right (count ++ scope) read front_part in
    (count_errors-nil steps few, λ d. read_errors-guarded front back step 1 clear d)
