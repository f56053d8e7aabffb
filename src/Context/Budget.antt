-- ===== src/Context/Budget.antt =====
-- Whether a truncated text fits its budget.
use pearl_ai.Context.Tokens.{estimate_tokens, truncate_to_tokens, truncation_notice}
use text.Mathlib.TextLemmas.{nil-append, cons-append}
use Prim.Native.String
use pearl_ai.Base.{
  String, ℕ, ◌≡◌, refl, len_text, take_text, ap, arith, suc, zero, ◌+◌, ◌/◌, ◌<◌, ◌∙◌, ◌≤◌, Bool,
  Bool-cases, false, inl, inr, leb, true, ◌*◌, ◌-◌, ◌==◌, ◌||◌,
}

pub len_text-append : (a b : String) → len_text (String.◌++◌ a b) ≡ len_text a + len_text b
unfolding len_text
len_text-append String.[] b = ap len_text (nil-append b) ∙ (omega arith)
len_text-append (String.◌∷◌ c a) b =
    ap len_text (cons-append c a b) ∙ (omega (arith, len_text-append a b))

len_text-take_text : (n : ℕ) (s : String) → len_text (take_text n s) ≤ n
unfolding len_text take_text
len_text-take_text zero s = omega arith
len_text-take_text (suc n) String.[] = omega arith
len_text-take_text (suc n) (String.◌∷◌ c s) = omega (arith, len_text-take_text n s)

notice_length : len_text truncation_notice ≡ 46
unfolding len_text
notice_length = refl

-- The estimate of a text that is cut and gets the notice.
estimate-cut :
    (n : ℕ) (s : String)
    → estimate_tokens (String.◌++◌ (take_text n s) truncation_notice)
      ≡ (len_text (take_text n s) + 46) / 4
unfolding estimate_tokens
estimate-cut n s =
    let e : len_text (String.◌++◌ (take_text n s) truncation_notice)
        ≡ len_text (take_text n s) + 46 =
      len_text-append (take_text n s) truncation_notice
      ∙ ap (λ k. len_text (take_text n s) + k) notice_length in
    rw e (ground arith)

is_kept : String → ℕ → Bool
is_kept text m = m == 0 || leb (estimate_tokens text) m

truncate-kept : (text : String) (m : ℕ) → is_kept text m ≡ true → truncate_to_tokens text m ≡ text
unfolding truncate_to_tokens is_kept
truncate-kept text m b = rw (b, truncate_to_tokens) refl

truncate-cut :
    (text : String) (m : ℕ)
    → is_kept text m ≡ false
    → truncate_to_tokens text m ≡ String.◌++◌ (take_text (m * 4 - 46) text) truncation_notice
unfolding truncate_to_tokens is_kept
truncate-cut text m b = rw (b, notice_length, truncate_to_tokens) refl

kept→fits : (text : String) (m : ℕ) → 0 < m → is_kept text m ≡ true → estimate_tokens text ≤ m
unfolding is_kept
kept→fits text m p b = ground (arith, p, b)

over→cut : (text : String) (m : ℕ) → 0 < m → m < estimate_tokens text → is_kept text m ≡ false
unfolding is_kept
over→cut text m p h = ground (arith, p, h)

-- A truncated text fits a budget of 11 tokens or more. Under a smaller one, other than 0, a text that does
-- not fit is replaced by the notice, which is estimated at 11 tokens; under 0, the text is kept.
pub truncate_to_tokens-fits :
    (text : String) (max_tokens : ℕ)
    → (11 ≤ max_tokens → estimate_tokens (truncate_to_tokens text max_tokens) ≤ max_tokens)
      × (0 < max_tokens
          → max_tokens ≤ 11
          → max_tokens < estimate_tokens text
          → estimate_tokens (truncate_to_tokens text max_tokens) ≡ 11)
      × (truncate_to_tokens text 0 ≡ text)
truncate_to_tokens-fits text m = (
  λ h. elim (Bool-cases (is_kept text m)) [
    | inl b ↦ rw (truncate-kept text m b) (kept→fits text m (omega (arith, h)) b)
    | inr b ↦
        rw (truncate-cut text m b, estimate-cut (m * 4 - 46) text)
          (omega (arith, len_text-take_text (m * 4 - 46) text, h))
  ],
  λ p l h.
      let z : m * 4 - 46 ≡ 0 = omega (arith, l) in
      rw (truncate-cut text m (over→cut text m p h), estimate-cut (m * 4 - 46) text, z)
        (omega (arith, len_text-take_text 0 text)),
  truncate-kept text 0 (unfold is_kept in ground arith),
)
