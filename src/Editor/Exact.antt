-- ===== src/Editor/Exact.antt =====
-- The loop over the exact occurrences against str.replace and str.count.
use Prim.Native.String.{◌++◌}
use text.Mathlib.TextLemmas.{nil-append, append_assoc}
use pearl_ai.Editor.Occurrences.{find-Found, drop-append, take-append, find-none}
use pearl_ai.Editor.Texts.{find, find_from, splice, replace_from, count_from}
use pearl_ai.Editor.Regions.{smaller}
use pearl_ai.Editor.Replace.{replace_loop}
use pearl_ai.Context.Budget.{len_text-append}
use pearl_ai.Base.{
  String, ℕ, zero, suc, ◌+◌, ◌≤◌, none, some, ◌≡◌, ◌≢◌, refl, sym, ◌∙◌, ap, arith, take_text,
  drop_text, len_text, Option-cases, inl, inr,
}

pair_eq : {a b : String} {m n : ℕ} → a ≡ b → m ≡ n → ◌≡◌ {A = String × ℕ} (a, m) (b, n)
pair_eq p q = λ i. (p i, q i)

-- The search starts behind what is done.
find_from-append :
    (p done rest : String)
    → find_from p (done ++ rest) (len_text done)
      ≡ (elim (find p rest) [ none ↦ none | some i ↦ some (len_text done + i) ])
unfolding find_from drop_text
find_from-append p done rest =
    let z : len_text done ≡ len_text done + 0 = omega arith in
    let e : drop_text (len_text done) (done ++ rest) ≡ rest =
      ap (λ n. drop_text n (done ++ rest)) z ∙ drop-append done rest 0 in
    rw (e, find_from) refl

splice-append :
    (done rest r : String) (i j : ℕ)
    → splice (done ++ rest) (len_text done + i) (len_text done + j) r
      ≡ ((done ++ take_text i rest) ++ r) ++ drop_text j rest
unfolding splice
splice-append done rest r i j =
    rw (take-append done rest i, drop-append done rest j)
      (sym (append_assoc (done ++ take_text i rest) r (drop_text j rest)))

module _ (p r : String) (full : p ≢ "") where
  loop_none :
      (n : ℕ) (done rest : String) (k : ℕ)
      → find p rest ≡ none
      → replace_loop n p r (done ++ rest) (len_text done) k ≡ (done ++ rest, k)
  unfolding replace_loop
  loop_none zero done rest k e = refl
  loop_none (suc n) done rest k e =
      let f : find_from p (done ++ rest) (len_text done) ≡ none =
        find_from-append p done rest ∙ (rw e refl) in
      rw (f, replace_loop) refl

  -- A round of the loop.
  loop_some :
      (n : ℕ) (done rest : String) (k i : ℕ)
      → find p rest ≡ some i
      → replace_loop (suc n) p r (done ++ rest) (len_text done) k
        ≡ replace_loop n p r
            (((done ++ take_text i rest) ++ r) ++ drop_text (i + len_text p) rest)
            (len_text ((done ++ take_text i rest) ++ r))
            (k + 1)
  unfolding replace_loop
  loop_some n done rest k i e =
      let f : find_from p (done ++ rest) (len_text done) ≡ some (len_text done + i) =
        find_from-append p done rest ∙ (rw e refl) in
      let found = find-Found p r full rest i e in
      let wide : len_text done + i + len_text r ≡ len_text ((done ++ take_text i rest) ++ r) =
        omega (
          arith,
          found.width,
          len_text-append (done ++ take_text i rest) r,
          len_text-append done (take_text i rest),
        ) in
      let here : len_text done + i + len_text p ≡ len_text done + (i + len_text p) = omega arith in
      rw (f, replace_loop) (rw (here, splice-append done rest r i (i + len_text p), wide) refl)

  no_more :
      (n : ℕ) (done rest : String) (k : ℕ)
      → find p rest ≡ none
      → replace_loop n p r (done ++ rest) (len_text done) k
        ≡ (done ++ replace_from p r 0 rest, k + count_from p 0 rest)
  no_more n done rest k e =
      let (kept, zero_count) = find-none p r full rest e in
      loop_none n done rest k e
      ∙ pair_eq (ap (λ t. done ++ t) (sym kept)) (omega (arith, zero_count))

  replace_loop-append :
      (n : ℕ) (done rest : String) (k : ℕ)
      → count_from p 0 rest ≤ n
      → replace_loop n p r (done ++ rest) (len_text done) k
        ≡ (done ++ replace_from p r 0 rest, k + count_from p 0 rest)
  replace_loop-append zero done rest k l = elim (Option-cases (find p rest)) [
    | inl e ↦ no_more zero done rest k e
    | inr (i, e) ↦
        let found = find-Found p r full rest i e in absurd (omega (arith, found.counted, l))
  ]
  replace_loop-append (suc n) done rest k l = elim (Option-cases (find p rest)) [
    | inl e ↦ no_more (suc n) done rest k e
    | inr (i, e) ↦
        let found = find-Found p r full rest i e in
        let done' = (done ++ take_text i rest) ++ r in
        let rest' = drop_text (i + len_text p) rest in
        loop_some n done rest k i e
        ∙ replace_loop-append n done' rest' (k + 1) (omega (arith, found.counted, l))
        ∙ pair_eq
            (append_assoc (done ++ take_text i rest) r (replace_from p r 0 rest')
              ∙ append_assoc done (take_text i rest) (r ++ replace_from p r 0 rest')
              ∙ ap (λ t. done ++ t) (sym found.replaced))
            (omega (arith, found.counted))
  ]

  replace_loop-counts :
      (n : ℕ) (done rest : String) (k : ℕ)
      → (replace_loop n p r (done ++ rest) (len_text done) k).1
        ≡ k + smaller n (count_from p 0 rest)
  replace_loop-counts zero done rest k = unfold replace_loop in ground arith
  replace_loop-counts (suc n) done rest k = elim (Option-cases (find p rest)) [
    | inl e ↦ rw (loop_none (suc n) done rest k e) (ground (arith, (find-none p r full rest e).1))
    | inr (i, e) ↦
        let found = find-Found p r full rest i e in
        let done' = (done ++ take_text i rest) ++ r in
        let rest' = drop_text (i + len_text p) rest in
        rw (loop_some n done rest k i e)
          (ground (arith, replace_loop-counts n done' rest' (k + 1), found.counted))
  ]

  -- For a text that is not empty, the loop replaces as many occurrences as it has rounds, or all that there
  -- are. With a round for each of them, it makes the text that str.replace makes.
  pub replace_loop-all :
      (n : ℕ) (content : String)
      → ((replace_loop n p r content 0 0).1 ≡ smaller n (count_from p 0 content))
        × (count_from p 0 content ≤ n
            → replace_loop n p r content 0 0 ≡ (replace_from p r 0 content, count_from p 0 content))
  unfolding len_text
  replace_loop-all n content =
      let start : replace_loop n p r ("" ++ content) (len_text "") 0
          ≡ replace_loop n p r content 0 0 =
        ap (λ t. replace_loop n p r t 0 0) (nil-append content) in
      (
        ap (λ x. x.1) (sym start) ∙ replace_loop-counts n "" content 0 ∙ (omega arith),
        λ l.
            sym start
            ∙ replace_loop-append n "" content 0 l
            ∙ pair_eq (nil-append (replace_from p r 0 content)) (omega arith),
      )
