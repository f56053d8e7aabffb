-- ===== src/Editor/Windows.antt =====
-- The regions that the searches hand out.
use Prim.Native.String.{◌++◌}
use pearl_ai.Editor.Replace.{Ratios}
use pearl_ai.Editor.Occurrences.{take-drop, drop-nil}
use pearl_ai.Editor.Texts.{slice, spaced, range}
use pearl_ai.Editor.Regions.{
  find_normalized, first_region, first_end, ends_of, normalize_ws, same_codes, Best, at_least_one,
  consider, best_region, coarse, refine_length, refine_offset, smaller, start_of, sweep_ends,
  sweep_starts, find_fuzzy, coarse_step, span,
}
use pearl_ai.Base.{
  String, ℕ, zero, suc, ◌+◌, ◌-◌, ◌≤◌, true, some, List, [], ◌∷◌, All, ◌≡◌, refl, sym, ◌∙◌, ap,
  subst, inl, inr, arith, Bool-cases, Option-cases, take_text, drop_text, ◌==◌, eqb→eq, and_left,
  and_right, leb, len_text, ltb, ◌/◌, ◌||◌, none, ◌*◌, false, str_eq,
}

drop-drop : (a i : ℕ) (s : String) → drop_text i (drop_text a s) ≡ drop_text (a + i) s
unfolding drop_text
drop-drop zero i s = let z : 0 + i ≡ i = omega arith in rw z refl
drop-drop (suc a) i String.[] = drop-nil i ∙ sym (drop-nil (suc a + i))
drop-drop (suc a) i (String.◌∷◌ c s) =
    let e : suc a + i ≡ suc (a + i) = omega arith in rw e (drop-drop a i s)

-- A text is what stands before, in and behind a region of it.
pub slice_split :
    (s : String) (a b : ℕ) → a ≤ b → s ≡ take_text a s ++ (slice s a b ++ drop_text b s)
unfolding slice
slice_split s a b l =
    let e : a + (b - a) ≡ b = omega arith in
    let rest : slice s a b ++ drop_text b s ≡ drop_text a s =
      ap (λ t. slice s a b ++ t) (sym (drop-drop a (b - a) s ∙ ap (λ n. drop_text n s) e))
      ∙ take-drop (b - a) (drop_text a s) in
    sym (ap (λ t. take_text a s ++ t) rest ∙ take-drop a s)

All-ge : (a b : ℕ) (es : List ℕ) → b ≤ a → All (λ e. a ≤ e) es → All (λ e. b ≤ e) es
All-ge a b [] l h = tt
All-ge a b (e ∷ es) l h = (omega (arith, l, h.0), All-ge a b es l h.1)

spaced-ge : (start step n : ℕ) → All (λ e. start ≤ e) (spaced start step n)
unfolding spaced
spaced-ge start step zero = tt
spaced-ge start step (suc n) = (
  omega arith,
  All-ge (start + step) start (spaced (start + step) step n) (omega arith)
      (spaced-ge (start + step) step n),
)

range-ge : (low from to step : ℕ) → low ≤ from → All (λ e. low ≤ e) (range from to step)
unfolding range
range-ge low from to step l =
    All-ge from low (range from to step) l (spaced-ge from step ((to - from + step - 1) / step))

same_codes-eq : (xs ys : List ℕ) → same_codes xs ys ≡ true → xs ≡ ys
unfolding same_codes
same_codes-eq [] [] h = refl
same_codes-eq [] (y ∷ ys) h = cc h
same_codes-eq (x ∷ xs) [] h = cc h
same_codes-eq (x ∷ xs) (y ∷ ys) h =
    let e : x ≡ y = eqb→eq x y (and_left (x == y) (same_codes xs ys) h) in
    rw e (ap (y ∷◌) (same_codes-eq xs ys (and_right (x == y) (same_codes xs ys) h)))

module _ (content search : String) where
  -- The region reads like the text that is searched, up to white space.
  abbrev Reads : ℕ → ℕ → Type 0
  Reads a b = (a ≤ b) × (normalize_ws (slice content a b) ≡ normalize_ws search)

  first_end-Reads :
      (start : ℕ) (ends : List ℕ) (b : ℕ)
      → All (λ e. start ≤ e) ends
      → first_end content search start ends ≡ some b
      → Reads start b
  unfolding first_end
  first_end-Reads start [] b l h = cc h
  first_end-Reads start (e ∷ es) b l h =
      elim (Bool-cases (same_codes (normalize_ws (slice content start e)) (normalize_ws search))) [
        | inl t ↦
            let same : e ≡ b = (let g : some e ≡ some b = rw (t, first_end) at h in cc g) in
            subst (Reads start) same (l.0, same_codes-eq _ _ t)
        | inr t ↦ first_end-Reads start es b l.1 (rw (t, first_end) at h)
      ]

  ends_of-ge : (s : ℕ) → All (λ e. s ≤ e) (ends_of content search s)
  ends_of-ge s =
      range-ge s (s + at_least_one (len_text search / 2))
        (smaller (s + (len_text search * 2 + 10)) (len_text content + 1)) 1 (omega arith)

  first_region-Reads :
      (starts : List ℕ) (a b : ℕ) → first_region content search starts ≡ some (a, b) → Reads a b
  unfolding first_region
  first_region-Reads [] a b h = cc h
  first_region-Reads (s ∷ ss) a b h =
      elim (Option-cases (first_end content search s (ends_of content search s))) [
        | inl e ↦ first_region-Reads ss a b (rw (e, first_region) at h)
        | inr (end, e) ↦
            let g : some (s, end) ≡ some (a, b) = rw (e, first_region) at h in
            let p : s ≡ a = cc g in
            let q : end ≡ b = cc g in
            let r = first_end-Reads s (ends_of content search s) end (ends_of-ge s) e in
            subst (λ n. Reads n b) p (subst (Reads s) q r)
      ]

  pub find_normalized-Reads : (a b : ℕ) → find_normalized content search ≡ some (a, b) → Reads a b
  unfolding find_normalized
  find_normalized-Reads a b h = first_region-Reads _ a b h

module _ (ratios : Ratios) (threshold : ratios.R) (content search : String) where
  open ratios use {R, zero_ratio, one_ratio, normalized_ratio, exceeds, similarity}

  -- A region that was considered, with its own ratio.
  abbrev IsScored : Best zero_ratio exceeds similarity → Type 0
  IsScored best =
      (a b : ℕ)
      → best.region ≡ some (a, b)
      → (a ≤ b) × (best.ratio ≡ similarity (slice content a b) search)

  consider-IsScored :
      (start end : ℕ) (best : Best zero_ratio exceeds similarity)
      → IsScored best
      → IsScored (consider zero_ratio exceeds similarity content search start end best)
  unfolding consider
  consider-IsScored start end best h =
      elim (Bool-cases (ltb (len_text content) end || leb end start)) [
        | inl t ↦ rw t h
        | inr t ↦
            elim (Bool-cases (exceeds (similarity (slice content start end) search) best.ratio)) [
              | inr u ↦ rw (t, u) h
              | inl u ↦
                  rw (t, u)
                    (λ a b e.
                      let p : start ≡ a = cc e in
                      let q : end ≡ b = cc e in
                      (
                        ground (arith, t, p, q),
                        ap (λ n. similarity (slice content n end) search) p
                            ∙ ap (λ n. similarity (slice content a n) search) q,
                      ))
            ]
      ]

  sweep_starts-IsScored :
      (starts : List ℕ) (best : Best zero_ratio exceeds similarity)
      → IsScored best
      → IsScored (sweep_starts zero_ratio exceeds similarity content search starts best)
  unfolding sweep_starts
  sweep_starts-IsScored [] best h = h
  sweep_starts-IsScored (s ∷ ss) best h =
      sweep_starts-IsScored ss _ (consider-IsScored s (s + len_text search) best h)

  sweep_ends-IsScored :
      (start : ℕ) (ends : List ℕ) (best : Best zero_ratio exceeds similarity)
      → IsScored best
      → IsScored (sweep_ends zero_ratio exceeds similarity content search start ends best)
  unfolding sweep_ends
  sweep_ends-IsScored start [] best h = h
  sweep_ends-IsScored start (e ∷ es) best h =
      sweep_ends-IsScored start es _ (consider-IsScored start e best h)

  coarse-IsScored : IsScored (coarse zero_ratio exceeds similarity content search)
  unfolding coarse
  coarse-IsScored =
      sweep_starts-IsScored
        (range 0 (at_least_one (len_text content - len_text search / 2))
          (coarse_step zero_ratio exceeds similarity search))
        (record { ratio = zero_ratio; region = none }) (λ a b e. cc e)

  refine_offset-IsScored :
      (start : ℕ) (best : Best zero_ratio exceeds similarity)
      → IsScored best
      → IsScored (refine_offset zero_ratio exceeds similarity content search start best)
  unfolding refine_offset
  refine_offset-IsScored start best h =
      let step = coarse_step zero_ratio exceeds similarity search in
      sweep_starts-IsScored (range (start - step) (start + step + 1) 1) best h

  refine_length-IsScored :
      (start : ℕ) (best : Best zero_ratio exceeds similarity)
      → IsScored best
      → IsScored (refine_length zero_ratio exceeds similarity content search start best)
  unfolding refine_length
  refine_length-IsScored start best h =
      let width = span zero_ratio exceeds similarity search in
      sweep_ends-IsScored start
        (range (start + len_text search - width) (start + len_text search + width + 1)
          (at_least_one (width / 8)))
        best h

  best_region-IsScored : IsScored (best_region zero_ratio exceeds similarity content search)
  unfolding best_region
  best_region-IsScored =
      let first = coarse zero_ratio exceeds similarity content search in
      let start = start_of zero_ratio exceeds similarity first in
      let second = refine_offset zero_ratio exceeds similarity content search start first in
      elim (Option-cases first.region) [
        | inl e ↦
            let same : best_region zero_ratio exceeds similarity content search ≡ first =
              rw (e, best_region) refl in
            subst IsScored (sym same) coarse-IsScored
        | inr (r, e) ↦
            let third =
              refine_length zero_ratio exceeds similarity content search
                (start_of zero_ratio exceeds similarity second) second in
            let same : best_region zero_ratio exceeds similarity content search ≡ third =
              rw (e, best_region) refl in
            subst IsScored (sym same) (
              refine_length-IsScored (start_of zero_ratio exceeds similarity second) second
                (refine_offset-IsScored start first coarse-IsScored))
      ]

  pub find_fuzzy-IsScored :
      (a b : ℕ) (sim : R)
      → find_fuzzy zero_ratio exceeds similarity content search threshold ≡ some ((a, b), sim)
      → (a ≤ b) × (sim ≡ similarity (slice content a b) search) × (exceeds threshold sim ≡ false)
  unfolding find_fuzzy
  find_fuzzy-IsScored a b sim h =
      let best = best_region zero_ratio exceeds similarity content search in
      elim (Bool-cases (str_eq search "" || str_eq content "")) [
        | inl t ↦ let g : none ≡ some ((a, b), sim) = rw (t, find_fuzzy) at h in cc g
        | inr t ↦ elim (Option-cases best.region) [
          | inl e ↦ let g : none ≡ some ((a, b), sim) = rw (t, e, find_fuzzy) at h in cc g
          | inr ((c, d), e) ↦ elim (Bool-cases (exceeds threshold best.ratio)) [
            | inl u ↦ let g : none ≡ some ((a, b), sim) = rw (t, e, u, find_fuzzy) at h in cc g
            | inr u ↦
                let g : some ((c, d), best.ratio) ≡ some ((a, b), sim) =
                  rw (t, e, u, find_fuzzy) at h in
                let r : best.ratio ≡ sim = cc g in
                let region : some (c, d) ≡ some (a, b) = cc g in
                let (l, scored) = best_region-IsScored a b (e ∙ region) in
                (l, sym r ∙ scored, subst (λ x. exceeds threshold x ≡ false) r u)
          ]
        ]
      ]
