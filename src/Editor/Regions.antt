-- ===== src/Editor/Regions.antt =====
-- The searches of src/tools/search_replace_editor.py that are not exact.
use pearl_ai.Editor.Texts.{slice, range}
use pearl_ai.Tools.Filter.{collapse}
use pearl_ai.Base.{
  String, ℕ, ◌+◌, ◌-◌, ◌*◌, ◌/◌, Bool, true, false, Option, none, some, List, [], ◌∷◌, ◌&&◌, ◌||◌,
  ◌==◌, codes, len_text, str_eq, ltb, leb, if◌then◌else◌, is_empty,
}

abbrev pub at_least_one : ℕ → ℕ
at_least_one n = if n == 0 then 1 else n

abbrev pub smaller : ℕ → ℕ → ℕ
smaller a b = if ltb b a then b else a

-- `strip` of a text in which every white space is a blank
unfoldable pub strip_blanks_left : List ℕ → List ℕ
strip_blanks_left [] = []
strip_blanks_left (c ∷ cs) = if c == 32 then strip_blanks_left cs else c ∷ cs

unfoldable pub strip_blanks_right : List ℕ → List ℕ
strip_blanks_right [] = []
strip_blanks_right (c ∷ cs) =
    let rest = strip_blanks_right cs in if (c == 32) && is_empty rest then [] else c ∷ rest

-- `_normalize_ws`, as code points
unfoldable pub normalize_ws : String → List ℕ
unfolding collapse strip_blanks_left strip_blanks_right
normalize_ws text = strip_blanks_left (strip_blanks_right (collapse false (codes text)))

unfoldable pub same_codes : List ℕ → List ℕ → Bool
same_codes [] [] = true
same_codes [] (c ∷ cs) = false
same_codes (d ∷ ds) [] = false
same_codes (d ∷ ds) (c ∷ cs) = (d == c) && same_codes ds cs

-- The inner loop: the first end that fits.
unfoldable pub first_end : String → String → ℕ → List ℕ → Option ℕ
unfolding normalize_ws same_codes slice
first_end content search start [] = none
first_end content search start (end ∷ ends) =
    let rest = first_end content search start ends in
    if same_codes (normalize_ws (slice content start end)) (normalize_ws search)
    then some end
    else rest

-- The ends that are tried for a start.
abbrev pub ends_of : String → String → ℕ → List ℕ
ends_of content search start =
    range (start + at_least_one (len_text search / 2))
      (smaller (start + (len_text search * 2 + 10)) (len_text content + 1)) 1

unfoldable pub first_region : String → String → List ℕ → Option (ℕ × ℕ)
unfolding first_end range
first_region content search [] = none
first_region content search (start ∷ starts) =
    elim (first_end content search start (ends_of content search start)) [
      | some end ↦ some (start, end)
      | none ↦ first_region content search starts
    ]

-- `_find_normalized`
unfoldable pub find_normalized : String → String → Option (ℕ × ℕ)
unfolding first_region range len_text
find_normalized content search =
    first_region content search (range 0 (len_text content) (at_least_one (len_text search / 4)))

-- The ratios of difflib's SequenceMatcher: their type, 0.0, `a > b`, and the ratio of two texts.
module _ {R : Type 0} (zero_ratio : R) (exceeds : R → R → Bool)
    (similarity : String → String → R) where
  -- `best_ratio`, with `best_start` and `best_end`; `none` stands for -1.
  pub record Best : Type 0 where
    pub ratio : R
    pub region : Option (ℕ × ℕ)

  -- `consider`; a start below 0 is not handed to it.
  unfoldable pub consider : String → String → ℕ → ℕ → Best → Best
  unfolding slice len_text
  consider content search start end best =
      let found = similarity (slice content start end) search in
      if ltb (len_text content) end || leb end start
      then best
      else if exceeds found best.ratio
      then record { ratio = found; region = some (start, end) }
      else best

  -- The sweeps: one window for each start, and one for each end.
  unfoldable pub sweep_starts : String → String → List ℕ → Best → Best
  unfolding consider len_text
  sweep_starts content search [] best = best
  sweep_starts content search (start ∷ starts) best =
      sweep_starts content search starts
        (consider content search start (start + len_text search) best)

  unfoldable pub sweep_ends : String → String → ℕ → List ℕ → Best → Best
  unfolding consider
  sweep_ends content search start [] best = best
  sweep_ends content search start (end ∷ ends) best =
      sweep_ends content search start ends (consider content search start end best)

  abbrev pub coarse_step : String → ℕ
  coarse_step search = at_least_one (len_text search / 4)

  unfoldable pub coarse : String → String → Best
  unfolding sweep_starts range len_text
  coarse content search =
      sweep_starts content search
        (range 0 (at_least_one (len_text content - len_text search / 2)) (coarse_step search))
        (record { ratio = zero_ratio; region = none })

  -- The starts below 0 of the range are those that `consider` drops.
  unfoldable pub refine_offset : String → String → ℕ → Best → Best
  unfolding sweep_starts range len_text
  refine_offset content search start best =
      sweep_starts content search
        (range (start - coarse_step search) (start + coarse_step search + 1) 1) best

  abbrev pub span : String → ℕ
  span search = at_least_one (len_text search / 2)

  -- The ends `start + search_len + delta`.
  unfoldable pub refine_length : String → String → ℕ → Best → Best
  unfolding sweep_ends range len_text
  refine_length content search start best =
      sweep_ends content search start
        (range (start + len_text search - span search) (start + len_text search + span search + 1)
          (at_least_one (span search / 8)))
        best

  abbrev pub start_of : Best → ℕ
  start_of best = elim best.region [ none ↦ 0 | some (start, end) ↦ start ]

  -- The three passes, if the first one finds anything.
  unfoldable pub best_region : String → String → Best
  unfolding coarse refine_offset refine_length
  best_region content search =
      let first = coarse content search in
      let second = refine_offset content search (start_of first) first in
      let third = refine_length content search (start_of second) second in
      elim first.region [ none ↦ first | some r ↦ third ]

  -- `_find_fuzzy`: the region and its ratio
  unfoldable pub find_fuzzy : String → String → R → Option ((ℕ × ℕ) × R)
  unfolding best_region
  find_fuzzy content search threshold =
      let best = best_region content search in
      if str_eq search "" || str_eq content "" then none else elim best.region [
        | none ↦ none
        | some r ↦ if exceeds threshold best.ratio then none else some (r, best.ratio)
      ]
