-- ===== src/Editor/Changed.antt =====
-- What a replacement changes.
use Prim.Native.String.{◌++◌}
use pearl_ai.Editor.Replace.{
  Ratios, Count, MatchStrategy, apply_replacement, empty_search, exact, exact_result, failed, fuzzy,
  normalized, replace_exact, replace_fuzzy, replace_normalized, replaced,
}
use pearl_ai.Editor.Texts.{slice, find, splice}
use pearl_ai.Editor.Regions.{find_normalized, normalize_ws, find_fuzzy}
use pearl_ai.Base.{
  String, ℕ, some, ◌≡◌, refl, sym, ◌∙◌, subst, inl, inr, Bool-cases, Option-cases, take_text,
  drop_text, none, Option, false, str_eq, ◌⊎◌,
}
use pearl_ai.Editor.Windows.{slice_split, find_normalized-Reads, find_fuzzy-IsScored}

pair_of : (x : String × ℕ) (a : String) (n : ℕ) → x.0 ≡ a → x.1 ≡ n → ◌≡◌ {A = String × ℕ} (a, n) x
pair_of x a n p q = λ i. (sym p i, sym q i)

module _ (ratios : Ratios) (threshold : ratios.R) (content search : String) where
  open ratios use {R, zero_ratio, one_ratio, normalized_ratio, exceeds, similarity}

  -- What a replacement is: of exact occurrences, or of one region that reads like the text up to white
  -- space, or is as similar to it as the threshold asks.
  pub data IsReplaced (replace : String) (how_many : Count) (updated : String) (how : MatchStrategy)
      (sim : R) (n : ℕ) : Type 0 where
    by_text :
        how ≡ exact
        → sim ≡ one_ratio
        → (updated, n) ≡ replace_exact how_many search replace content
        → ((i : ℕ) × (find search content ≡ some i))
        → IsReplaced replace how_many updated how sim n
    by_region :
        (front region back : String)
        → content ≡ front ++ (region ++ back)
        → updated ≡ front ++ (replace ++ back)
        → n ≡ 1
        → find search content ≡ none
        → ((how ≡ normalized)
            × (sim ≡ normalized_ratio)
            × (normalize_ws region ≡ normalize_ws search))
          ⊎ ((how ≡ fuzzy) × (sim ≡ similarity region search) × (exceeds threshold sim ≡ false))
        → IsReplaced replace how_many updated how sim n

  module _ (replace : String) (how_many : Count) (updated : String) (how : MatchStrategy) (sim : R)
      (n : ℕ) (absent : find search content ≡ none) where
    fuzzy-IsReplaced :
        (o : Option ((ℕ × ℕ) × R))
        → find_fuzzy zero_ratio exceeds similarity content search threshold ≡ o
        → replace_fuzzy ratios threshold content replace o ≡ replaced updated how sim n
        → IsReplaced replace how_many updated how sim n
    unfolding replace_fuzzy splice
    fuzzy-IsReplaced none e h = cc h
    fuzzy-IsReplaced (some ((a, b), x)) e h =
        let (l, scored, enough) = find_fuzzy-IsScored ratios threshold content search a b x e in
        let same : x ≡ sim = cc h in
        by_region (take_text a content) (slice content a b) (drop_text b content)
          (slice_split content a b l) (cc h) (cc h) absent
          (inr (cc h, sym same ∙ scored, subst (λ y. exceeds threshold y ≡ false) same enough))

    region-IsReplaced :
        (o : Option (ℕ × ℕ))
        → find_normalized content search ≡ o
        → replace_normalized ratios threshold content replace o (
            replace_fuzzy ratios threshold content replace
              (find_fuzzy zero_ratio exceeds similarity content search threshold))
          ≡ replaced updated how sim n
        → IsReplaced replace how_many updated how sim n
    unfolding replace_normalized splice
    region-IsReplaced none e h = fuzzy-IsReplaced _ refl h
    region-IsReplaced (some (a, b)) e h =
        let (l, reads) = find_normalized-Reads content search a b e in
        by_region (take_text a content) (slice content a b) (drop_text b content)
          (slice_split content a b l) (cc h) (cc h) absent (inl (cc h, cc h, reads))

  -- A replacement that succeeds changes the occurrences of the text that is searched, or, where there is
  -- none, one region of the content and nothing in front of it or behind it: a region that is equal to the
  -- text up to white space, or one whose ratio to the text reaches the threshold.
  pub apply_replacement-IsReplaced :
      (replace : String) (how_many : Count) (updated : String) (how : MatchStrategy) (sim : R)
      (n : ℕ)
      → apply_replacement ratios threshold content search replace how_many
        ≡ replaced updated how sim n
      → IsReplaced replace how_many updated how sim n
  unfolding apply_replacement exact_result
  apply_replacement-IsReplaced replace how_many updated how sim n h =
      elim (Bool-cases (str_eq search "")) [
        | inl t ↦
            let g : failed empty_search ≡ replaced updated how sim n =
              rw (t, apply_replacement) at h in
            cc g
        | inr t ↦ elim (Option-cases (find search content)) [
          | inl e ↦
              region-IsReplaced replace how_many updated how sim n e _ refl
                (rw (t, e, apply_replacement) at h)
          | inr (i, e) ↦
              let out = replace_exact how_many search replace content in
              let g : exact_result ratios threshold out ≡ replaced updated how sim n =
                rw (t, e, apply_replacement) at h in
              by_text (cc g) (cc g) (pair_of out updated n (cc g) (cc g)) (i, e)
        ]
      ]
