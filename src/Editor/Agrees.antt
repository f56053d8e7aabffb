-- ===== src/Editor/Agrees.antt =====
-- What validate foretells of apply.
use pearl_ai.Editor.Texts.{begins, splice, find}
use pearl_ai.Editor.Regions.{find_normalized, find_fuzzy}
use pearl_ai.Editor.Replace.{
  Ratios, Count, MatchStrategy, exact, normalized, fuzzy, Replacement, replaced, failed,
  empty_search, no_match, apply_replacement, replace_exact, Resolved,
}
use pearl_ai.Editor.Tool.{search_content}
use pearl_ai.Changes.Files.{FileSystem}
use pearl_ai.Base.{
  String, ℕ, Bool, true, false, Option, ◌≡◌, ◌≢◌, refl, inl, inr, Bool-cases, Option-cases, str_eq,
  eq_iff, ◌⊎◌, ap, some, ◌∙◌,
}

find-empty : (content : String) → find "" content ≡ some 0
unfolding find begins
find-empty String.[] = refl
find-empty (String.◌∷◌ c s) = refl

module _ (ratios : Ratios) (threshold : ratios.R)
    (unified_diff : String → Option String → Option String → String) (fs : FileSystem)
    (resolve : String → Resolved ratios threshold unified_diff fs) (content wanted replace : String)
    (how_many : Count) where
  open ratios use {R, zero_ratio, one_ratio, normalized_ratio, exceeds, similarity}

  -- What `validate` answers for the content.
  abbrev pub answer : Bool × R
  answer = search_content ratios threshold unified_diff fs resolve content wanted

  -- What `apply` makes of it.
  abbrev pub made : Replacement ratios threshold
  made = apply_replacement ratios threshold content wanted replace how_many

  -- For a text that is not empty, validate answers no exactly when an edit finds no match, and an edit that
  -- finds one has the score that validate answers. The empty text is always found by validate and always
  -- refused by an edit.
  pub search_content-agrees :
      (wanted ≢ ""
        → ((answer.0 ≡ false) × (made ≡ failed no_match))
          ⊎ ((answer.0 ≡ true)
              × ((updated : String) × (how : MatchStrategy) × (n : ℕ) × (made
                    ≡ replaced updated how answer.1 n))))
      × (wanted ≡ "" → (answer.0 ≡ true) × (made ≡ failed empty_search))
  unfolding search_content apply_replacement
  search_content-agrees = (
    λ full.
        let t : str_eq wanted "" ≡ false = not_empty full in
        elim (Option-cases (find wanted content)) [
          | inr (i, e) ↦
              let out = replace_exact how_many wanted replace content in
              inr (
                rw (e, search_content) refl,
                (out.0, exact, out.1, rw (t, e, apply_replacement, search_content) refl),
              )
          | inl e ↦ elim (Option-cases (find_normalized content wanted)) [
            | inr ((a, b), f) ↦ inr (
              rw (e, f, search_content) refl,
              (
                splice content a b replace,
                normalized,
                1,
                rw (t, e, f, apply_replacement, search_content) refl,
              ),
            )
            | inl f ↦
                elim (Option-cases
                  (find_fuzzy zero_ratio exceeds similarity content wanted threshold)) [
                    | inr (((a, b), x), g) ↦ inr (
                      rw (e, f, g, search_content) refl,
                      (
                        splice content a b replace,
                        fuzzy,
                        1,
                        rw (t, e, f, g, apply_replacement, search_content) refl,
                      ),
                    )
                    | inl g ↦
                        inl (
                          rw (e, f, g, search_content) refl,
                          rw (t, e, f, g, apply_replacement) refl,
                        )
                  ]
          ]
        ],
    λ h. (
      rw (ap (λ w. find w content) h ∙ find-empty content, search_content) refl,
      rw ((eq_iff wanted "").1 h, apply_replacement) refl,
    ),
  )
    where
      not_empty : wanted ≢ "" → str_eq wanted "" ≡ false
      not_empty full = elim (Bool-cases (str_eq wanted "")) [
        | inl b ↦ absurd (full ((eq_iff wanted "").0 b))
        | inr b ↦ b
      ]
