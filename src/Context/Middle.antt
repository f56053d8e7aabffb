-- ===== src/Context/Middle.antt =====
-- What a condensation keeps of a conversation.
use pearl_ai.Context.Condenser.{
  ConversationTurn, Options, Outcome, Reason, CondensationResult, cannot_condense, result, condense,
  can_condense,
}
use pearl_ai.Base.{
  String, ℕ, true, List, [], ◌∷◌, ◌++◌, ◌≡◌, refl, Option, Bool-cases, ap, arith, drop, inl, inr,
  length, suc, take, zero, ◌+◌, ◌-◌, ◌≤◌, false, length-append, ltb→le, ltb→lt, sym, ◌<◌, ◌∙◌,
}

module _ {ℓ} {A : Type ℓ} where
  take-drop : (n : ℕ) (xs : List A) → take n xs ++ drop n xs ≡ xs
  take-drop zero xs = refl
  take-drop (suc n) [] = refl
  take-drop (suc n) (x ∷ xs) = ap (λ ys. x ∷ ys) (take-drop n xs)

  length-take : (n : ℕ) (xs : List A) → n ≤ length xs → length (take n xs) ≡ n
  length-take zero xs h = refl
  length-take (suc n) [] h = absurd (omega (arith, h))
  length-take (suc n) (x ∷ xs) h = omega (arith, length-take n xs (omega (arith, h)))

  length-drop : (n : ℕ) (xs : List A) → length (drop n xs) ≡ length xs - n
  length-drop zero xs = omega arith
  length-drop (suc n) [] = omega arith
  length-drop (suc n) (x ∷ xs) = omega (arith, length-drop n xs)

  -- The head, the middle and the tail.
  three-parts :
      (m n : ℕ) (xs : List A) → m ≤ n → take m xs ++ (drop m (take n xs) ++ drop n xs) ≡ xs
  three-parts zero n xs h = take-drop n xs
  three-parts (suc m) zero xs h = absurd (omega (arith, h))
  three-parts (suc m) (suc n) [] h = refl
  three-parts (suc m) (suc n) (x ∷ xs) h = ap (λ ys. x ∷ ys) (three-parts m n xs (omega (arith, h)))

-- How a condensation goes: too short a conversation is left alone; in any other, the turns in the middle,
-- two at least, give way to one summary.
pub data Condensing {W : Type 0} (o : Options) (turns : List ConversationTurn) (w : W)
    (res : Outcome × (List ConversationTurn × W)) : Type 0 where
  too_short :
      length turns ≤ o.keep_head + o.keep_tail + 1
      → res ≡ (cannot_condense (length turns), (turns, w))
      → Condensing o turns w res
  shortened :
      (head middle tail : List ConversationTurn)
      → (summary : ConversationTurn) → (r : CondensationResult) → turns ≡ head ++ (middle ++ tail)
      → (length head ≡ o.keep_head) × (length tail ≡ o.keep_tail) × (2 ≤ length middle)
      → res.0 ≡ result r
      → res.1.0 ≡ head ++ summary ∷ tail
      → (summary.role ≡ "summary")
        × (r.condensed ≡ true)
        × (r.turns_before ≡ length turns)
        × (r.turns_after ≡ o.keep_head + 1 + o.keep_tail)
      → Condensing o turns w res

module _ {W : Type 0} (o : Options) (prompt : List ConversationTurn → String)
    (generate : String → W → Option String × W) (clock : W → String × W) (reason : Reason)
    (turns : List ConversationTurn) (w : W) where
  enough : can_condense o turns ≡ true → o.keep_head + o.keep_tail + 1 < length turns
  unfolding can_condense
  enough b = ltb→lt _ _ b

  few : can_condense o turns ≡ false → length turns ≤ o.keep_head + o.keep_tail + 1
  unfolding can_condense
  few b = ltb→le _ _ b

  sizes :
      o.keep_head + o.keep_tail + 1 < length turns
      → (length (take o.keep_head turns) ≡ o.keep_head)
        × (length (drop (length turns - o.keep_tail) turns) ≡ o.keep_tail)
        × (2 ≤ length (drop o.keep_head (take (length turns - o.keep_tail) turns)))
  sizes h =
      let n = length turns - o.keep_tail in
      (
        length-take o.keep_head turns (omega (arith, h)),
        omega (arith, length-drop n turns, h),
        omega (arith, length-drop o.keep_head (take n turns), length-take n turns (omega arith), h),
      )

  -- A condensation fails on at most one turn more than the head and the tail take, and leaves the
  -- conversation as it is; on any longer one it keeps head and tail and puts one summary for the two or more
  -- turns between them.
  pub condense-Condensing : Condensing o turns w (condense o prompt generate clock reason turns w)
  unfolding condense can_condense
  condense-Condensing = elim (Bool-cases (can_condense o turns)) [
    | inr b ↦ too_short (few b) (rw b refl)
    | inl b ↦
        let n = length turns - o.keep_tail in
        let h = sizes (enough b) in
        rw b (
          shortened (take o.keep_head turns) (drop o.keep_head (take n turns)) (drop n turns) _ _
            (sym (three-parts o.keep_head n turns (omega (arith, enough b)))) h refl refl
            (
              refl,
              refl,
              refl,
              length-append (take o.keep_head turns) _ ∙ (omega (arith, h.0, h.1)),
            ))
  ]
