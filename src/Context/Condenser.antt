-- ===== src/Context/Condenser.antt =====
-- src/agent/condenser.py. The model's client, `str.upper` and the clock are parameters.
use pearl_ai.Context.Tokens.{estimate_tokens}
use Prim.Native.Char.{code}
use Prim.Native.String
use pearl_ai.Base.{
  String, ℕ, Bool, List, [], ◌∷◌, ◌++◌, Option, none, some, drop, false, if◌then◌else◌, join,
  len_text, length, ltb, map, show_nat, strip, take, take_text, text_of, true, ◌*◌, ◌+◌, ◌-◌, ◌==◌,
}

-- src/memory/memory.py
pub record ConversationTurn : Type 0 where
  pub role : String
  pub content : String
  pub timestamp : String

-- Why a condensation ran or did not.
pub data Reason : Type 0 where
  token_pressure : (tokens n_ctx : ℕ) → Reason
  turn_count : (turns : ℕ) → Reason
  not_needed : (tokens turns : ℕ) → Reason
  emergency : Reason

pub record CondensationResult : Type 0 where
  pub condensed : Bool
  pub turns_before : ℕ
  pub turns_after : ℕ
  pub tokens_before : ℕ
  pub tokens_after : ℕ
  pub reason : Reason

-- CannotCondenseError, or a result.
pub data Outcome : Type 0 where
  cannot_condense : (turns : ℕ) → Outcome
  result : CondensationResult → Outcome

-- The settings, with the threshold as a fraction.
pub record Options : Type 0 where
  pub keep_head : ℕ
  pub keep_tail : ℕ
  pub max_turns : ℕ
  pub threshold_num : ℕ
  pub threshold_den : ℕ

-- `_conversation_tokens`
unfoldable pub conversation_tokens : List ConversationTurn → ℕ
unfolding estimate_tokens
conversation_tokens [] = 0
conversation_tokens (t ∷ ts) = estimate_tokens t.content + conversation_tokens ts

-- `tokens / max(1, n_ctx) > threshold`
unfoldable pub is_pressed : Options → ℕ → ℕ → Bool
is_pressed o tokens n_ctx =
    ltb (o.threshold_num * (if ltb n_ctx 1 then 1 else n_ctx)) (tokens * o.threshold_den)

unfoldable pub should_condense : Options → List ConversationTurn → ℕ → Bool × Reason
unfolding conversation_tokens is_pressed
should_condense o turns n_ctx =
    let tokens = conversation_tokens turns in
    if is_pressed o tokens n_ctx
    then (true, token_pressure tokens n_ctx)
    else if ltb o.max_turns (length turns)
    then (true, turn_count (length turns))
    else (false, not_needed tokens (length turns))

unfoldable pub can_condense : Options → List ConversationTurn → Bool
can_condense o turns = ltb (o.keep_head + o.keep_tail + 1) (length turns)

-- `text.replace("\n", " ")`
unfoldable pub spaced : String → String
spaced String.[] = ""
spaced (String.◌∷◌ c s) =
    let rest = spaced s in if code c == 10 then String.◌++◌ " " rest else String.◌∷◌ c rest

unfoldable pub fallback_line : ConversationTurn → String
unfolding text_of spaced take_text len_text
fallback_line t = text_of (
    "- ["
    ∷ t.role
    ∷ "]: "
    ∷ spaced (take_text 200 t.content)
    ∷ (if ltb 200 (len_text t.content) then "…" else "")
    ∷ [])

-- `_fallback_summary`
unfoldable pub fallback_summary : List ConversationTurn → String
unfolding text_of join show_nat fallback_line
fallback_summary middle = join "\n" (
    text_of
      ("[Context Summary — " ∷ show_nat (length middle) ∷ " turns condensed (fallback)]\n" ∷ [])
    ∷ map fallback_line middle)

module _ {W : Type 0} (o : Options) (prompt : List ConversationTurn → String)
    (generate : String → W → Option String × W) (clock : W → String × W) where
  abbrev pub summary_of : List ConversationTurn → Option String → String
  summary_of middle none = fallback_summary middle
  summary_of middle (some summary) = text_of (
      "[Context Summary — "
      ∷ show_nat (length middle)
      ∷ " turns condensed]\n\n"
      ∷ strip summary
      ∷ [])

  -- `_summarise`; `prompt` is the request with the formatted turns in it.
  unfoldable pub summarise : List ConversationTurn → W → String × W
  unfolding text_of show_nat strip fallback_summary
  summarise middle w =
      let (answer, w') = generate (prompt middle) w in (summary_of middle answer, w')

  unfoldable pub condense :
      Reason → List ConversationTurn → W → Outcome × (List ConversationTurn × W)
  unfolding can_condense summarise conversation_tokens
  condense reason turns w =
      let n = length turns in
      let head = take o.keep_head turns in
      let tail = drop (n - o.keep_tail) turns in
      let middle = drop o.keep_head (take (n - o.keep_tail) turns) in
      let (summary, w1) = summarise middle w in
      let (now, w2) = clock w1 in
      let turn : ConversationTurn = record {
        role = "summary";
        content = summary;
        timestamp = now;
      } in
      let after = head ++ turn ∷ tail in
      if can_condense o turns
      then (
        result (record {
          condensed = true;
          turns_before = n;
          turns_after = length after;
          tokens_before = conversation_tokens turns;
          tokens_after = conversation_tokens after;
          reason = reason;
        }),
        (after, w2),
      )
      else (cannot_condense n, (turns, w))

  unfoldable pub maybe_condense :
      ℕ → List ConversationTurn → W → Outcome × (List ConversationTurn × W)
  unfolding should_condense condense
  maybe_condense n_ctx turns w =
      let (should, reason) = should_condense o turns n_ctx in
      let tokens = conversation_tokens turns in
      if should then condense reason turns w else (
        result (record {
          condensed = false;
          turns_before = length turns;
          turns_after = length turns;
          tokens_before = tokens;
          tokens_after = tokens;
          reason = reason;
        }),
        (turns, w),
      )
