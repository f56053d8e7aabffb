-- ===== src/Tests/Condensing.antt =====
-- A conversation of five turns, condensed around one turn at each end.
use pearl_ai.Context.Condenser.{ConversationTurn, Options, emergency, condense, can_condense}
use pearl_ai.Context.Middle.{Condensing, condense-Condensing}
use pearl_ai.Context.Tokens.{estimate_tokens, truncate_to_tokens}
use pearl_ai.Context.Budget.{truncate_to_tokens-fits}
use pearl_ai.Base.{String, ℕ, List, [], ◌∷◌, ◌≡◌, refl, some, length, Option, ◌+◌, ◌<◌, ◌≤◌}

abbrev said : String → ConversationTurn
said s = record { role = "user"; content = s; timestamp = "1" }

abbrev turns : List ConversationTurn
turns = said "fix the bug" ∷ said "a" ∷ said "b" ∷ said "c" ∷ said "thanks" ∷ []

abbrev options : Options
options = record {
  keep_head = 1;
  keep_tail = 1;
  max_turns = 40;
  threshold_num = 1;
  threshold_den = 2;
}

abbrev ask : List ConversationTurn → String
ask ts = "Summarise."

abbrev generate : String → ℕ → Option String × ℕ
generate p w = (some " short ", w + 1)

abbrev clock : ℕ → String × ℕ
clock w = ("2", w)

three_left : length (condense options ask generate clock emergency turns 0).1.0 ≡ 3
unfolding condense can_condense
three_left = refl

condense-Condensing_example :
    Condensing options turns 0 (condense options ask generate clock emergency turns 0)
condense-Condensing_example = condense-Condensing options ask generate clock emergency turns 0

truncate_to_tokens-fits_example :
    (11 ≤ 12 → estimate_tokens (truncate_to_tokens "words" 12) ≤ 12)
    × (0 < 12
        → 12 ≤ 11
        → 12 < estimate_tokens "words"
        → estimate_tokens (truncate_to_tokens "words" 12) ≡ 11)
    × (truncate_to_tokens "words" 0 ≡ "words")
truncate_to_tokens-fits_example = truncate_to_tokens-fits "words" 12
