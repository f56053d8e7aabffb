-- ===== src/Planner/Intent.antt =====
-- src/agent/conversational.py: requests that need no tools, and requests that say nothing.
use pearl_ai.Base.{
  Bool, ltb, String, ℕ, true, false, List, [], ◌∷◌, str_eq, strip, is_space, one_of, length, ◌==◌,
  not, if◌then◌else◌, ◌||◌,
}
use Prim.Native.Char.{code}
use mathlib.Core.List.{map}

-- `text.split()`: the characters before the first white space, and the words behind them.
abbrev with_word : String → List String → List String
with_word w ws = if str_eq w "" then ws else w ∷ ws

unfoldable pub cut_word : String → String × List String
unfolding is_space
cut_word String.[] = ("", [])
cut_word (String.◌∷◌ c s) =
    let (w, ws) = cut_word s in
    if is_space (code c) then ("", with_word w ws) else (String.◌∷◌ c w, ws)

unfoldable pub split : String → List String
unfolding cut_word
split s = let (w, ws) = cut_word s in with_word w ws

-- The characters of `text.strip(…)`: back quote, quotes, full stop, comma, exclamation and question marks.
abbrev punctuation : List ℕ
punctuation = 96 ∷ 39 ∷ 34 ∷ 46 ∷ 44 ∷ 33 ∷ 63 ∷ []

unfoldable pub is_punctuation : ℕ → List ℕ → Bool
is_punctuation c [] = false
is_punctuation c (p ∷ ps) = p == c || is_punctuation c ps

unfoldable pub strip_start : String → String
unfolding is_punctuation
strip_start String.[] = ""
strip_start (String.◌∷◌ c s) =
    if is_punctuation (code c) punctuation then strip_start s else String.◌∷◌ c s

unfoldable pub strip_end : String → String
unfolding is_punctuation
strip_end String.[] = ""
strip_end (String.◌∷◌ c s) =
    let rest = strip_end s in
    if is_punctuation (code c) punctuation
    then (if str_eq rest "" then "" else String.◌∷◌ c rest)
    else String.◌∷◌ c rest

abbrev pub max_words : ℕ
max_words = 6

abbrev first_word : List String → String
first_word [] = ""
first_word (w ∷ ws) = w

-- What the regular expressions say of a text: `_TASK_SIGNAL.search` finds something, and
-- `_PURE_CONVERSATIONAL.match` matches. `to_lower` is `str.lower`.
module _ (task_signal pure_conversational : String → Bool) (to_lower : String → String) where
  -- `needs_no_tools`
  unfoldable pub needs_no_tools : String → Bool
  unfolding strip split
  needs_no_tools prompt =
      if str_eq (strip prompt) ""
      then false
      else if ltb max_words (length (split (strip prompt)))
      then false
      else if task_signal (strip prompt)
      then false
      else pure_conversational (strip prompt)

  -- `words[0].strip(…).lower()`
  unfoldable pub token_of : List String → String
  unfolding strip_start strip_end
  token_of words = to_lower (strip_start (strip_end (first_word words)))

  -- `needs_clarification`
  unfoldable pub needs_clarification : List String → String → Bool
  unfolding strip split needs_no_tools token_of
  needs_clarification known_terms prompt =
      if str_eq (strip prompt) ""
      then true
      else if not (length (split (strip prompt)) == 1)
      then false
      else if needs_no_tools (strip prompt)
      then false
      else if task_signal (strip prompt)
      then false
      else not (one_of (token_of (split (strip prompt))) (map to_lower known_terms))
