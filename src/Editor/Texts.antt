-- ===== src/Editor/Texts.antt =====
-- Python's searches in a text, with positions in characters.
use Prim.Native.String
use Prim.Native.Char.{code}
use pearl_ai.Base.{
  String, ℕ, zero, suc, ◌+◌, ◌-◌, ◌/◌, Bool, true, false, Option, none, some, List, [], ◌∷◌, ◌&&◌,
  ◌==◌, take_text, drop_text, len_text, if◌then◌else◌,
}

-- `s.startswith(p)`
unfoldable pub begins : String → String → Bool
begins String.[] s = true
begins (String.◌∷◌ d p) String.[] = false
begins (String.◌∷◌ d p) (String.◌∷◌ c s) = (code d == code c) && begins p s

-- `s[a:b]` for positions in the text
unfoldable pub slice : String → ℕ → ℕ → String
unfolding take_text drop_text
slice s a b = take_text (b - a) (drop_text a s)

-- `s.find(p)`; `none` stands for -1.
unfoldable pub find : String → String → Option ℕ
unfolding begins
find p String.[] = if begins p String.[] then some 0 else none
find p (String.◌∷◌ c s) =
    let rest = find p s in
    if begins p (String.◌∷◌ c s) then some 0 else elim rest [ none ↦ none | some i ↦ some (suc i) ]

-- `s.find(p, pos)`
unfoldable pub find_from : String → String → ℕ → Option ℕ
unfolding find drop_text
find_from p s pos = elim (find p (drop_text pos s)) [ none ↦ none | some i ↦ some (pos + i) ]

-- `s[:a] + r + s[b:]`
unfoldable pub splice : String → ℕ → ℕ → String → String
unfolding take_text drop_text
splice s a b r = String.◌++◌ (take_text a s) (String.◌++◌ r (drop_text b s))

-- `s.replace(p, r)` for a text p that is not empty: from the left, without overlaps. The number is how many
-- characters of an occurrence are still to be passed over.
unfoldable pub replace_from : String → String → ℕ → String → String
unfolding begins len_text
replace_from p r skip String.[] = ""
replace_from p r (suc skip) (String.◌∷◌ c s) = replace_from p r skip s
replace_from p r zero (String.◌∷◌ c s) =
    let hit = String.◌++◌ r (replace_from p r (len_text p - 1) s) in
    let miss = String.◌∷◌ c (replace_from p r zero s) in
    if begins p (String.◌∷◌ c s) then hit else miss

-- `s.count(p)` for a text p that is not empty
unfoldable pub count_from : String → ℕ → String → ℕ
unfolding begins len_text
count_from p skip String.[] = 0
count_from p (suc skip) (String.◌∷◌ c s) = count_from p skip s
count_from p zero (String.◌∷◌ c s) =
    let hit = count_from p (len_text p - 1) s in
    let miss = count_from p zero s in if begins p (String.◌∷◌ c s) then suc hit else miss

-- `range(start, …, step)` with as many entries
unfoldable pub spaced : ℕ → ℕ → ℕ → List ℕ
spaced start step zero = []
spaced start step (suc n) = start ∷ spaced (start + step) step n

-- `range(from, to, step)` for a step that is not 0
unfoldable pub range : ℕ → ℕ → ℕ → List ℕ
unfolding spaced
range from to step = spaced from step ((to - from + step - 1) / step)
