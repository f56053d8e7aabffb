-- ===== src/Base/Text.antt =====
-- Python's operations on `str` that the modelled code uses, over the native texts.
use Prim.Native.Nat.{ℕ, zero, suc, ◌+◌, ◌/◌, ◌%◌}
use Prim.Native.Char.{code}
use Prim.Native.String
use Prim.Native.String.{String}
use mathlib.Core.Bool.{Bool, true, false, ◌&&◌, ◌||◌}
use mathlib.Core.List.{List, [], ◌∷◌, ◌++◌}
use text.Mathlib.Text.{◌==◌ as text_eq, is_lt}
use pearl_ai.Base.Tests.{leb, ltb, ◌==◌, if◌then◌else◌}
use pearl_ai.Base.Lists.{get_or}
pub use text.Mathlib.TextEquality.{eq_iff}

-- `a == b` on texts.
abbrev pub str_eq : String → String → Bool
str_eq a b = text_eq a b

-- `a < b` on texts: the order of the code points.
abbrev pub str_lt : String → String → Bool
str_lt a b = is_lt (String.compare a b)

-- `x in (a, b, …)` on texts.
abbrev pub one_of : String → List String → Bool
one_of x [] = false
one_of x (y ∷ ys) = str_eq y x || one_of x ys

-- The code points of a text.
abbrev pub codes : String → List ℕ
codes String.[] = []
codes (String.◌∷◌ c s) = code c ∷ codes s

-- `str.lower` as far as ASCII letters can come out of it: the two letters outside ASCII whose lower
-- case holds one are the dotted capital I and the Kelvin sign. Every other code point is kept.
unfoldable pub lower_code : ℕ → List ℕ
lower_code c =
    if leb 65 c && leb c 90
    then (c + 32) ∷ []
    else if c == 0x130
    then 0x69 ∷ 0x307 ∷ []
    else if c == 0x212a
    then 0x6b ∷ []
    else c ∷ []

unfoldable pub lower : List ℕ → List ℕ
unfolding lower_code
lower [] = []
lower (c ∷ cs) = lower_code c ++ lower cs

unfoldable pub has_prefix : List ℕ → List ℕ → Bool
has_prefix [] s = true
has_prefix (p ∷ ps) [] = false
has_prefix (p ∷ ps) (c ∷ cs) = p == c && has_prefix ps cs

-- `p in s`
unfoldable pub has_infix : List ℕ → List ℕ → Bool
unfolding has_prefix
has_infix p [] = has_prefix p []
has_infix p (c ∷ cs) = has_prefix p (c ∷ cs) || has_infix p cs

-- `text.lower()` holds `p`.
unfoldable pub lower_holds : String → String → Bool
unfolding lower has_infix
lower_holds p text = has_infix (codes p) (lower (codes text))

-- `text.startswith(p)`
unfoldable pub starts_with : String → String → Bool
unfolding has_prefix
starts_with text p = has_prefix (codes p) (codes text)

-- `text[:n]`
unfoldable pub take_text : ℕ → String → String
take_text zero s = ""
take_text (suc n) String.[] = ""
take_text (suc n) (String.◌∷◌ c s) = String.◌∷◌ c (take_text n s)

-- `text[n:]`
unfoldable pub drop_text : ℕ → String → String
drop_text zero s = s
drop_text (suc n) String.[] = ""
drop_text (suc n) (String.◌∷◌ c s) = drop_text n s

-- `len(text)`
unfoldable pub len_text : String → ℕ
len_text String.[] = 0
len_text (String.◌∷◌ c s) = suc (len_text s)

-- The code points that `str.strip` takes for white space.
unfoldable pub is_space : ℕ → Bool
is_space c =
    (leb 9 c && leb c 13)
    || (leb 28 c && leb c 32)
    || c == 133
    || c == 160
    || c == 5760
    || (leb 8192 c && leb c 8202)
    || c == 8232
    || c == 8233
    || c == 8239
    || c == 8287
    || c == 12288

unfoldable pub strip_left : String → String
unfolding is_space
strip_left String.[] = ""
strip_left (String.◌∷◌ c s) = if is_space (code c) then strip_left s else String.◌∷◌ c s

unfoldable pub strip_right : String → String
unfolding is_space
strip_right String.[] = ""
strip_right (String.◌∷◌ c s) =
    let rest = strip_right s in
    if is_space (code c) && str_eq rest "" then "" else String.◌∷◌ c rest

-- `text.strip()`
unfoldable pub strip : String → String
unfolding strip_left strip_right
strip s = strip_left (strip_right s)

-- The parts of an f-string, joined.
unfoldable pub text_of : List String → String
text_of [] = ""
text_of (s ∷ ss) = String.◌++◌ s (text_of ss)

unfoldable pub digit : ℕ → String
digit d = get_or ("0" ∷ "1" ∷ "2" ∷ "3" ∷ "4" ∷ "5" ∷ "6" ∷ "7" ∷ "8" ∷ "9" ∷ []) d ""

-- The decimal digits of a number below 10 ^ fuel.
unfoldable pub show_digits : ℕ → ℕ → String
unfolding digit text_of
show_digits zero n = ""
show_digits (suc fuel) n =
    let front = show_digits fuel (n / 10) in
    if ltb n 10 then digit n else text_of (front ∷ digit (n % 10) ∷ [])

-- `str(n)`
unfoldable pub show_nat : ℕ → String
unfolding show_digits
show_nat n = show_digits (suc n) n

-- `sep.join(parts)`
unfoldable pub join : String → List String → String
unfolding text_of
join sep [] = ""
join sep (s ∷ []) = s
join sep (s ∷ t ∷ ss) = text_of (s ∷ sep ∷ join sep (t ∷ ss) ∷ [])
