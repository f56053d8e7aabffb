-- ===== src/Editor/Occurrences.antt =====
-- The first occurrence of a text in another one, and what str.replace and str.count make of it.
use Prim.Native.String.{◌++◌}
use text.Mathlib.TextLemmas.{nil-append, cons-append}
use pearl_ai.Editor.Texts.{find, replace_from, count_from, begins}
use text.Mathlib.TextEquality.{Char-path}
use Prim.Native.Char.{Char, code}
use pearl_ai.Base.{
  String, ℕ, zero, suc, ◌+◌, none, ◌≡◌, ◌≢◌, refl, ◌∙◌, ap, take_text, drop_text, len_text,
  Bool-cases, Option, Option-cases, and_left, and_right, arith, eqb→eq, false, inl, inr, some, sym,
  true, ◌-◌, ◌==◌, subst, if_false, if_true,
}

pub drop-nil : (k : ℕ) → drop_text k "" ≡ ""
unfolding drop_text
drop-nil zero = refl
drop-nil (suc k) = refl

pub take-drop : (i : ℕ) (s : String) → take_text i s ++ drop_text i s ≡ s
unfolding take_text drop_text
take-drop zero s = nil-append s
take-drop (suc i) String.[] = nil-append ""
take-drop (suc i) (String.◌∷◌ c s) =
    cons-append c (take_text i s) (drop_text i s) ∙ ap (String.◌∷◌ c) (take-drop i s)

pub drop-append : (a b : String) (i : ℕ) → drop_text (len_text a + i) (a ++ b) ≡ drop_text i b
unfolding drop_text len_text
drop-append String.[] b i = let z : 0 + i ≡ i = omega arith in rw (nil-append b, z) refl
drop-append (String.◌∷◌ c a) b i =
    let e : suc (len_text a) + i ≡ suc (len_text a + i) = omega arith in
    rw (e, cons-append c a b) (drop-append a b i)

pub take-append : (a b : String) (i : ℕ) → take_text (len_text a + i) (a ++ b) ≡ a ++ take_text i b
unfolding take_text len_text
take-append String.[] b i =
    let z : 0 + i ≡ i = omega arith in rw (nil-append b, nil-append (take_text i b), z) refl
take-append (String.◌∷◌ c a) b i =
    let e : suc (len_text a) + i ≡ suc (len_text a + i) = omega arith in
    rw (e, cons-append c a b, cons-append c a (take_text i b))
      (ap (String.◌∷◌ c) (take-append a b i))

-- An occurrence in a text that is passed over: what is left is searched from its start.
replace_from-skip :
    (p r : String) (k : ℕ) (s : String) → replace_from p r k s ≡ replace_from p r 0 (drop_text k s)
unfolding replace_from drop_text
replace_from-skip p r zero s = refl
replace_from-skip p r (suc k) String.[] = refl
replace_from-skip p r (suc k) (String.◌∷◌ c s) = replace_from-skip p r k s

count_from-skip :
    (p : String) (k : ℕ) (s : String) → count_from p k s ≡ count_from p 0 (drop_text k s)
unfolding count_from drop_text
count_from-skip p zero s = refl
count_from-skip p (suc k) String.[] = refl
count_from-skip p (suc k) (String.◌∷◌ c s) = count_from-skip p k s

begins-nil : (p : String) → p ≢ "" → begins p "" ≡ false
unfolding begins
begins-nil String.[] h = absurd (h refl)
begins-nil (String.◌∷◌ d p) h = refl

begins-append : (p s : String) → begins p s ≡ true → s ≡ p ++ drop_text (len_text p) s
unfolding begins drop_text len_text
begins-append String.[] s h = sym (nil-append s)
begins-append (String.◌∷◌ d p) String.[] h = cc h
begins-append (String.◌∷◌ d p) (String.◌∷◌ c s) h =
    let same : d ≡ c =
      Char-path d c (eqb→eq (code d) (code c) (and_left (code d == code c) (begins p s) h)) in
    let rest = begins-append p s (and_right (code d == code c) (begins p s) h) in
    rw (cons-append d p (drop_text (len_text p) s), same) (ap (String.◌∷◌ c) rest)

drop-hit :
    (p : String) (c : Char) (s : String)
    → p ≢ ""
    → drop_text (len_text p) (String.◌∷◌ c s) ≡ drop_text (len_text p - 1) s
unfolding drop_text len_text
drop-hit String.[] c s h = absurd (h refl)
drop-hit (String.◌∷◌ d p) c s h =
    let e : suc (len_text p) - 1 ≡ len_text p = omega arith in rw e refl

-- Where the first occurrence in a text with a first character is.
data First (p : String) (c : Char) (s : String) : Option ℕ → Type 0 where
  here : begins p (String.◌∷◌ c s) ≡ true → First p c s (some 0)
  there :
      (i : ℕ) → begins p (String.◌∷◌ c s) ≡ false → find p s ≡ some i → First p c s (some (suc i))
  nowhere : begins p (String.◌∷◌ c s) ≡ false → find p s ≡ none → First p c s none

find-First : (p : String) (c : Char) (s : String) → First p c s (find p (String.◌∷◌ c s))
unfolding find
find-First p c s = elim (Bool-cases (begins p (String.◌∷◌ c s))) [
  | inl b ↦ rw b (here b)
  | inr b ↦ elim (Option-cases (find p s)) [
    | inl e ↦ rw (b, e) (nowhere b e)
    | inr (i, e) ↦ rw (b, e) (there i b e)
  ]
]

module _ (p r : String) (full : p ≢ "") where
  -- No occurrence: the text stays.
  pub find-none :
      (s : String) → find p s ≡ none → (replace_from p r 0 s ≡ s) × (count_from p 0 s ≡ 0)
  unfolding replace_from count_from
  find-none String.[] h = (refl, refl)
  find-none (String.◌∷◌ c s) h =
      none_there (find p (String.◌∷◌ c s)) h (find-First p c s) (find-none s)
    where
      none_there :
          (o : Option ℕ)
          → o ≡ none
          → First p c s o
          → (find p s ≡ none → (replace_from p r 0 s ≡ s) × (count_from p 0 s ≡ 0))
          → (replace_from p r 0 (String.◌∷◌ c s) ≡ String.◌∷◌ c s)
            × (count_from p 0 (String.◌∷◌ c s) ≡ 0)
      none_there o e (here b) rest = cc e
      none_there o e (there i b f) rest = cc e
      none_there o e (nowhere b f) rest = (
        if_false (begins p (String.◌∷◌ c s)) _ _ b ∙ ap (String.◌∷◌ c) (rest f).0,
        if_false (begins p (String.◌∷◌ c s)) _ _ b ∙ (rest f).1,
      )

  -- The first occurrence: what stands around it, and what a replacement and a count make of it.
  pub record Found (s : String) (i : ℕ) : Type 0 where
    pub split : s ≡ take_text i s ++ (p ++ drop_text (i + len_text p) s)
    pub width : len_text (take_text i s) ≡ i
    pub replaced :
        replace_from p r 0 s
        ≡ take_text i s ++ (r ++ replace_from p r 0 (drop_text (i + len_text p) s))
    pub counted : count_from p 0 s ≡ suc (count_from p 0 (drop_text (i + len_text p) s))

  Found-here : (c : Char) (s : String) → begins p (String.◌∷◌ c s) ≡ true → Found (String.◌∷◌ c s) 0
  unfolding replace_from count_from take_text len_text
  Found-here c s b =
      let z : 0 + len_text p ≡ len_text p = omega arith in
      let hit = drop-hit p c s full in
      record {
        split =
            rw (z, nil-append (p ++ drop_text (len_text p) (String.◌∷◌ c s)))
              (begins-append p (String.◌∷◌ c s) b);
        width = refl;
        replaced =
            rw (z, hit, nil-append (r ++ replace_from p r 0 (drop_text (len_text p - 1) s)))
              (if_true (begins p (String.◌∷◌ c s)) _ _ b
                ∙ ap (λ t. r ++ t) (replace_from-skip p r (len_text p - 1) s));
        counted =
            rw (z, hit)
              (if_true (begins p (String.◌∷◌ c s)) _ _ b
                ∙ ap suc (count_from-skip p (len_text p - 1) s));
      }

  Found-there :
      (c : Char) (s : String) (i : ℕ)
      → begins p (String.◌∷◌ c s) ≡ false
      → Found s i
      → Found (String.◌∷◌ c s) (suc i)
  unfolding replace_from count_from take_text drop_text len_text
  Found-there c s i b f =
      let e : suc i + len_text p ≡ suc (i + len_text p) = omega arith in
      let rest = drop_text (i + len_text p) s in
      record {
        split = rw (e, cons-append c (take_text i s) (p ++ rest)) (ap (String.◌∷◌ c) f.split);
        width = ap suc f.width;
        replaced =
            rw (e, cons-append c (take_text i s) (r ++ replace_from p r 0 rest))
              (if_false (begins p (String.◌∷◌ c s)) _ _ b ∙ ap (String.◌∷◌ c) f.replaced);
        counted = rw e (if_false (begins p (String.◌∷◌ c s)) _ _ b ∙ f.counted);
      }

  pub find-Found : (s : String) (i : ℕ) → find p s ≡ some i → Found s i
  unfolding find
  find-Found String.[] i h =
      let g : find p "" ≡ none = if_false (begins p "") (some 0) none (begins-nil p full) in
      let k : none ≡ some i = sym g ∙ h in cc k
  find-Found (String.◌∷◌ c s) i h =
      some_there (find p (String.◌∷◌ c s)) h (find-First p c s) (find-Found s)
    where
      some_there :
          (o : Option ℕ)
          → o ≡ some i
          → First p c s o
          → ((j : ℕ) → find p s ≡ some j → Found s j)
          → Found (String.◌∷◌ c s) i
      some_there o e (here b) rest =
          let z : 0 ≡ i = cc e in subst (Found (String.◌∷◌ c s)) z (Found-here c s b)
      some_there o e (there j b f) rest =
          let z : suc j ≡ i = cc e in
          subst (Found (String.◌∷◌ c s)) z (Found-there c s j b (rest j f))
      some_there o e (nowhere b f) rest = cc e
