-- ===== src/Sessions/Paths.antt =====
-- The names of the files: those of two sessions differ, and none is the name of a temporary file.
use pearl_ai.Sessions.Machine.{Host}
use pearl_ai.Sessions.Manager.{session_path, temporary}
use text.Mathlib.TextLemmas.{append_cancel_right, nil-append, cons-append, append_assoc}
use Prim.Native.String
use Prim.Native.Char.{Char, code}
use pearl_ai.Base.{String, ℕ, ap, arith, refl, sym, ◌∙◌, ◌≡◌, ◌≢◌}

last_code : String → ℕ
last_code String.[] = 0
last_code (String.◌∷◌ c String.[]) = code c
last_code (String.◌∷◌ c (String.◌∷◌ d s)) = last_code (String.◌∷◌ d s)

last_code-append :
    (s : String) (c : Char) (t : String)
    → last_code (String.◌++◌ s (String.◌∷◌ c t)) ≡ last_code (String.◌∷◌ c t)
unfolding last_code
last_code-append String.[] c t = rw (nil-append (String.◌∷◌ c t)) refl
last_code-append (String.◌∷◌ d String.[]) c t =
    rw (cons-append d "" (String.◌∷◌ c t), nil-append (String.◌∷◌ c t)) refl
last_code-append (String.◌∷◌ d (String.◌∷◌ e s)) c t =
    let rest = String.◌∷◌ c t in
    let again : last_code (String.◌∷◌ e (String.◌++◌ s rest)) ≡ last_code rest =
      (rw (cons-append e s rest) at (last_code-append (String.◌∷◌ e s) c t)) in
    rw (cons-append d (String.◌∷◌ e s) rest, cons-append e s rest) again

pub session_path_inj : (a b : String) → session_path a ≡ session_path b → a ≡ b
session_path_inj a b h = append_cancel_right a b ".json" h

pub temporary_apart : (host : Host) (p id : String) → temporary host p ≢ session_path id
unfolding last_code
temporary_apart host p id h =
    let tail = append_assoc p "." (String.◌++◌ host.pid ".tmp") in
    let regroup = append_assoc (String.◌++◌ p ".") host.pid ".tmp" in
    let a : last_code (temporary host p) ≡ 112 =
      ap last_code (sym tail ∙ sym regroup)
      ∙ last_code-append (String.◌++◌ (String.◌++◌ p ".") host.pid) _ "tmp" in
    let c : last_code (session_path id) ≡ 110 = last_code-append id _ "json" in
    let d : 112 ≡ 110 = sym a ∙ ap last_code h ∙ c in omega (arith, d)
