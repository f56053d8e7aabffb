-- ===== src/Tests/Sessions.antt =====
-- Sessions on files in memory: a host whose `json` knows two sessions.
use pearl_ai.Sessions.Refines.{Refines}
use pearl_ai.Sessions.Roundtrip.{from_dict-to_dict}
use pearl_ai.Sessions.Manager.{session_path, safe_chars, load_history, get_session, save}
use pearl_ai.Sessions.Paths.{session_path_inj}
use pearl_ai.Sessions.Save.{save-Saving, Saving}
use pearl_ai.Sessions.Table.{get_session-answer, IsFileOf, Represents, Table, answer}
use pearl_ai.Sessions.History.{load_history-recent, IsHistory}
use pearl_ai.Sessions.Decode.{from_dict, State}
use pearl_ai.Sessions.Values.{Members, Json, object, end}
use pearl_ai.Sessions.Machine.{Host}
use pearl_ai.Sessions.{SessionRecord, to_dict, ApiMessage, returned}
use pearl_ai.Changes.Files.{absent, holds}
use pearl_ai.Tests.World.{memory, disk_put, str_eq_same, str_eq_other}
use text.Mathlib.TextLemmas.{nil-append, cons-append}
use text.Mathlib.Text.{is_lt}
use Prim.Native.Nat
use Prim.Native.Char.{code}
use Prim.Native.String
use Prim.Native.String.compare
use pearl_ai.Python.{Exception}
use pearl_ai.Base.{
  String, Bool-cases, Option, [], arith, eq_iff, false, if◌then◌else◌, inl, inr, none, not, refl,
  some, str_eq, sym, true, ◌++◌, ◌==◌, ◌∙◌, ◌∷◌, ◌≡◌, ap, subst, List, ◌≢◌,
}

String-discrete : Discrete String
String-discrete a b = elim (Bool-cases (str_eq a b)) [
  | inl e ↦ yes ((eq_iff a b).0 e)
  | inr e ↦ no λ p. (let g : true ≡ false = sym ((eq_iff a b).1 p) ∙ e in cc g)
]

Members-discrete : Discrete Members
Members-discrete = hlevel (String-discrete)

abbrev first : SessionRecord
first = record {
  id = "s1";
  title = "bug";
  workspace = "/w";
  created_at = "1";
  updated_at = "1";
  messages = record { role = "agent"; content = "done"; ts = "1" } ∷ [];
  metadata = end;
}

abbrev second : SessionRecord
second = record first {
  messages = first.messages ++ record { role = "user"; content = "thanks"; ts = "2" } ∷ [];
  updated_at = "20";
}

abbrev encoded : {d : Members} → Dec (d ≡ to_dict first) → Dec (d ≡ to_dict second) → Option String
encoded (yes e) q = some "A"
encoded (no n) (yes e) = some "B"
encoded (no n) (no m) = none

abbrev dumps : Members → Option String
dumps d = encoded (Members-discrete d (to_dict first)) (Members-discrete d (to_dict second))

abbrev loads : String → Option Json
loads s =
    if str_eq s "A"
    then some (object (to_dict first))
    else if str_eq s "B"
    then some (object (to_dict second))
    else none

none-some : (x : Exception) → none ≢ some x
none-some x h = cc h

loads_known :
    (d : Members) (c s : String) (r : SessionRecord)
    → loads c ≡ some (object (to_dict r))
    → d ≡ to_dict r
    → some c ≡ some s
    → loads s ≡ some (object d)
loads_known d c s r l e h =
    let g : c ≡ s = cc h in
    subst (λ u. loads s ≡ some (object u)) (sym e)
      (subst (λ u. loads u ≡ some (object (to_dict r))) g l)

loads-encoded :
    (d : Members) (p : Dec (d ≡ to_dict first)) (q : Dec (d ≡ to_dict second)) (s : String)
    → encoded p q ≡ some s
    → loads s ≡ some (object d)
loads-encoded d (yes e) q s h = loads_known d "A" s first refl e h
loads-encoded d (no n) (yes e) s h = loads_known d "B" s second refl e h
loads-encoded d (no n) (no m) s h = cc h

longer : (s : String) → String.compare s (String.◌++◌ s "0") ≡ Prim.Native.Nat.Ordering.lt
longer String.[] = ap (String.compare "") (nil-append "0")
longer (String.◌∷◌ c s) =
    let z : Prim.Native.Nat.compare (code c) (code c) ≡ Prim.Native.Nat.Ordering.eq =
      ground arith in
    ap (String.compare (String.◌∷◌ c s)) (cons-append c s "0")
    ∙ String.compare.cons-cons c c s (String.◌++◌ s "0")
    ∙ ap (λ o. String.then o (String.compare s (String.◌++◌ s "0"))) z
    ∙ longer s

abbrev host : Host
host = record {
  fs = memory;
  replace = λ p q d. (none, disk_put q (d p) (disk_put p absent d));
  listing = λ d. "s1.json" ∷ [];
  read_clock = λ d. ("2", d);
  later = λ s. String.◌++◌ s "0";
  uuid4 = λ d. ("s2", d);
  is_alnum = λ c. not (c == 47);
  pid = "7";
  dumps = dumps;
  loads = loads;
  replace_done = λ p q d h. rw (str_eq_same q) refl;
  replace_frame = λ p q o d hp hq. rw (str_eq_other q o hq, str_eq_other p o hp) refl;
  replace_failed = λ p q o x d h. absurd (none-some x h);
  unlink_failed = λ p o x d h. absurd (none-some x h);
  read_clock_frame = λ o d. refl;
  uuid4_frame = λ o d. refl;
  later_lt = λ s. ap is_lt (longer s);
  loads-dumps = λ d. loads-encoded d _ _;
}

abbrev files : State host
files = record { last_stamp = "1"; world = λ p. if str_eq "s1.json" p then holds "A" else absent }

abbrev table : Table
table id = if str_eq "s1" id then some first else none

first_file : IsFileOf host (holds "A") "s1" first
first_file = record { content = "A"; file = refl; parses = refl; named = refl }

files-Represents : Represents host files table
files-Represents id = elim (Bool-cases (str_eq "s1" id)) [
  | inl b ↦
      let e : "s1" ≡ id = (eq_iff "s1" id).0 b in
      let there : str_eq "s1.json" (session_path id) ≡ true =
        (eq_iff "s1.json" _).1 (ap session_path e) in
      rw (b, there) (subst (λ i. IsFileOf host (holds "A") i first) e first_file)
  | inr b ↦
      let other : str_eq "s1.json" (session_path id) ≡ false =
        str_eq_other "s1.json" (session_path id) (λ h.
          (let g : true ≡ false = sym ((eq_iff "s1" id).1 (session_path_inj "s1" id h)) ∙ b in
            cc g)) in
      rw (b, other) refl
]

save-Saving_example : Saving host "s1" (dumps (to_dict second)) files (save host second files)
save-Saving_example = save-Saving host second files

get_session-answer_example :
    get_session host "s1" files
    ≡ (answer "s1" (str_eq (safe_chars host "s1") "s1") (table "s1"), files)
get_session-answer_example = get_session-answer host files table "s1" files-Represents

from_dict-to_dict_example :
    from_dict host (object (to_dict second)) files ≡ (returned second, files)
from_dict-to_dict_example = from_dict-to_dict host second files

first_id : str_eq (safe_chars host "s1") "s1" ≡ true
unfolding safe_chars
first_id = refl

load_history-recent_example :
    (out : List ApiMessage) × (load_history host "s1" (some 1) files ≡ (returned out, files))
    × IsHistory (some 1) first.messages out
load_history-recent_example =
    load_history-recent host files table "s1" first (some 1) files-Represents first_id refl
