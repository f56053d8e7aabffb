-- ===== src/Tests/World.antt =====
-- A file system in memory, on which a write to one path fails half-way.
use pearl_ai.Changes.Files.{FileSystem, FileState, absent, holds}
use pearl_ai.Changes.{PendingEdit, ChangeManager}
use pearl_ai.Python.{Exception, plain}
use pearl_ai.Base.{
  String, eq_iff, Bool-cases, List, Option, [], false, if◌then◌else◌, inl, inr, none, refl, some,
  str_eq, true, ◌∷◌, ◌≡◌, ◌≢◌,
}

pub str_eq_same : (p : String) → str_eq p p ≡ true
str_eq_same p = (eq_iff p p).1 refl

pub str_eq_other : (p q : String) → p ≢ q → str_eq p q ≡ false
str_eq_other p q h = elim (Bool-cases (str_eq p q)) [
  | inl b ↦ absurd (h ((eq_iff p q).0 b))
  | inr b ↦ b
]

abbrev pub Disk : Type 0
Disk = String → FileState

abbrev pub disk_put : String → FileState → Disk → Disk
disk_put p s d q = if str_eq p q then s else d q

abbrev pub full : Exception
full = plain ("OSError" ∷ []) "No space left on device"

-- The write to "full.txt" empties the file and then fails.
abbrev pub disk_write : String → String → Disk → Option Exception × Disk
disk_write p c d =
    if str_eq p "full.txt"
    then (some full, disk_put p (holds "") d)
    else (none, disk_put p (holds c) d)

pub disk_write_done :
    (p c : String) (d : Disk) → (disk_write p c d).0 ≡ none → (disk_write p c d).1 p ≡ holds c
disk_write_done p c d h = elim (Bool-cases (str_eq p "full.txt")) [
  | inl b ↦ (let g : some full ≡ none = rw b at h in cc)
  | inr b ↦ rw (b, str_eq_same p) refl
]

pub disk_write_frame : (p c q : String) (d : Disk) → p ≢ q → (disk_write p c d).1 q ≡ d q
disk_write_frame p c q d h = elim (Bool-cases (str_eq p "full.txt")) [
  | inl b ↦ rw (b, str_eq_other p q h) refl
  | inr b ↦ rw (b, str_eq_other p q h) refl
]

abbrev pub memory : FileSystem
memory = record {
  World = Disk;
  state = λ d p. d p;
  write = disk_write;
  unlink = λ p d. (none, disk_put p absent d);
  make_parents = λ p d. (none, d);
  write_done = disk_write_done;
  write_frame = disk_write_frame;
  unlink_done = λ p d h. rw (str_eq_same p) refl;
  unlink_frame = λ p q d h. rw (str_eq_other p q h) refl;
  make_parents_frame = λ p q d. refl;
}

-- Two files hold "old"; nothing else is there.
abbrev pub begin : Disk
begin q =
    if str_eq q "a.py" then holds "old" else if str_eq q "full.txt" then holds "old" else absent

abbrev pub edit : String → PendingEdit
edit p = record { path = p; original_content = some "old"; updated_content = some "new"; diff = "" }

abbrev pub batch : List PendingEdit → ChangeManager
batch es = record { edits = es }
