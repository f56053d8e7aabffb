-- ===== src/Changes.antt =====
-- src/tools/patch_manager.py: the ChangeManager, which stages file edits and writes them as one batch.
-- The file system is a parameter: what a read finds, and writes and removals that may fail half-way.
pub mod Files
pub mod Fresh
pub mod Writes
pub mod Commit
pub mod Rollback
use mathlib.Core.Bool.{not}
use pearl_ai.Base.{
  ℕ, String, Bool, true, false, Option, none, some, List, [], ◌∷◌, ◌++◌, map, length, is_empty,
  Dict, lookup, put, str_eq, one_of, if◌then◌else◌,
}
use pearl_ai.Python.{Exception}
use pearl_ai.Changes.Files.{FileState, absent, holds, unreadable, FileSystem}

pub record PendingEdit : Type 0 where
  pub path : String
  pub original_content : Option String
  pub updated_content : Option String
  pub diff : String

pub record ChangeManager : Type 0 where
  pub edits : List PendingEdit

unfoldable pub is_new_file : PendingEdit → Bool
is_new_file e = elim e.original_content [
  | some _ ↦ false
  | none ↦ elim e.updated_content [ none ↦ false | some _ ↦ true ]
]

unfoldable pub is_deletion : PendingEdit → Bool
is_deletion e = elim e.updated_content [ none ↦ true | some _ ↦ false ]

module _ (unified_diff : String → Option String → Option String → String) where
  unfoldable pub propose :
      String → Option String → String → ChangeManager → PendingEdit × ChangeManager
  propose path original updated m =
      let edit : PendingEdit = record {
        path = path;
        original_content = original;
        updated_content = some updated;
        diff = unified_diff path original (some updated);
      } in
      (edit, record m { edits = m.edits ++ edit ∷ [] })

  unfoldable pub propose_deletion :
      String → Option String → ChangeManager → PendingEdit × ChangeManager
  propose_deletion path original m =
      let edit : PendingEdit = record {
        path = path;
        original_content = original;
        updated_content = none;
        diff = unified_diff path original none;
      } in
      (edit, record m { edits = m.edits ++ edit ∷ [] })

unfoldable pub has_pending : ChangeManager → Bool
has_pending m = not (is_empty m.edits)

unfoldable pub affected_files : ChangeManager → List String
affected_files m = map (λ e. e.path) m.edits

-- `len(manager)`
unfoldable pub count : ChangeManager → ℕ
count m = length m.edits

unfoldable pub discard_all : ChangeManager → List String × ChangeManager
unfolding affected_files
discard_all m = (affected_files m, record m { edits = [] })

-- `expected != original` negated
abbrev pub same_content : Option String → Option String → Bool
same_content none none = true
same_content (some a) (some b) = str_eq a b
same_content none (some b) = false
same_content (some a) none = false

-- How `apply_all` ends: the files touched, the files that changed since they were staged, or the
-- exception of a step that failed, with the paths whose rollback failed (the code logs those).
pub data Applied : Type 0 where
  applied : List String → Applied
  stale : List String → Applied
  failed : Exception → (lost : List String) → Applied

abbrev pub content_of : FileState → Option String
content_of absent = none
content_of (holds c) = some c
content_of (unreadable e) = none

-- `if … and edit.path not in stale: stale.append(edit.path)`, over the negated comparison.
unfoldable pub noted : Bool → String → List String → List String
noted same path found =
    if same then found else if one_of path found then found else found ++ path ∷ []

module _ (fs : FileSystem) where
  open fs use {World, state, write, unlink, make_parents}

  unfoldable pub disk_content : World → String → Option String
  disk_content w path = content_of (state w path)

  -- The body of the loop of `stale_paths`: what the edit is compared with.
  unfoldable pub expected : World → Dict (Option String) → String → Option String
  expected w projected path = elim (lookup path projected) [
    | none ↦ disk_content w path
    | some c ↦ c
  ]

  unfoldable pub stale_from :
      World → List PendingEdit → Dict (Option String) → List String → List String
  stale_from w [] projected found = found
  stale_from w (e ∷ es) projected found =
      stale_from w es (put e.path e.updated_content projected)
        (noted (same_content (expected w projected e.path) e.original_content) e.path found)

  unfoldable pub stale_paths : ChangeManager → World → List String
  stale_paths m w = stale_from w m.edits [] []

  -- The snapshots before the first write; reading a file that cannot be read raises.
  pub data Snapshots : Type 0 where
    taken : Dict (Option String) → Snapshots
    raised : Exception → Snapshots

  unfoldable pub snapshot : World → List PendingEdit → Dict (Option String) → Snapshots
  snapshot w [] snaps = taken snaps
  snapshot w (e ∷ es) snaps = elim (state w e.path) [
    | absent ↦ snapshot w es (put e.path none snaps)
    | holds c ↦ snapshot w es (put e.path (some c) snaps)
    | unreadable x ↦ raised x
  ]

  -- One round of the write loop: `none` if it went through.
  unfoldable pub write_content : String → Option String → World → Option Exception × World
  write_content path none w = unlink path w
  write_content path (some content) w =
      let (parents, w') = make_parents path w in
      elim parents [ some x ↦ (some x, w') | none ↦ write path content w' ]

  abbrev pub write_edit : PendingEdit → World → Option Exception × World
  write_edit e w = write_content e.path e.updated_content w

  -- The write loop, with the paths that went through, and the exception that ended it.
  unfoldable pub write_all :
      List PendingEdit → List String → World → Option Exception × List String × World
  write_all [] done w = (none, done, w)
  write_all (e ∷ es) done w =
      let (result, w') = write_edit e w in
      elim result [ none ↦ write_all es (done ++ e.path ∷ []) w' | some x ↦ (some x, done, w') ]

  -- One round of the rollback, to what the snapshots hold for the path.
  unfoldable pub restore_to : Option (Option String) → String → World → Option Exception × World
  restore_to none path w = unlink path w
  restore_to (some none) path w = unlink path w
  restore_to (some (some content)) path w = write path content w

  abbrev pub restore : Dict (Option String) → String → World → Option Exception × World
  restore snaps path w = restore_to (lookup path snaps) path w

  -- The rollback, with the paths that could not be restored, which the code logs.
  unfoldable pub rollback :
      List String → Dict (Option String) → List String → World → List String × World
  rollback [] snaps lost w = (lost, w)
  rollback (p ∷ ps) snaps lost w =
      let (result, w') = restore snaps p w in
      rollback ps snaps (elim result [ none ↦ lost | some _ ↦ lost ++ p ∷ [] ]) w'

  unfoldable pub write_or_rollback :
      ChangeManager → Dict (Option String) → World → Applied × ChangeManager × World
  write_or_rollback m snaps w =
      let (result, done, w') = write_all m.edits [] w in
      elim result [
        | none ↦ (applied done, record m { edits = [] }, w')
        | some x ↦ let (lost, restored) = rollback done snaps [] w' in (failed x lost, m, restored)
      ]

  unfoldable pub apply_all : ChangeManager → World → Applied × ChangeManager × World
  apply_all m w =
      if is_empty m.edits
      then (applied [], m, w)
      else if not (is_empty (stale_paths m w))
      then (stale (stale_paths m w), m, w)
      else elim (snapshot w m.edits []) [
        | raised x ↦ (failed x [], m, w)
        | taken snaps ↦ write_or_rollback m snaps w
      ]
