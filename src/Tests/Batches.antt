-- ===== src/Tests/Batches.antt =====
-- Batches of edits against the file system in memory.
use pearl_ai.Changes.Rollback.{apply_all-failed}
use pearl_ai.Changes.Fresh.{stale_paths-nil_iff, Fresh, after}
use pearl_ai.Changes.Commit.{apply_all-applied}
use pearl_ai.Changes.{
  write_or_rollback, write_edit, write_content, write_all, stale_paths, stale_from, restore_to,
  disk_content, apply_all, affected_files, ChangeManager, applied, expected, failed, noted,
  rollback, snapshot,
}
use pearl_ai.Tests.World.{memory, begin, edit, batch, full}
use pearl_ai.Base.{String, [], lookup, put, refl, ◌↔◌, ◌∷◌, ◌≡◌, ◌≢◌, some}

abbrev good : ChangeManager
good = batch (edit "a.py" ∷ [])

abbrev torn : ChangeManager
torn = batch (edit "a.py" ∷ edit "full.txt" ∷ [])

good_applied : (apply_all memory good begin).0 ≡ applied ("a.py" ∷ [])
unfolding apply_all stale_paths stale_from expected disk_content noted snapshot write_or_rollback
    write_all write_content lookup put
good_applied = refl

torn_failed : (apply_all memory torn begin).0 ≡ failed full []
unfolding apply_all stale_paths stale_from expected disk_content noted snapshot write_or_rollback
    write_all write_content rollback restore_to lookup put
torn_failed = refl

apply_all-applied_example :
    ("a.py" ∷ [] ≡ affected_files good)
    × ((apply_all memory good begin).1.edits ≡ [])
    × ((q : String)
        → disk_content memory (apply_all memory good begin).2 q
          ≡ after (disk_content memory begin) good.edits q)
apply_all-applied_example = apply_all-applied memory good begin ("a.py" ∷ []) good_applied

apply_all-failed_example :
    ((apply_all memory torn begin).1 ≡ torn)
    × ((p : String) × ((q : String)
          → p ≢ q
          → memory.state (apply_all memory torn begin).2 q ≡ memory.state begin q))
apply_all-failed_example = apply_all-failed memory torn begin full torn_failed

torn_write : (write_edit memory (edit "full.txt") begin).0 ≡ some full
unfolding write_content
torn_write = refl

stale_paths-nil_iff_example :
    (stale_paths memory torn begin ≡ []) ↔ Fresh (disk_content memory begin) torn.edits
stale_paths-nil_iff_example = stale_paths-nil_iff memory torn begin
