-- ===== src/Changes/Files.antt =====
-- The file system below the ChangeManager, with what the code relies on: a write or a removal that
-- succeeds has its effect, and none touches another file. One that fails may leave its own file
-- changed: `open(path, "w")` empties a file before the first byte is written. The paths are those of
-- files: a directory that mkdir makes on the way counts as absent, and no edit names one.
use pearl_ai.Base.{String, Option, none, ◌≡◌, ◌≢◌}
use pearl_ai.Python.{Exception}

pub data FileState : Type 0 where
  absent : FileState
  holds : String → FileState
  unreadable : Exception → FileState

pub record FileSystem : Type 1 where
  pub World : Type 0
  pub state : World → String → FileState
  pub write : String → String → World → Option Exception × World
  pub unlink : String → World → Option Exception × World
  pub make_parents : String → World → Option Exception × World
  pub write_done :
      (p c : String) (w : World) → (write p c w).0 ≡ none → state (write p c w).1 p ≡ holds c
  pub write_frame : (p c q : String) (w : World) → p ≢ q → state (write p c w).1 q ≡ state w q
  pub unlink_done :
      (p : String) (w : World) → (unlink p w).0 ≡ none → state (unlink p w).1 p ≡ absent
  pub unlink_frame : (p q : String) (w : World) → p ≢ q → state (unlink p w).1 q ≡ state w q
  pub make_parents_frame : (p q : String) (w : World) → state (make_parents p w).1 q ≡ state w q
