-- ===== src/Sessions/Machine.antt =====
-- What the session manager runs on: the file system, the clock, `uuid4`, `json`, `str.isalnum` and the
-- process. `os.replace` and `unlink` either have their effect or none.
use pearl_ai.Changes.Files.{FileSystem}
use pearl_ai.Sessions.Values.{Json, Members, object}
use pearl_ai.Python.{Exception}
use pearl_ai.Base.{String, ℕ, Bool, Option, none, some, List, ◌≡◌, ◌≢◌, str_lt, true}

pub record Host : Type 1 where
  pub fs : FileSystem
  pub replace : String → String → fs.World → Option Exception × fs.World
  -- the names in the directory of the sessions, in some order
  pub listing : fs.World → List String
  pub read_clock : fs.World → String × fs.World
  -- the time stamp a microsecond behind another one
  pub later : String → String
  pub uuid4 : fs.World → String × fs.World
  pub is_alnum : ℕ → Bool
  pub pid : String
  pub dumps : Members → Option String
  pub loads : String → Option Json
  pub replace_done :
      (p q : String) (w : fs.World)
      → (replace p q w).0 ≡ none
      → fs.state (replace p q w).1 q ≡ fs.state w p
  pub replace_frame :
      (p q o : String) (w : fs.World) → p ≢ o → q ≢ o → fs.state (replace p q w).1 o ≡ fs.state w o
  pub replace_failed :
      (p q o : String) (x : Exception) (w : fs.World)
      → (replace p q w).0 ≡ some x
      → fs.state (replace p q w).1 o ≡ fs.state w o
  pub unlink_failed :
      (p o : String) (x : Exception) (w : fs.World)
      → (fs.unlink p w).0 ≡ some x
      → fs.state (fs.unlink p w).1 o ≡ fs.state w o
  pub read_clock_frame : (o : String) (w : fs.World) → fs.state (read_clock w).1 o ≡ fs.state w o
  pub later_lt : (s : String) → str_lt s (later s) ≡ true
  pub uuid4_frame : (o : String) (w : fs.World) → fs.state (uuid4 w).1 o ≡ fs.state w o
  pub loads-dumps : (d : Members) (s : String) → dumps d ≡ some s → loads s ≡ some (object d)
