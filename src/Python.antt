-- ===== src/Python.antt =====
-- The Python values and exceptions that pass through the executor, as far as its code looks at them.
use pearl_ai.Base.{String, List, Bool, one_of}

-- A value is `None`, a `str`, or another object, of which the code uses only what `str()` gives.
pub data Value : Type 0 where
  null : Value
  text : String → Value
  object : (shown : String) → Value

-- `str(v)`
unfoldable pub str : Value → String
str null = "None"
str (text s) = s
str (object shown) = shown

-- An exception is the names of the classes that it is an instance of, and its message. A wrapper is
-- one with an attribute `original`, as the dispatcher's ToolExecutionError has.
pub data Exception : Type 0 where
  plain : (classes : List String) → (message : String) → Exception
  wrapper : (classes : List String) → (message : String) → (original : Exception) → Exception

unfoldable pub classes : Exception → List String
classes (plain cs m) = cs
classes (wrapper cs m e) = cs

-- `str(exc)`
unfoldable pub message : Exception → String
message (plain cs m) = m
message (wrapper cs m e) = m

-- `isinstance(exc, name)`
unfoldable pub is_instance : Exception → String → Bool
unfolding classes
is_instance e name = one_of name (classes e)
