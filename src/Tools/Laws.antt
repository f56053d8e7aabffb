-- ===== src/Tools/Laws.antt =====
-- What the dispatcher's wrapper hides from the retry rule.
use pearl_ai.Tools.{tool_execution_error}
use pearl_ai.Retry.{transient_types, looks_transient, is_transient_error, is_any, fatal_types}
use pearl_ai.Python.{is_instance, Exception, classes, message}
use pearl_ai.Base.{String, refl, ◌≡◌}

-- The retry rule for the error of a tool that ran looks at the message alone: two errors with the same
-- message are retried alike once the dispatcher has wrapped them, whatever their types are.
wrapped_message_decides :
    (name : String) (e f : Exception)
    → message e ≡ message f
    → is_transient_error (tool_execution_error name e)
      ≡ is_transient_error (tool_execution_error name f)
unfolding tool_execution_error is_transient_error is_any is_instance classes looks_transient message
    fatal_types transient_types
wrapped_message_decides name e f h = rw h refl
