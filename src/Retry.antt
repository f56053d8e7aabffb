-- ===== src/Retry.antt =====
-- src/agent/retry.py: which errors are worth a retry, and the error type of a failed step.
use pearl_ai.Base.{String, Bool, true, false, List, [], ◌∷◌, any, if◌then◌else◌, lower_holds}
use pearl_ai.Python.{Exception, plain, wrapper, is_instance, message}

unfoldable pub fatal_types : List String
fatal_types =
    "ValueError" ∷ "TypeError" ∷ "FileNotFoundError" ∷ "PermissionError" ∷ "IsADirectoryError"
    ∷ "NotADirectoryError" ∷ "NotImplementedError" ∷ "RecursionError" ∷ "MemoryError" ∷ []

unfoldable pub transient_types : List String
transient_types =
    "TimeoutError" ∷ "ConnectionResetError" ∷ "ConnectionAbortedError" ∷ "BrokenPipeError"
    ∷ "BlockingIOError" ∷ "InterruptedError" ∷ []

unfoldable pub transient_patterns : List String
transient_patterns =
    "429" ∷ "502" ∷ "503" ∷ "504" ∷ "timeout" ∷ "timed out" ∷ "timed_out" ∷ "connection reset"
    ∷ "connection refused" ∷ "connection aborted" ∷ "connection error" ∷ "rate limit" ∷ "rate_limit"
    ∷ "too many requests" ∷ "retry after" ∷ "service unavailable" ∷ "bad gateway"
    ∷ "gateway timeout" ∷ "temporarily unavailable" ∷ "try again" ∷ "eagain" ∷ "etimedout"
    ∷ "econnreset" ∷ "econnrefused" ∷ "eintr" ∷ []

-- `isinstance(exc, (a, b, …))`
unfoldable pub is_any : Exception → List String → Bool
unfolding is_instance
is_any e names = any (is_instance e) names

-- `any(pattern in str(exc).lower() for pattern in _TRANSIENT_PATTERNS)`
unfoldable pub looks_transient : Exception → Bool
looks_transient e = any (λ p. lower_holds p (message e)) transient_patterns

unfoldable pub is_transient_error : Exception → Bool
is_transient_error e =
    if is_any e fatal_types
    then false
    else if is_any e transient_types
    then true
    else looks_transient e

-- `getattr(exc, "original", exc)`
unfoldable pub root : Exception → Exception
root (plain cs m) = plain cs m
root (wrapper cs m e) = e

pub data ErrorType : Type 0 where
  transient validation fatal : ErrorType

unfoldable pub classify_error : Exception → ErrorType
classify_error e =
    if is_transient_error e
    then ErrorType.transient
    else if is_transient_error (root e)
    then ErrorType.transient
    else if is_any (root e) ("ValueError" ∷ "TypeError" ∷ [])
    then ErrorType.validation
    else ErrorType.fatal
