-- ===== src/Failover/Classify.antt =====
-- Which exceptions are retried.
use horadus.Prelude.{
  ℕ, ◌≤◌, ◌≡◌, ◌↔◌, ◌⊎◌, Bool, true, false, Option, none, some, first_some, arith,
}
use horadus.Failover.{
  ExceptionClass, LlmException, non_retryable, classify_error, is_retryable_error, rate_limit_error,
  api_status_error, api_timeout_error, api_connection_error, timeout_error, connection_error,
  retryable_pipeline_error,
}

-- The classes that are retried whatever status they carry.
abbrev pub is_transient : ExceptionClass → Bool
is_transient rate_limit_error = true
is_transient api_timeout_error = true
is_transient api_connection_error = true
is_transient timeout_error = true
is_transient connection_error = true
is_transient retryable_pipeline_error = true
is_transient _ = false

-- The status that counts for any other exception: for an APIStatusError only its own.
abbrev pub observed_status : ExceptionClass → LlmException → Option ℕ
observed_status api_status_error exc = exc.status_code
observed_status _ exc = first_some exc.status_code exc.response_status

abbrev pub IsRetriedStatus : Option ℕ → Type 0
IsRetriedStatus none = ⊥
IsRetriedStatus (some s) = (s ≡ 429) ⊎ (500 ≤ s)

-- An exception is retried exactly if its class is transient, or the status that counts for it is 429
-- or at least 500; its code is `non_retryable` exactly if it is not retried.
retryable_iff :
    (exc : LlmException)
    → ((is_retryable_error exc ≡ true)
        ↔ ((is_transient exc.kind ≡ true) ⊎ IsRetriedStatus (observed_status exc.kind exc)))
      × ((is_retryable_error exc ≡ false) ↔ ((classify_error exc).code ≡ non_retryable))
unfolding is_retryable_error classify_error
retryable_iff exc = ((ground arith, ground arith), (ground arith, ground arith))
