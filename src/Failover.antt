-- ===== src/Failover.antt =====
-- src/processing/llm_failover.py: which exceptions are retried, the retries on one route, and the
-- failover to a second route. What the provider answers is a parameter: a function of the
-- provider's own state, the route and the response format. Messages and temperature are the same in
-- every call of one invocation and are part of that function. Sleeping times are in ten-thousandths
-- of a second, to which the code rounds them.
pub mod Classify
pub mod Retries
pub mod Routing
pub mod Tests
use horadus.Prelude.{
  ℕ, zero, suc, ◌+◌, ◌*◌, Bool, true, false, ◌&&◌, ◌||◌, not, Option, none, some, get_or,
  first_some, List, [], ◌∷◌, ◌++◌, leb, ltb, ◌==◌, if◌then◌else◌,
}

-- The most specific class of an exception, as far as the code tells classes apart.
-- APITimeoutError is an APIConnectionError, RateLimitError an APIStatusError, and
-- RetryablePipelineError a ConnectionError.
pub data ExceptionClass : Type 0 where
  rate_limit_error api_status_error api_timeout_error api_connection_error : ExceptionClass
  timeout_error connection_error retryable_pipeline_error : ExceptionClass
  http_status_error http_timeout http_network_error http_protocol_error other_error : ExceptionClass

-- `message` holds the code points of `str(exc)`.
pub record LlmException : Type 0 where
  pub kind : ExceptionClass
  pub status_code : Option ℕ
  pub response_status : Option ℕ
  pub message : List ℕ

pub data LlmInvocationErrorCode : Type 0 where
  rate_limit provider_http_5xx timeout connection non_retryable : LlmInvocationErrorCode

pub record LlmInvocationError : Type 0 where
  pub code : LlmInvocationErrorCode
  pub retryable : Bool
  pub status_code : Option ℕ

unfoldable pub extract_status_code : LlmException → Option ℕ
extract_status_code exc = first_some exc.status_code exc.response_status

abbrev retry_with : LlmInvocationErrorCode → Option ℕ → LlmInvocationError
retry_with code status = record { code = code; retryable = true; status_code = status }

abbrev give_up_with : Option ℕ → LlmInvocationError
give_up_with status = record { code = non_retryable; retryable = false; status_code = status }

-- the branch for an APIStatusError
unfoldable pub classify_status : ℕ → LlmInvocationError
classify_status status =
    if status == 429
    then retry_with rate_limit (some status)
    else if leb 500 status
    then retry_with provider_http_5xx (some status)
    else give_up_with (some status)

-- the branch for an exception of no known class
unfoldable pub classify_unknown : Option ℕ → LlmInvocationError
classify_unknown none = give_up_with none
classify_unknown (some status) =
    if status == 429
    then retry_with rate_limit (some status)
    else if leb 500 status
    then retry_with provider_http_5xx (some status)
    else give_up_with none

unfoldable pub classify_class : ExceptionClass → LlmException → LlmInvocationError
unfolding classify_status classify_unknown extract_status_code
classify_class rate_limit_error exc = retry_with rate_limit (some 429)
classify_class api_timeout_error exc = retry_with timeout none
classify_class timeout_error exc = retry_with timeout none
classify_class api_connection_error exc = retry_with connection none
classify_class connection_error exc = retry_with connection none
classify_class retryable_pipeline_error exc = retry_with connection none
classify_class api_status_error exc = classify_status (get_or exc.status_code 0)
classify_class _ exc = classify_unknown (extract_status_code exc)

unfoldable pub classify_error : LlmException → LlmInvocationError
unfolding classify_class
classify_error exc = classify_class exc.kind exc

unfoldable pub is_retryable_error : LlmException → Bool
is_retryable_error exc = (classify_error exc).retryable

pub record LlmChatRetryPolicy : Type 0 where
  pub max_attempts : ℕ
  pub backoff_seconds : ℕ

-- `__post_init__`; `none` is its ValueError. A backoff is a natural number here.
unfoldable pub make_retry_policy : ℕ → ℕ → Option LlmChatRetryPolicy
make_retry_policy max_attempts backoff_seconds =
    if ltb max_attempts 1
    then none
    else some (record { max_attempts = max_attempts; backoff_seconds = backoff_seconds })

-- `identity` stands for the object that Python's `is` compares.
pub record LlmChatRoute : Type 0 where
  pub identity : ℕ
  pub provider : List ℕ
  pub model : List ℕ

pub data Reply (A : Type 0) : Type 0 where
  response : A → Reply A
  raises : LlmException → Reply A

-- The tuple (response, attempt, error), and the AssertionError at the end of the loop.
pub data RouteOutcome (A : Type 0) : Type 0 where
  answered : A → ℕ → RouteOutcome A
  failed : LlmException → ℕ → RouteOutcome A
  exhausted : RouteOutcome A

pub data Completion (A : Type 0) : Type 0 where
  completed : A → LlmChatRoute → Completion A
  raised : LlmException → Completion A
  assertion_error : Completion A

pub record Call (F : Type 0) : Type 0 where
  pub route : LlmChatRoute
  pub format : F

-- The state of the provider, the calls made so far, oldest first, and the time slept.
pub record World (S F : Type 0) : Type 0 where
  pub provider : S
  pub calls : List (Call F)
  pub slept : ℕ

pub record Invoker : Type 0 where
  pub primary : LlmChatRoute
  pub secondary : Option LlmChatRoute
  pub retry_policy : LlmChatRetryPolicy

module _ {S F : Type 0} where
  unfoldable pub sleep : ℕ → World S F → World S F
  sleep backoff world =
      if ltb 0 backoff then record world { slept = world.slept + backoff } else world

module _ {S F A : Type 0} (respond : S → LlmChatRoute → F → Reply A × S) where
  unfoldable pub create_for_route : LlmChatRoute → F → World S F → Reply A × World S F
  create_for_route route format world =
      let (reply, provider) = respond world.provider route format in
      (
        reply,
        record world {
          provider = provider;
          calls = world.calls ++ (record { route = route; format = format } ∷ []);
        },
      )

  -- `retry rounds attempt` is the loop from `attempt` on, with `rounds` left.
  unfoldable pub retry :
      LlmChatRetryPolicy → LlmChatRoute → F → ℕ → ℕ → World S F → RouteOutcome A × World S F
  retry policy route format zero attempt world = (exhausted, world)
  retry policy route format (suc rounds) attempt world =
      let (reply, after) = create_for_route route format world in
      elim reply [
        | response a ↦ (answered a attempt, after)
        | raises exc ↦ elim (not (is_retryable_error exc) || leb policy.max_attempts attempt) [
          | true ↦ (failed exc attempt, after)
          | false ↦
              retry policy route format rounds (attempt + 1)
                (sleep (policy.backoff_seconds * attempt) after)
        ]
      ]

  unfoldable pub create_with_route_retries :
      LlmChatRetryPolicy → LlmChatRoute → F → World S F → RouteOutcome A × World S F
  create_with_route_retries policy route format world =
      retry policy route format policy.max_attempts 1 world

  -- the end of `create_chat_completion`, for the outcome of the secondary route
  unfoldable pub after_secondary :
      LlmChatRoute → RouteOutcome A × World S F → Completion A × World S F
  after_secondary route (answered a attempt, world) = (completed a route, world)
  after_secondary route (failed exc attempt, world) = (raised exc, world)
  after_secondary route (exhausted, world) = (assertion_error, world)

  unfoldable pub fail_over :
      Invoker → Option LlmChatRoute → F → LlmException → World S F → Completion A × World S F
  unfolding after_secondary
  fail_over invoker none format exc world = (raised exc, world)
  fail_over invoker (some secondary) format exc world = elim (is_retryable_error exc) [
    | false ↦ (raised exc, world)
    | true ↦
        after_secondary secondary
          (create_with_route_retries invoker.retry_policy secondary format world)
  ]

  -- the rest of `create_chat_completion`, for the outcome of the primary route
  unfoldable pub after_primary : Invoker → F → RouteOutcome A × World S F → Completion A × World S F
  unfolding fail_over
  after_primary invoker format (answered a attempt, world) = (completed a invoker.primary, world)
  after_primary invoker format (failed exc attempt, world) =
      fail_over invoker invoker.secondary format exc world
  after_primary invoker format (exhausted, world) = (assertion_error, world)

  unfoldable pub create_chat_completion : Invoker → F → World S F → Completion A × World S F
  unfolding after_primary
  create_chat_completion invoker format world =
      after_primary invoker format
        (create_with_route_retries invoker.retry_policy invoker.primary format world)
