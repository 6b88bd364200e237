-- ===== src/Failover/Tests.antt =====
-- Scripted providers: each call takes the next reply of a list.
use horadus.Prelude.{ℕ, ◌≡◌, refl, none, some, List, [], ◌∷◌, arith}
use horadus.Failover.{
  create_for_route, retry, LlmChatRoute, LlmException, Reply, response, raises, completed, raised,
  World, Invoker, LlmChatRetryPolicy, create_chat_completion, create_with_route_retries,
  is_retryable_error, classify_error, api_status_error, sleep,
}
use horadus.Failover.Retries.{IsSettled, create_with_route_retries-IsSettled}
use horadus.Failover.Routing.{IsRouted, create_chat_completion-IsRouted}

abbrev next_reply : List (Reply ℕ) → LlmChatRoute → Unit {0} → Reply ℕ × List (Reply ℕ)
next_reply [] route format = (response 0, [])
next_reply (r ∷ rest) route format = (r, rest)

abbrev unavailable : LlmException
unavailable = record {
  kind = api_status_error;
  status_code = some 503;
  response_status = none;
  message = [];
}

abbrev refused : LlmException
refused = record {
  kind = api_status_error;
  status_code = some 400;
  response_status = none;
  message = [];
}

abbrev first_route : LlmChatRoute
first_route = record { identity = 1; provider = []; model = [] }

abbrev second_route : LlmChatRoute
second_route = record { identity = 2; provider = []; model = [] }

abbrev twice : LlmChatRetryPolicy
twice = record { max_attempts = 2; backoff_seconds = 2500 }

abbrev invoker : Invoker
invoker = record { primary = first_route; secondary = some second_route; retry_policy = twice }

abbrev scripted : List (Reply ℕ) → World (List (Reply ℕ)) (Unit {0})
scripted replies = record { provider = replies; calls = []; slept = 0 }

abbrev outage : World (List (Reply ℕ)) (Unit {0})
outage = scripted (raises unavailable ∷ raises unavailable ∷ response 7 ∷ [])

-- Two failures of the first route, one backoff, and the answer of the second.
fails_over :
    ((create_chat_completion next_reply invoker tt outage).0 ≡ completed 7 second_route)
    × ((create_chat_completion next_reply invoker tt outage).1.slept ≡ 2500)
unfolding create_chat_completion create_with_route_retries retry create_for_route is_retryable_error
    classify_error sleep
fails_over = (refl, refl)

gives_up :
    (create_chat_completion next_reply invoker tt (scripted (raises refused ∷ []))).0
    ≡ raised refused
unfolding create_chat_completion create_with_route_retries retry create_for_route is_retryable_error
    classify_error
gives_up = refl

create_with_route_retries-IsSettled_example :
    IsSettled next_reply twice
      (record { route = first_route; format = tt })
      outage
      (create_with_route_retries next_reply twice first_route tt outage)
create_with_route_retries-IsSettled_example =
    create_with_route_retries-IsSettled next_reply twice first_route tt outage (omega arith)

create_chat_completion-IsRouted_example :
    IsRouted next_reply invoker tt outage (create_chat_completion next_reply invoker tt outage)
create_chat_completion-IsRouted_example =
    create_chat_completion-IsRouted next_reply invoker tt outage (omega arith)
