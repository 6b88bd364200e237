-- ===== src/Policy/Tests.antt =====
-- Invocations of a model that always answers with ten tokens in and one out.
use horadus.Pricing.{resolve_llm_token_pricing, get, prefix_matches, first_longest, partition_colon}
use horadus.Failover.{
  LlmChatRoute, Reply, response, World, Invoker, create_chat_completion, create_with_route_retries,
  retry, create_for_route, after_primary, api_status_error, extract_status_code,
}
use horadus.Budget.{
  Settings, tier1, ensure_within_budget, check_budget, get_or_create_usage, record_usage,
  record_priced, resolve_token_rates,
}
use horadus.Budget.Limits.{WithinLimits}
use horadus.Budget.Table.{usage_of}
use horadus.Policy.{
  invoke_with_policy, check_routes, complete, after_strict, finish, PolicyClock, result_of,
  is_strict_schema_unsupported_error,
}
use horadus.Policy.Guarded.{invoke_with_policy-WithinLimits, invoke_with_policy_counts}
use horadus.Prelude.{
  Option, [], codes, contains, is_space, lower, none, refl, some, starts_with, strip, text_eq, true,
  ℕ, ◌+◌, ◌∷◌, ◌≡◌,
}

abbrev policy_settings : Settings
policy_settings = record {
  tier1_max_daily_calls = 2;
  tier2_max_daily_calls = 0;
  embedding_max_daily_calls = 5;
  daily_limit = 1000;
  pricing_table = (codes "openai:gpt", (5, 40)) ∷ [];
  primary_provider = codes "openai";
  tier1_model = codes "gpt-nano";
  tier2_model = codes "gpt-mini";
  embedding_model = codes "embed";
}

abbrev answer : ℕ → LlmChatRoute → Option ℕ → Reply (ℕ × ℕ) × ℕ
answer calls route format = (response (10, 1), calls + 1)

abbrev tokens : ℕ × ℕ → ℕ × ℕ
tokens reply = reply

abbrev route : LlmChatRoute
route = record { identity = 1; provider = codes "openai"; model = codes "gpt-nano" }

abbrev invoker : Invoker
invoker = record {
  primary = route;
  secondary = none;
  retry_policy = record { max_attempts = 2; backoff_seconds = 1 };
}

abbrev world : World ℕ (Option ℕ)
world = record { provider = 0; calls = []; slept = 0 }

abbrev clock : PolicyClock
clock = record { checked_on = 1; recorded_on = 1; recorded_at = 50 }

unsupported :
    is_strict_schema_unsupported_error (record {
      kind = api_status_error;
      status_code = some 400;
      response_status = none;
      message = codes "Invalid JSON_Schema";
    })
    ≡ true
unfolding is_strict_schema_unsupported_error extract_status_code lower contains starts_with
unsupported = refl

invoke_with_policy-WithinLimits_example :
    WithinLimits policy_settings 1 tier1
      (invoke_with_policy answer tokens policy_settings clock
        (some tier1)
        invoker
        (some 7)
        none
        world
        []).2
invoke_with_policy-WithinLimits_example =
    invoke_with_policy-WithinLimits answer tokens policy_settings clock (some tier1) invoker
      (some 7) none world [] 1 tier1 (refl, refl)

invoke_with_policy_counts_example :
    (usage_of 1 tier1
      (invoke_with_policy answer tokens policy_settings clock
        (some tier1)
        invoker
        (some 7)
        none
        world
        []).2).call_count
    ≡ 1
unfolding invoke_with_policy check_routes complete after_strict finish ensure_within_budget
    check_budget get_or_create_usage record_usage record_priced resolve_token_rates
    resolve_llm_token_pricing get text_eq strip is_space lower first_longest prefix_matches
    partition_colon starts_with create_chat_completion create_with_route_retries retry
    create_for_route after_primary
invoke_with_policy_counts_example =
    invoke_with_policy_counts answer tokens policy_settings clock tier1 invoker (some 7) none world
      [] (result_of tokens none (10, 1) route) refl
