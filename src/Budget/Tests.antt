-- ===== src/Budget/Tests.antt =====
-- Runs of the cost tracker over a small table of prices, and the theorems at concrete calls.
use horadus.Pricing.{resolve_llm_token_pricing, get, prefix_matches, first_longest, partition_colon}
use horadus.Budget.{
  get_or_create_usage, check_budget, ensure_within_budget, Settings, Tier, tier1, tier2, ApiUsage,
  done, exceeded, daily_cost_limit, record_usage, resolve_token_rates, normalize_tier, new_usage,
  charge,
}
use horadus.Budget.Refusals.{record_usage-Effect, Effect}
use horadus.Budget.Unrecorded.{unrecorded_allows_again}
use horadus.Budget.Limits.{Call, run, run-WithinLimits, WithinLimits, record_call}
use horadus.Prelude.{
  List, [], codes, is_space, lower, none, refl, some, starts_with, strip, text_eq, ℕ, ◌∷◌, ◌≡◌,
}

abbrev settings : Settings
settings = record {
  tier1_max_daily_calls = 2;
  tier2_max_daily_calls = 0;
  embedding_max_daily_calls = 5;
  daily_limit = 20000;
  pricing_table = (codes "openai:gpt", (5, 40)) ∷ [];
  primary_provider = codes "OpenAI";
  tier1_model = codes "gpt-nano";
  tier2_model = codes "gpt-mini";
  embedding_model = codes "embed";
}

abbrev call_of : Tier → ℕ → Call
call_of tier tokens = record {
  today = 1;
  now = 100;
  called_tier = tier;
  inputs = tokens;
  outputs = 0;
  provider = none;
  model = none;
}

-- The second call would cost too much, and the fourth of these is one too many for its tier.
abbrev calls : List Call
calls = call_of tier1 1000 ∷ call_of tier2 4000 ∷ call_of tier1 20 ∷ call_of tier1 1 ∷ []

abbrev used : List ApiUsage
used = run settings (call_of tier1 1000 ∷ []) []

prices : resolve_token_rates settings tier2 none none ≡ some (5, 40)
unfolding resolve_token_rates resolve_llm_token_pricing get text_eq strip is_space lower
    first_longest prefix_matches partition_colon starts_with
prices = refl

trims : normalize_tier (codes " Tier2 ") ≡ some tier2
unfolding normalize_tier text_eq strip is_space lower
trims = refl

refuses : (record_call settings (call_of tier2 4000) used).0 ≡ exceeded daily_cost_limit
unfolding record_usage resolve_token_rates resolve_llm_token_pricing get text_eq strip is_space
    lower first_longest prefix_matches partition_colon starts_with
refuses = refl

record_usage-Effect_example :
    Effect settings 1 100 tier2 10 1
      (5, 40)
      []
      1
      tier2
      done
      (charge 100 10 1 90 (new_usage 1 tier2) ∷ [])
unfolding record_usage resolve_token_rates resolve_llm_token_pricing get text_eq strip is_space
    lower first_longest prefix_matches partition_colon starts_with
record_usage-Effect_example =
    record_usage-Effect settings 1 100 tier2 10 1 none none (5, 40) [] 1 tier2 refl

run-WithinLimits_example : WithinLimits settings 1 tier1 (run settings calls [])
run-WithinLimits_example = run-WithinLimits settings calls 1 tier1

-- The call of 4000 tokens, which `refuses` shows refused after it was made.
unrecorded_allows_again_example :
    (ensure_within_budget settings 1 tier2 none none
      (record_usage settings 1 100 tier2 4000 0 none none used).1).0
    ≡ none
unfolding ensure_within_budget check_budget get_or_create_usage record_usage resolve_token_rates
    resolve_llm_token_pricing get text_eq strip is_space lower first_longest prefix_matches
    partition_colon starts_with
unrecorded_allows_again_example =
    unrecorded_allows_again settings 1 100 tier2 4000 0 none none used refl (λ e. cc)
