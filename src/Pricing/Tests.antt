-- ===== src/Pricing/Tests.antt =====
-- Prices of concrete routes, and the theorems at inputs that meet their hypotheses.
use horadus.Prelude.{
  starts_with, lower, text_eq, is_space, strip, ◌≡◌, refl, none, some, [], ◌∷◌, codes,
}
use horadus.Pricing.{
  partition_colon, prefix_matches, first_longest, PricingTable, price_for_model,
  estimate_model_cost_usd, resolve_llm_token_pricing, get,
}
use horadus.Pricing.Longest.{IsLongestPrice, resolve_longest, normalized}

-- A dated deployment of gpt-4.1-nano.
price_by_prefix : price_for_model (codes "gpt-4.1-nano-2025-04-14") ≡ (10, 40)
unfolding price_for_model
price_by_prefix = refl

cost : estimate_model_cost_usd (codes "gpt-4o-mini") 1000 100 ≡ 21000
unfolding estimate_model_cost_usd price_for_model
cost = refl

abbrev table : PricingTable
table =
    (codes "openai:gpt-4", (10, 20))
    ∷ (codes "openai:gpt-4.1", (30, 40))
    ∷ (codes "other:gpt-4.1-mini", (50, 60))
    ∷ []

resolves : resolve_llm_token_pricing table (codes " OpenAI") (codes "GPT-4.1-mini ") ≡ some (30, 40)
unfolding resolve_llm_token_pricing strip is_space get text_eq lower first_longest prefix_matches
    partition_colon starts_with
resolves = refl

no_exact : get (codes "openai:gpt-4.1-mini") table ≡ none
unfolding get text_eq
no_exact = refl

resolve_longest_example :
    IsLongestPrice table
      (normalized (codes " OpenAI"))
      (normalized (codes "GPT-4.1-mini "))
      (30, 40)
unfolding strip is_space lower
resolve_longest_example =
    resolve_longest table (codes " OpenAI") (codes "GPT-4.1-mini ") (30, 40) no_exact resolves
