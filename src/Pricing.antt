-- ===== src/Pricing.antt =====
-- src/processing/llm_pricing.py and `resolve_llm_token_pricing` of src/core/config.py: the price of
-- a route. Names are lists of code points, and folding to lower case is that of ASCII. Prices are in
-- hundredths of a dollar for a million tokens, so a cost is exact in hundred-millionths of a dollar.
pub mod Longest
pub mod Tests
use horadus.Prelude.{
  ℕ, ◌+◌, ◌*◌, Bool, true, false, ◌&&◌, ◌||◌, not, Option, none, some, List, [], ◌∷◌, ◌++◌, map,
  length, ltb, leb, ◌==◌, if◌then◌else◌, text_eq, strip, lower, starts_with, codes,
}

abbrev pub Rates : Type 0
Rates = ℕ × ℕ

abbrev pub PricingTable : Type 0
PricingTable = List (List ℕ × Rates)

abbrev pub model_pricing_usd_per_1m : PricingTable
model_pricing_usd_per_1m =
    (codes "gpt-5-nano", (5, 40))
    ∷ (codes "gpt-5-mini", (25, 200))
    ∷ (codes "gpt-4.1-nano", (10, 40))
    ∷ (codes "gpt-4.1-mini", (40, 160))
    ∷ (codes "gpt-4o-mini", (15, 60))
    ∷ (codes "text-embedding-3-small", (2, 0))
    ∷ (codes "text-embedding-3-large", (13, 0))
    ∷ []

-- `dict.get`
unfoldable pub get : List ℕ → PricingTable → Option Rates
get key [] = none
get key ((k, rates) ∷ table) = if text_eq k key then some rates else get key table

-- the first known model that the name starts with
unfoldable pub first_prefix : List ℕ → PricingTable → Option Rates
first_prefix model [] = none
first_prefix model ((known_model, rates) ∷ table) =
    if starts_with known_model model then some rates else first_prefix model table

abbrev or_free : Option Rates → Rates
or_free none = (0, 0)
or_free (some rates) = rates

unfoldable pub price_for_model : List ℕ → Rates
unfolding get first_prefix text_eq starts_with
price_for_model model = elim (get model model_pricing_usd_per_1m) [
  | some direct ↦ direct
  | none ↦ or_free (first_prefix model model_pricing_usd_per_1m)
]

unfoldable pub estimate_model_cost_usd : List ℕ → ℕ → ℕ → ℕ
estimate_model_cost_usd model prompt_tokens completion_tokens =
    let (input_price, output_price) = price_for_model model in
    prompt_tokens * input_price + completion_tokens * output_price

-- `key.partition(":")`, without the separator
unfoldable pub partition_colon : List ℕ → List ℕ × List ℕ
partition_colon [] = ([], [])
partition_colon (c ∷ s) =
    let (head, tail) = partition_colon s in if c == b':' then ([], s) else (c ∷ head, tail)

-- the entries of the provider whose model is a prefix of the name, in the order of the table
unfoldable pub prefix_matches : List ℕ → List ℕ → PricingTable → PricingTable
prefix_matches provider model [] = []
prefix_matches provider model ((key, rates) ∷ table) =
    let (key_provider, key_model) = partition_colon key in
    let rest = prefix_matches provider model table in
    if text_eq key_provider provider && starts_with key_model model
    then (key_model, rates) ∷ rest
    else rest

-- The head after a stable sort by falling length: the first of the longest entries.
unfoldable pub first_longest : PricingTable → Option (List ℕ × Rates)
first_longest [] = none
first_longest (entry ∷ table) = elim (first_longest table) [
  | none ↦ some entry
  | some best ↦ if ltb (length entry.0) (length best.0) then some best else some entry
]

abbrev rates_of : Option (List ℕ × Rates) → Option Rates
rates_of none = none
rates_of (some entry) = some entry.1

abbrev is_empty : List ℕ → Bool
is_empty [] = true
is_empty (c ∷ s) = false

unfoldable pub resolve_llm_token_pricing : PricingTable → List ℕ → List ℕ → Option Rates
resolve_llm_token_pricing pricing_table provider model =
    let normalized_provider = map lower (strip provider) in
    let normalized_model = map lower (strip model) in
    if is_empty normalized_provider || is_empty normalized_model
    then none
    else elim (get (normalized_provider ++ (b':' ∷ normalized_model)) pricing_table) [
      | some exact_match ↦ some exact_match
      | none ↦
          rates_of
            (first_longest (prefix_matches normalized_provider normalized_model pricing_table))
    ]
