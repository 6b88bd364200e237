-- ===== src/Budget.antt =====
-- src/processing/cost_tracker.py: the daily calls and costs of each LLM tier, and their limits. A table
-- is the list of its rows, as the database stores them: each call reads them anew. A stored cost is in
-- ten-thousandths of a dollar, the scale of its column. The cost of a call and the limit are in
-- hundred-millionths, in which a cost by prices in hundredths of a dollar for a million tokens is a
-- whole number; dates and times are numbers. Of a
-- denial's message the model keeps the reason code that `_denial_reason_code` reads from it.
pub mod Table
pub mod Limits
pub mod Refusals
pub mod Unrecorded
pub mod Tests
use horadus.Pricing.{Rates, PricingTable, resolve_llm_token_pricing}
use horadus.Prelude.{
  ◌/◌, Bool, List, Option, [], codes, false, if◌then◌else◌, leb, lower, ltb, map, none, some, strip,
  text_eq, true, ℕ, ◌&&◌, ◌*◌, ◌++◌, ◌+◌, ◌-◌, ◌==◌, ◌||◌, ◌∷◌,
}

pub data Tier : Type 0 where
  tier1 tier2 embedding : Tier

pub data ReasonCode : Type 0 where
  invalid_pricing_config daily_call_limit daily_cost_limit : ReasonCode

-- What the service's settings say: a limit of 0 is none.
pub record Settings : Type 0 where
  pub tier1_max_daily_calls : ℕ
  pub tier2_max_daily_calls : ℕ
  pub embedding_max_daily_calls : ℕ
  pub daily_limit : ℕ
  pub pricing_table : PricingTable
  pub primary_provider : List ℕ
  pub tier1_model : List ℕ
  pub tier2_model : List ℕ
  pub embedding_model : List ℕ

pub record ApiUsage : Type 0 where
  pub usage_date : ℕ
  pub tier : Tier
  pub call_count : ℕ
  pub input_tokens : ℕ
  pub output_tokens : ℕ
  pub estimated_cost : ℕ
  pub updated_at : ℕ

-- `none` is the `ValueError` of an unknown tier.
unfoldable pub normalize_tier : List ℕ → Option Tier
unfolding text_eq strip lower
normalize_tier name =
    let normalized = map lower (strip name) in
    if text_eq normalized (codes "tier1")
    then some tier1
    else if text_eq normalized (codes "tier2")
    then some tier2
    else if text_eq normalized (codes "embedding")
    then some embedding
    else none

abbrev pub same_tier : Tier → Tier → Bool
same_tier tier1 tier1 = true
same_tier tier2 tier2 = true
same_tier embedding embedding = true
same_tier _ _ = false

abbrev pub call_limit_for_tier : Settings → Tier → ℕ
call_limit_for_tier settings tier1 = settings.tier1_max_daily_calls
call_limit_for_tier settings tier2 = settings.tier2_max_daily_calls
call_limit_for_tier settings embedding = settings.embedding_max_daily_calls

abbrev default_model_for_tier : Settings → Tier → List ℕ
default_model_for_tier settings tier1 = settings.tier1_model
default_model_for_tier settings tier2 = settings.tier2_model
default_model_for_tier settings embedding = settings.embedding_model

-- `given or default`: an empty name counts as none
abbrev named_or : Option (List ℕ) → List ℕ → List ℕ
named_or none default = default
named_or (some []) default = default
named_or (some (c ∷ name)) default = c ∷ name

unfoldable pub resolve_token_rates :
    Settings → Tier → Option (List ℕ) → Option (List ℕ) → Option Rates
unfolding resolve_llm_token_pricing strip lower
resolve_token_rates settings tier provider model =
    resolve_llm_token_pricing settings.pricing_table
      (map lower (strip (named_or provider settings.primary_provider)))
      (strip (named_or model (default_model_for_tier settings tier)))

abbrev pub is_row : ℕ → Tier → ApiUsage → Bool
is_row date tier row = row.usage_date == date && same_tier row.tier tier

abbrev pub find_usage : ℕ → Tier → List ApiUsage → Option ApiUsage
find_usage date tier [] = none
find_usage date tier (row ∷ rows) =
    let rest = find_usage date tier rows in if is_row date tier row then some row else rest

abbrev pub new_usage : ℕ → Tier → ApiUsage
new_usage date tier = record {
  usage_date = date;
  tier = tier;
  call_count = 0;
  input_tokens = 0;
  output_tokens = 0;
  estimated_cost = 0;
  updated_at = 0;
}

-- The row of the tier and date, and the table that has it.
unfoldable pub get_or_create_usage : ℕ → Tier → List ApiUsage → ApiUsage × List ApiUsage
get_or_create_usage date tier rows = elim (find_usage date tier rows) [
  | some usage ↦ (usage, rows)
  | none ↦ (new_usage date tier, rows ++ (new_usage date tier ∷ []))
]

-- What the column keeps of an amount: the database rounds to its scale, halves up.
abbrev pub stored_cost : ℕ → ℕ
stored_cost cost = (cost + 5000) / 10000

-- A stored cost as an amount.
abbrev pub amount : ℕ → ℕ
amount stored = 10000 * stored

abbrev pub total_cost_for_date : ℕ → List ApiUsage → ℕ
total_cost_for_date date [] = 0
total_cost_for_date date (row ∷ rows) =
    (if row.usage_date == date then row.estimated_cost else 0) + total_cost_for_date date rows

-- a limit that is set and that a number reaches, or exceeds
abbrev pub reaches : ℕ → ℕ → Bool
reaches limit n = ltb 0 limit && leb limit n

abbrev pub exceeds : ℕ → ℕ → Bool
exceeds limit n = ltb 0 limit && ltb limit n

-- `none` is "allowed"
unfoldable pub check_budget :
    Settings → ℕ → Tier → List ApiUsage → Option ReasonCode × List ApiUsage
unfolding get_or_create_usage
check_budget settings today tier rows =
    let (usage, rows') = get_or_create_usage today tier rows in
    (
      if reaches (call_limit_for_tier settings tier) usage.call_count
          then some daily_call_limit
          else if reaches settings.daily_limit (amount (total_cost_for_date today rows'))
          then some daily_cost_limit
          else none,
      rows',
    )

unfoldable pub ensure_within_budget :
    Settings
    → ℕ
    → Tier
    → Option (List ℕ)
    → Option (List ℕ)
    → List ApiUsage
    → Option ReasonCode × List ApiUsage
unfolding check_budget
ensure_within_budget settings today tier provider model rows =
    elim (resolve_token_rates settings tier provider model) [
      | none ↦ (some invalid_pricing_config, rows)
      | some rates ↦ check_budget settings today tier rows
    ]

-- The assignments to a row, by the object that the table and the caller share.
abbrev pub charge : ℕ → ℕ → ℕ → ℕ → ApiUsage → ApiUsage
charge now inputs outputs cost usage = record usage {
  call_count = usage.call_count + 1;
  input_tokens = usage.input_tokens + inputs;
  output_tokens = usage.output_tokens + outputs;
  estimated_cost = stored_cost (amount usage.estimated_cost + cost);
  updated_at = now;
}

abbrev pub update_usage : ℕ → Tier → (ApiUsage → ApiUsage) → List ApiUsage → List ApiUsage
update_usage date tier change [] = []
update_usage date tier change (row ∷ rows) =
    let rest = update_usage date tier change rows in
    if is_row date tier row then change row ∷ rows else row ∷ rest

abbrev pub estimated_cost_of : Rates → ℕ → ℕ → ℕ
estimated_cost_of rates inputs outputs = inputs * rates.0 + outputs * rates.1

pub data Recorded : Type 0 where
  done : Recorded
  -- the `ValueError` of a route without a price
  unpriced : Recorded
  exceeded : ReasonCode → Recorded

-- `record_usage` from the two tests on; `rates` are those of the route.
unfoldable pub record_priced :
    Settings → ℕ → ℕ → Tier → ℕ → ℕ → Rates → List ApiUsage → Recorded × List ApiUsage
unfolding get_or_create_usage
record_priced settings today now tier inputs outputs rates rows =
    let cost = estimated_cost_of rates inputs outputs in
    let (usage, rows') = get_or_create_usage today tier rows in
    if exceeds (call_limit_for_tier settings tier) (usage.call_count + 1)
    then (exceeded daily_call_limit, rows')
    else if exceeds settings.daily_limit (amount (total_cost_for_date today rows') + cost)
    then (exceeded daily_cost_limit, rows')
    else (done, update_usage today tier (charge now inputs outputs cost) rows')

unfoldable pub record_usage :
    Settings
    → ℕ
    → ℕ
    → Tier
    → ℕ
    → ℕ
    → Option (List ℕ)
    → Option (List ℕ)
    → List ApiUsage
    → Recorded × List ApiUsage
unfolding record_priced
record_usage settings today now tier inputs outputs provider model rows =
    elim (resolve_token_rates settings tier provider model) [
      | none ↦ (unpriced, rows)
      | some rates ↦ record_priced settings today now tier inputs outputs rates rows
    ]
