-- ===== src/Budget/Limits.antt =====
-- The limits that the calls of src/processing/cost_tracker.py keep, whatever they are and in whatever
-- order they come.
use horadus.Budget.{
  estimated_cost_of, amount, stored_cost, Tier, ApiUsage, total_cost_for_date, Settings, Recorded,
  done, exceeded, unpriced, exceeds, record_usage, call_limit_for_tier, resolve_token_rates,
  same_tier,
}
use horadus.Pricing.{Rates}
use horadus.Budget.Table.{usage_of, same_key}
use horadus.Budget.Refusals.{record_usage-Effect, Effect}
use horadus.Prelude.{
  ==_iff, Bool-cases, List, Option, [], arith, false, get_or, inl, inr, ltb, none, refl, some, ℕ,
  ◌&&◌, ◌+◌, ◌==◌, ◌∷◌, ◌≡◌,
}

-- The arguments of one `record_usage`, with its day and time.
pub record Call : Type 0 where
  pub today : ℕ
  pub now : ℕ
  pub called_tier : Tier
  pub inputs : ℕ
  pub outputs : ℕ
  pub provider : Option (List ℕ)
  pub model : Option (List ℕ)

abbrev pub record_call : Settings → Call → List ApiUsage → Recorded × List ApiUsage
record_call settings call rows =
    record_usage settings call.today call.now call.called_tier call.inputs call.outputs
      call.provider call.model rows

-- The table after a sequence of calls, refused ones included.
abbrev pub run : Settings → List Call → List ApiUsage → List ApiUsage
run settings [] rows = rows
run settings (call ∷ calls) rows = run settings calls (record_call settings call rows).1

-- That a date's stored total is within the daily limit, as the column would round it, and a tier's
-- calls on it within the tier's limit.
abbrev pub WithinLimits : Settings → ℕ → Tier → List ApiUsage → Type 0
WithinLimits settings date t rows =
    ((ltb 0 settings.daily_limit
        && ltb (stored_cost settings.daily_limit) (total_cost_for_date date rows))
      ≡ false)
    × (exceeds (call_limit_for_tier settings t) (usage_of date t rows).call_count ≡ false)

pub price-price : (o : Option Rates) → get_or o (get_or o (0, 0)) ≡ get_or o (0, 0)
price-price none = refl
price-price (some rates) = refl

-- Rounding keeps a projected total within the limit that is rounded alike.
stored_within :
    (limit total cost : ℕ)
    → exceeds limit (amount total + cost) ≡ false
    → (ltb 0 limit && ltb (stored_cost limit) (total + stored_cost cost)) ≡ false
stored_within limit total cost h = ground arith

Effect-WithinLimits :
    (settings : Settings) (today now : ℕ) (tier : Tier) (inputs outputs : ℕ) (rates : Rates)
    (rows : List ApiUsage) (date : ℕ) (t : Tier) (outcome : Recorded) (rows' : List ApiUsage)
    → Effect settings today now tier inputs outputs rates rows date t outcome rows'
    → WithinLimits settings date t rows
    → WithinLimits settings date t rows'
Effect-WithinLimits settings today now tier inputs outputs rates rows date t unpriced rows' e w =
    (rw e.0 w.0, rw e.1 w.1)
Effect-WithinLimits settings today now tier inputs outputs rates rows date t (exceeded r) rows' e
      w =
    (rw e.1.0 w.0, rw e.1.1 w.1)
Effect-WithinLimits settings today now tier inputs outputs rates rows date t done rows' e w = (
  elim (Bool-cases (date == today)) [
    | inl k ↦
        rw (e.2, k, (==_iff date today).0 k)
          (stored_within settings.daily_limit (total_cost_for_date today rows)
            (estimated_cost_of rates inputs outputs) e.1)
    | inr k ↦ rw (e.2, k) ground arith
  ],
  elim (Bool-cases (date == today && same_tier t tier)) [
    | inl k ↦ let same = same_key date today t tier k in rw (e.3, k, same.1) e.0
    | inr k ↦ rw (e.3, k) w.1
  ],
)

pub record_call-WithinLimits :
    (settings : Settings) (call : Call) (rows : List ApiUsage) (date : ℕ) (t : Tier)
    → WithinLimits settings date t rows
    → WithinLimits settings date t (record_call settings call rows).1
record_call-WithinLimits settings call rows date t w =
    let rates =
      get_or (resolve_token_rates settings call.called_tier call.provider call.model) (0, 0) in
    Effect-WithinLimits settings call.today call.now call.called_tier call.inputs call.outputs rates
      rows date t (record_call settings call rows).0 (record_call settings call rows).1
      (record_usage-Effect settings call.today call.now call.called_tier call.inputs call.outputs
        call.provider call.model rates rows date t
        (price-price (resolve_token_rates settings call.called_tier call.provider call.model)))
      w

run_from :
    (settings : Settings) (calls : List Call) (date : ℕ) (t : Tier) (rows : List ApiUsage)
    → WithinLimits settings date t rows
    → WithinLimits settings date t (run settings calls rows)
run_from settings [] date t rows w = w
run_from settings (call ∷ calls) date t rows w =
    run_from settings calls date t (record_call settings call rows).1
      (record_call-WithinLimits settings call rows date t w)

-- After any sequence of calls on an empty table, refused ones included, in any order and over any days,
-- the stored total cost of each day is at most the daily limit, rounded to the ten-thousandth of a
-- dollar that the column keeps, and the calls of each tier on each day are within the tier's limit,
-- where these limits are set.
pub run-WithinLimits :
    (settings : Settings) (calls : List Call) (date : ℕ) (t : Tier)
    → WithinLimits settings date t (run settings calls [])
run-WithinLimits settings calls date t = run_from settings calls date t [] (ground arith)
