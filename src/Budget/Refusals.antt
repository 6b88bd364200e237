-- ===== src/Budget/Refusals.antt =====
-- What `record_usage` of src/processing/cost_tracker.py does on each of its outcomes.
use horadus.Budget.{
  stored_cost, amount, Tier, ApiUsage, same_tier, get_or_create_usage, total_cost_for_date,
  update_usage, charge, Settings, Recorded, done, exceeded, unpriced, ReasonCode, daily_call_limit,
  daily_cost_limit, invalid_pricing_config, exceeds, record_usage, record_priced,
  call_limit_for_tier, estimated_cost_of, resolve_token_rates,
}
use horadus.Pricing.{Rates}
use horadus.Budget.Table.{
  same_key, usage_of, get_or_create-find, get_or_create-usage, get_or_create-total,
  get_or_create-usage_of, total-charge, usage_of-charge, usage_of-charge_other,
}
use horadus.Prelude.{
  Bool-cases, List, Option, Option-cases, ap, false, get_or, if◌then◌else◌, inl, inr, refl, true, ℕ,
  ◌&&◌, ◌+◌, ◌==◌, ◌∙◌, ◌≡◌,
}

module _ (settings : Settings) (today now : ℕ) (tier : Tier) (inputs outputs : ℕ) (rates : Rates)
    (rows : List ApiUsage) where
  abbrev cost : ℕ
  cost = estimated_cost_of rates inputs outputs

  abbrev projected_calls : ℕ
  projected_calls = (usage_of today tier rows).call_count + 1

  abbrev call_limit : ℕ
  call_limit = call_limit_for_tier settings tier

  abbrev projected_cost : ℕ
  projected_cost = amount (total_cost_for_date today rows) + cost

  -- Why a call is refused: the limit on calls comes first.
  abbrev pub Cause : ReasonCode → Type 0
  Cause daily_call_limit = exceeds call_limit projected_calls ≡ true
  Cause daily_cost_limit =
      (exceeds call_limit projected_calls ≡ false)
      × (exceeds settings.daily_limit projected_cost ≡ true)
  Cause invalid_pricing_config = true ≡ false

  -- The total of a date and the usage of a tier on it, after a table became another.
  abbrev pub Unchanged : ℕ → Tier → List ApiUsage → Type 0
  Unchanged date t rows' =
      (total_cost_for_date date rows' ≡ total_cost_for_date date rows)
      × (usage_of date t rows' ≡ usage_of date t rows)

  abbrev pub Effect : ℕ → Tier → Recorded → List ApiUsage → Type 0
  Effect date t unpriced rows' = Unchanged date t rows'
  Effect date t (exceeded reason) rows' = Cause reason × Unchanged date t rows'
  Effect date t done rows' =
      (exceeds call_limit projected_calls ≡ false)
      × (exceeds settings.daily_limit projected_cost ≡ false)
      × (total_cost_for_date date rows'
          ≡ total_cost_for_date date rows + (if date == today then stored_cost cost else 0))
      × (usage_of date t rows' ≡ (
          if date == today && same_tier t tier
          then charge now inputs outputs cost (usage_of today tier rows)
          else usage_of date t rows))

  unchanged : (date : ℕ) (t : Tier) → Unchanged date t (get_or_create_usage today tier rows).1
  unchanged date t =
      (get_or_create-total date today tier rows, get_or_create-usage_of date today t tier rows)

  same_usage : (get_or_create_usage today tier rows).0 ≡ usage_of today tier rows
  same_usage = get_or_create-usage today tier rows

  same_total :
      total_cost_for_date today (get_or_create_usage today tier rows).1
      ≡ total_cost_for_date today rows
  same_total = get_or_create-total today today tier rows

  charged_total :
      (date : ℕ)
      → total_cost_for_date date (
          update_usage today tier
            (charge now inputs outputs cost)
            (get_or_create_usage today tier rows).1)
        ≡ total_cost_for_date date rows + (if date == today then stored_cost cost else 0)
  charged_total date =
      total-charge date today now inputs outputs cost tier (get_or_create_usage today tier rows).1
        (get_or_create_usage today tier rows).0 (get_or_create-find today tier rows)
      ∙ ap (λ n. n + (if date == today then stored_cost cost else 0))
          (get_or_create-total date today tier rows)

  charged :
      (date : ℕ) (t : Tier)
      → usage_of date t (
          update_usage today tier
            (charge now inputs outputs cost)
            (get_or_create_usage today tier rows).1)
        ≡ (if date == today && same_tier t tier
            then charge now inputs outputs cost (usage_of today tier rows)
            else usage_of date t rows)
  charged date t = elim (Bool-cases (date == today && same_tier t tier)) [
    | inr o ↦ rw o (
        usage_of-charge_other date today now inputs outputs cost t tier
          (get_or_create_usage today tier rows).1 o
        ∙ get_or_create-usage_of date today t tier rows)
    | inl o ↦
        let k = same_key date today t tier o in
        rw (o, k.0, k.1)
          (usage_of-charge today now inputs outputs cost tier
              (get_or_create_usage today tier rows).1 (get_or_create_usage today tier rows).0
              (get_or_create-find today tier rows)
            ∙ ap (charge now inputs outputs cost) (get_or_create-usage today tier rows))
  ]

  record_priced-Effect :
      (date : ℕ) (t : Tier)
      → Effect date t
          (record_priced settings today now tier inputs outputs rates rows).0
          (record_priced settings today now tier inputs outputs rates rows).1
  unfolding record_priced
  record_priced-Effect date t =
      elim (Bool-cases
        (exceeds call_limit ((get_or_create_usage today tier rows).0.call_count + 1))) [
          | inl e ↦ rw (e, record_priced) (rw same_usage at e, unchanged date t)
          | inr e ↦
              elim (Bool-cases (
                exceeds settings.daily_limit (
                  amount (total_cost_for_date today (get_or_create_usage today tier rows).1)
                  + cost))) [
                    | inl f ↦
                        rw (e, record_priced, f)
                          ((rw same_usage at e, rw same_total at f), unchanged date t)
                    | inr f ↦
                        rw (e, record_priced, f)
                          (
                            rw same_usage at e,
                            rw same_total at f,
                            charged_total date,
                            charged date t,
                          )
                  ]
        ]

-- Whatever `record_usage` is given, `rates` being the prices of its route if it has any: a refused call changes neither the total of any date nor the usage
-- of any tier, and is refused for its cause, the limit on calls first; a call without a price changes
-- nothing; and a call that is recorded is within both limits, with the stored total of its day and its
-- own exact cost, and adds its cost, rounded to the ten-thousandth of a dollar that the column keeps,
-- to the total of its day and to its tier, with one call and its tokens, and to no other tier.
pub record_usage-Effect :
    (settings : Settings) (today now : ℕ) (tier : Tier) (inputs outputs : ℕ)
    (provider model : Option (List ℕ)) (rates : Rates) (rows : List ApiUsage) (date : ℕ) (t : Tier)
    → get_or (resolve_token_rates settings tier provider model) rates ≡ rates
    → Effect settings today now tier inputs outputs rates rows date t
        (record_usage settings today now tier inputs outputs provider model rows).0
        (record_usage settings today now tier inputs outputs provider model rows).1
unfolding record_usage
record_usage-Effect settings today now tier inputs outputs provider model rates rows date t h =
    elim (Option-cases (resolve_token_rates settings tier provider model)) [
      | inl e ↦ rw (e, record_usage) (refl, refl)
      | inr (found, e) ↦
          rw (e, record_usage, rw e at h)
            (record_priced-Effect settings today now tier inputs outputs rates rows date t)
    ]
