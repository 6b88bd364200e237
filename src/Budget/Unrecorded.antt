-- ===== src/Budget/Unrecorded.antt =====
-- What follows in src/processing/cost_tracker.py when the usage of a call that was made is refused.
use horadus.Pricing.{Rates}
use horadus.Budget.{
  amount, Settings, Tier, ApiUsage, ReasonCode, daily_call_limit, daily_cost_limit, Recorded, done,
  unpriced, exceeded, check_budget, ensure_within_budget, record_usage, resolve_token_rates,
  reaches, call_limit_for_tier, get_or_create_usage, total_cost_for_date,
}
use horadus.Budget.Table.{usage_of, get_or_create-usage, get_or_create-total}
use horadus.Budget.Refusals.{record_usage-Effect, Effect}
use horadus.Prelude.{
  List, Option, Option-cases, ap, if◌then◌else◌, inl, inr, none, refl, some, sym, ℕ, ◌∙◌, ◌≡◌, ◌≢◌,
}

-- The verdict of `check_budget`, by a tier's calls and a day's total.
abbrev verdict : Settings → Tier → ℕ → ℕ → Option ReasonCode
verdict settings tier calls total =
    if reaches (call_limit_for_tier settings tier) calls
    then some daily_call_limit
    else if reaches settings.daily_limit (amount total)
    then some daily_cost_limit
    else none

check_budget-verdict :
    (settings : Settings) (today : ℕ) (tier : Tier) (rows : List ApiUsage)
    → (check_budget settings today tier rows).0
      ≡ verdict settings tier (usage_of today tier rows).call_count (total_cost_for_date today rows)
unfolding check_budget
check_budget-verdict settings today tier rows =
    ap
      (λ u.
        verdict settings tier u.call_count
          (total_cost_for_date today (get_or_create_usage today tier rows).1))
      (get_or_create-usage today tier rows)
    ∙ ap (verdict settings tier (usage_of today tier rows).call_count)
        (get_or_create-total today today tier rows)

check_budget-Effect :
    (settings : Settings) (today now : ℕ) (tier : Tier) (inputs outputs : ℕ) (rates : Rates)
    (rows : List ApiUsage) (outcome : Recorded) (rows' : List ApiUsage)
    → Effect settings today now tier inputs outputs rates rows today tier outcome rows'
    → outcome ≢ done
    → (check_budget settings today tier rows').0 ≡ (check_budget settings today tier rows).0
check_budget-Effect settings today now tier inputs outputs rates rows unpriced rows' e h =
    check_budget-verdict settings today tier rows'
    ∙ rw (e.0, e.1) (sym (check_budget-verdict settings today tier rows))
check_budget-Effect settings today now tier inputs outputs rates rows (exceeded r) rows' e h =
    check_budget-verdict settings today tier rows'
    ∙ rw (e.1.0, e.1.1) (sym (check_budget-verdict settings today tier rows))
check_budget-Effect settings today now tier inputs outputs rates rows done rows' e h =
    elim (h refl) [ ]

-- A call that the check let through and whose usage is then refused leaves the check as it was: the
-- next call of the tier on that route is let through, too, and so on, though each was made and paid.
pub unrecorded_allows_again :
    (settings : Settings) (today now : ℕ) (tier : Tier) (inputs outputs : ℕ)
    (provider model : Option (List ℕ)) (rows : List ApiUsage)
    → (ensure_within_budget settings today tier provider model rows).0 ≡ none
    → (record_usage settings today now tier inputs outputs provider model rows).0 ≢ done
    → (ensure_within_budget settings today tier provider model
        (record_usage settings today now tier inputs outputs provider model rows).1).0
      ≡ none
unfolding ensure_within_budget
unrecorded_allows_again settings today now tier inputs outputs provider model rows h r =
    elim (Option-cases (resolve_token_rates settings tier provider model)) [
      | inl e ↦ rw (e, ensure_within_budget) (rw (e, ensure_within_budget) at h)
      | inr (rates, e) ↦
          let e' =
            record_usage-Effect settings today now tier inputs outputs provider model rates rows
              today tier (rw e refl) in
          rw (e, ensure_within_budget)
            (check_budget-Effect settings today now tier inputs outputs rates rows
                (record_usage settings today now tier inputs outputs provider model rows).0
                (record_usage settings today now tier inputs outputs provider model rows).1 e' r
              ∙ (rw (e, ensure_within_budget) at h))
    ]
