-- ===== src/Policy/Checks.antt =====
-- The checks before an invocation of src/processing/llm_policy.py, which count nothing.
use horadus.Failover.{LlmChatRoute}
use horadus.Budget.{
  Settings, Tier, ApiUsage, ensure_within_budget, check_budget, resolve_token_rates,
  total_cost_for_date,
}
use horadus.Budget.Table.{usage_of, get_or_create-usage_of, get_or_create-total}
use horadus.Budget.Limits.{WithinLimits}
use horadus.Policy.{check_route, check_secondary, check_routes}
use horadus.Prelude.{List, Option, Option-cases, inl, inr, none, refl, some, ℕ, ◌∙◌, ◌≡◌}

-- The total of a date and the usage of a tier on it are the same in two tables.
abbrev pub Same : ℕ → Tier → List ApiUsage → List ApiUsage → Type 0
Same date t rows rows' =
    (total_cost_for_date date rows' ≡ total_cost_for_date date rows)
    × (usage_of date t rows' ≡ usage_of date t rows)

Same-trans :
    (date : ℕ) (t : Tier) (a b c : List ApiUsage)
    → Same date t a b
    → Same date t b c
    → Same date t a c
Same-trans date t a b c x y = (y.0 ∙ x.0, y.1 ∙ x.1)

ensure_within_budget-Same :
    (settings : Settings) (today : ℕ) (tier : Tier) (provider model : Option (List ℕ))
    (rows : List ApiUsage) (date : ℕ) (t : Tier)
    → Same date t rows (ensure_within_budget settings today tier provider model rows).1
unfolding ensure_within_budget check_budget
ensure_within_budget-Same settings today tier provider model rows date t =
    elim (Option-cases (resolve_token_rates settings tier provider model)) [
      | inl e ↦ rw (e, ensure_within_budget) (refl, refl)
      | inr (rates, e) ↦
          rw (e, ensure_within_budget)
            (
              get_or_create-total date today tier rows,
              get_or_create-usage_of date today t tier rows,
            )
    ]

check_route-Same :
    (settings : Settings) (today : ℕ) (tier : Option Tier) (route : LlmChatRoute)
    (rows : List ApiUsage) (date : ℕ) (t : Tier)
    → Same date t rows (check_route settings today tier route rows).1
check_route-Same settings today none route rows date t = (refl, refl)
check_route-Same settings today (some tier) route rows date t =
    ensure_within_budget-Same settings today tier (some route.provider) (some route.model) rows date
      t

check_secondary-Same :
    (settings : Settings) (today : ℕ) (tier : Option Tier) (route : Option LlmChatRoute)
    (rows : List ApiUsage) (date : ℕ) (t : Tier)
    → Same date t rows (check_secondary settings today tier route rows).1
check_secondary-Same settings today tier none rows date t = (refl, refl)
check_secondary-Same settings today tier (some route) rows date t =
    check_route-Same settings today tier route rows date t

pub check_routes-Same :
    (settings : Settings) (today : ℕ) (tier : Option Tier) (primary : LlmChatRoute)
    (secondary : Option LlmChatRoute) (rows : List ApiUsage) (date : ℕ) (t : Tier)
    → Same date t rows (check_routes settings today tier primary secondary rows).1
unfolding check_routes
check_routes-Same settings today tier primary secondary rows date t =
    let first = check_route-Same settings today tier primary rows date t in
    let between = (check_route settings today tier primary rows).1 in
    elim (Option-cases (check_route settings today tier primary rows).0) [
      | inl e ↦
          rw (e, check_routes)
            (Same-trans date t rows between
              (check_secondary settings today tier secondary between).1 first
              (check_secondary-Same settings today tier secondary between date t))
      | inr (reason, e) ↦ rw (e, check_routes) first
    ]

pub Same-WithinLimits :
    (settings : Settings) (date : ℕ) (t : Tier) (rows rows' : List ApiUsage)
    → Same date t rows rows'
    → WithinLimits settings date t rows
    → WithinLimits settings date t rows'
Same-WithinLimits settings date t rows rows' s w = (rw s.0 w.0, rw s.1 w.1)
