-- ===== src/Policy/Guarded.antt =====
-- What an invocation of src/processing/llm_policy.py does to the usage table.
use horadus.Failover.{
  raised, assertion_error, completed, World, Invoker, Completion, Reply, LlmChatRoute,
}
use horadus.Budget.{
  same_tier, tier1, tier2, embedding, record_usage, exceeded, ReasonCode, unpriced, Recorded, done,
  Settings, Tier, ApiUsage, resolve_token_rates,
}
use horadus.Budget.Table.{usage_of}
use horadus.Budget.Limits.{price-price, WithinLimits, record_call-WithinLimits}
use horadus.Pricing.{Rates}
use horadus.Budget.Refusals.{record_usage-Effect, Effect}
use horadus.Policy.Checks.{check_routes-Same, Same-WithinLimits}
use horadus.Policy.{
  complete, invoked, LlmInvocationResult, invoke_with_policy, finish, PolicyClock, check_routes,
  record_route,
}
use horadus.Prelude.{
  List, Option, Option-cases, ap, arith, get_or, inl, inr, none, refl, some, true, ℕ, ◌&&◌, ◌+◌,
  ◌==◌, ◌∙◌, ◌≡◌, ◌⊎◌,
}

record_route-WithinLimits :
    (settings : Settings) (clock : PolicyClock) (tier : Option Tier) (tokens : ℕ × ℕ)
    (route : LlmChatRoute) (rows : List ApiUsage) (date : ℕ) (t : Tier)
    → WithinLimits settings date t rows
    → WithinLimits settings date t (record_route settings clock tier tokens route rows).1
record_route-WithinLimits settings clock none tokens route rows date t w = w
record_route-WithinLimits settings clock (some tier) tokens route rows date t w =
    record_call-WithinLimits settings
      (record {
        today = clock.recorded_on;
        now = clock.recorded_at;
        called_tier = tier;
        inputs = tokens.0;
        outputs = tokens.1;
        provider = some route.provider;
        model = some route.model;
      })
      rows date t w

same_self : (day : ℕ) (tier : Tier) → (day == day && same_tier tier tier) ≡ true
same_self day tier1 = ground arith
same_self day tier2 = ground arith
same_self day embedding = ground arith

Effect-once :
    (settings : Settings) (today now : ℕ) (tier : Tier) (inputs outputs : ℕ) (rates : Rates)
    (rows rows' : List ApiUsage)
    → Effect settings today now tier inputs outputs rates rows today tier done rows'
    → (usage_of today tier rows').call_count ≡ (usage_of today tier rows).call_count + 1
Effect-once settings today now tier inputs outputs rates rows rows' e =
    rw (e.3, same_self today tier) refl

recorded_once :
    (settings : Settings) (clock : PolicyClock) (tier : Tier) (tokens : ℕ × ℕ)
    (route : LlmChatRoute) (rows : List ApiUsage)
    → (record_route settings clock (some tier) tokens route rows).0 ≡ done
    → (usage_of clock.recorded_on tier
        (record_route settings clock (some tier) tokens route rows).1).call_count
      ≡ (usage_of clock.recorded_on tier rows).call_count + 1
recorded_once settings clock tier tokens route rows e =
    let price = resolve_token_rates settings tier (some route.provider) (some route.model) in
    let rates = get_or price (0, 0) in
    let recorded =
      record_usage settings clock.recorded_on clock.recorded_at tier tokens.0 tokens.1
        (some route.provider) (some route.model) rows in
    Effect-once settings clock.recorded_on clock.recorded_at tier tokens.0 tokens.1 rates rows
      recorded.1
      (rw e at (
        record_usage-Effect settings clock.recorded_on clock.recorded_at tier tokens.0 tokens.1
          (some route.provider) (some route.model) rates rows clock.recorded_on tier
          (price-price price)))

Recorded-cases :
    (r : Recorded) → (r ≡ done) ⊎ ((r ≡ unpriced) ⊎ ((reason : ReasonCode) × (r ≡ exceeded reason)))
Recorded-cases done = inl refl
Recorded-cases unpriced = inr (inl refl)
Recorded-cases (exceeded reason) = inr (inr (reason, refl))

module _ {A : Type 0} (usage_tokens : A → ℕ × ℕ) where
  finish-WithinLimits :
      (settings : Settings) (clock : PolicyClock) (tier : Option Tier)
      (secondary : Option LlmChatRoute) (rows : List ApiUsage) (completion : Completion A)
      (date : ℕ) (t : Tier)
      → WithinLimits settings date t rows
      → WithinLimits settings date t
          (finish usage_tokens settings clock tier secondary rows completion).1
  unfolding finish
  finish-WithinLimits settings clock tier secondary rows (raised exc) date t w = w
  finish-WithinLimits settings clock tier secondary rows assertion_error date t w = w
  finish-WithinLimits settings clock tier secondary rows (completed a route) date t w =
      let kept =
        record_route-WithinLimits settings clock tier (usage_tokens a) route rows date t w in
      elim (Recorded-cases (record_route settings clock tier (usage_tokens a) route rows).0) [
        | inl e ↦ rw (e, finish) kept
        | inr (inl e) ↦ rw (e, finish) kept
        | inr (inr (reason, e)) ↦ rw (e, finish) kept
      ]

  -- A result is returned for a recorded call alone.
  finish_recorded :
      (settings : Settings) (clock : PolicyClock) (tier : Tier) (secondary : Option LlmChatRoute)
      (rows : List ApiUsage) (completion : Completion A) (result : LlmInvocationResult A)
      → (finish usage_tokens settings clock (some tier) secondary rows completion).0
        ≡ invoked result
      → (usage_of clock.recorded_on tier
          (finish usage_tokens settings clock (some tier) secondary rows completion).1).call_count
        ≡ (usage_of clock.recorded_on tier rows).call_count + 1
  unfolding finish
  finish_recorded settings clock tier secondary rows (raised exc) result h = cc
  finish_recorded settings clock tier secondary rows assertion_error result h = cc
  finish_recorded settings clock tier secondary rows (completed a route) result h =
      elim (Recorded-cases
        (record_route settings clock (some tier) (usage_tokens a) route rows).0) [
          | inl e ↦ rw (e, finish) (recorded_once settings clock tier (usage_tokens a) route rows e)
          | inr (inl e) ↦ let h' = (rw (e, finish) at h) in cc
          | inr (inr (reason, e)) ↦ let h' = (rw (e, finish) at h) in cc
        ]

module _ {S F A : Type 0} (respond : S → LlmChatRoute → Option F → Reply A × S)
    (usage_tokens : A → ℕ × ℕ) where
  -- Whatever the model answers and however the invocation ends, it leaves every day's stored total cost
  -- within the daily limit, as the column rounds it, and every tier's calls within theirs if they were.
  pub invoke_with_policy-WithinLimits :
      (settings : Settings) (clock : PolicyClock) (tier : Option Tier) (invoker : Invoker)
      (strict fallback : Option F) (world : World S (Option F)) (rows : List ApiUsage) (date : ℕ)
      (t : Tier)
      → WithinLimits settings date t rows
      → WithinLimits settings date t
          (invoke_with_policy respond usage_tokens settings clock tier invoker strict fallback world
            rows).2
  unfolding invoke_with_policy
  invoke_with_policy-WithinLimits settings clock tier invoker strict fallback world rows date t w =
      let checked =
        (check_routes settings clock.checked_on tier invoker.primary invoker.secondary rows).1 in
      let kept =
        Same-WithinLimits settings date t rows checked
          (check_routes-Same settings clock.checked_on tier invoker.primary invoker.secondary rows
            date t)
          w in
      elim (Option-cases
        (check_routes settings clock.checked_on tier invoker.primary invoker.secondary rows).0) [
          | inl e ↦
              rw (e, invoke_with_policy)
                (finish-WithinLimits usage_tokens settings clock tier invoker.secondary checked
                  (complete respond invoker strict fallback world).0 date t kept)
          | inr (reason, e) ↦ rw (e, invoke_with_policy) kept
        ]

  -- An invocation for a tier that returns a result has counted exactly one call more for the tier on
  -- the day of the record.
  pub invoke_with_policy_counts :
      (settings : Settings) (clock : PolicyClock) (tier : Tier) (invoker : Invoker)
      (strict fallback : Option F) (world : World S (Option F)) (rows : List ApiUsage)
      (result : LlmInvocationResult A)
      → (invoke_with_policy respond usage_tokens settings clock
          (some tier)
          invoker
          strict
          fallback
          world
          rows).0
        ≡ invoked result
      → (usage_of clock.recorded_on tier
          (invoke_with_policy respond usage_tokens settings clock
            (some tier)
            invoker
            strict
            fallback
            world
            rows).2).call_count
        ≡ (usage_of clock.recorded_on tier rows).call_count + 1
  unfolding invoke_with_policy
  invoke_with_policy_counts settings clock tier invoker strict fallback world rows result h =
      let checked =
        (check_routes settings clock.checked_on (some tier) invoker.primary invoker.secondary
          rows).1 in
      let same =
        check_routes-Same settings clock.checked_on (some tier) invoker.primary invoker.secondary
          rows clock.recorded_on tier in
      elim (Option-cases
        (check_routes settings clock.checked_on (some tier) invoker.primary invoker.secondary
          rows).0) [
            | inl e ↦
                rw (e, invoke_with_policy)
                  (finish_recorded usage_tokens settings clock tier invoker.secondary checked
                      (complete respond invoker strict fallback world).0 result
                      (rw (e, invoke_with_policy) at h)
                    ∙ ap (λ u. u.call_count + 1) same.1)
            | inr (reason, e) ↦ let h' = (rw (e, invoke_with_policy) at h) in cc
          ]
