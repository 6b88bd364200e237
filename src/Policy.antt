-- ===== src/Policy.antt =====
-- src/processing/llm_policy.py: one invocation of a model, which the budget of a tier guards. It calls
-- Budget before and after, and Failover in between. The provider's replies and the token counts that a
-- reply reports are parameters; reasoning efforts are left out.
pub mod Checks
pub mod Guarded
pub mod Tests
use horadus.Prelude.{
  ℕ, Bool, true, false, ◌&&◌, ◌||◌, not, Option, none, some, List, ◌==◌, if◌then◌else◌, map, lower,
  contains, codes,
}
use horadus.Pricing.{estimate_model_cost_usd}
use horadus.Failover.{
  LlmException, LlmChatRoute, LlmChatRetryPolicy, Reply, Completion, completed, raised,
  assertion_error, World, Invoker, extract_status_code, create_chat_completion,
}
use horadus.Budget.{
  Settings, Tier, ApiUsage, ReasonCode, Recorded, done, unpriced, exceeded, ensure_within_budget,
  record_usage,
}

-- The route that answered, and what is returned.
pub record LlmInvocationResult (A : Type 0) : Type 0 where
  pub response : A
  pub active_provider : List ℕ
  pub active_model : List ℕ
  pub used_secondary_route : Bool
  pub prompt_tokens : ℕ
  pub completion_tokens : ℕ
  pub estimated_cost_usd : ℕ

-- What an invocation ends with. `rejected` is a failure before a model is called, `unrecorded` one
-- after a model has answered.
pub data Invocation (A : Type 0) : Type 0 where
  invoked : LlmInvocationResult A → Invocation A
  rejected : ReasonCode → Invocation A
  unrecorded : Recorded → Invocation A
  failed_call : LlmException → Invocation A
  failed_assertion : Invocation A

-- The readings of the clock around the call of the model.
pub record PolicyClock : Type 0 where
  pub checked_on : ℕ
  pub recorded_on : ℕ
  pub recorded_at : ℕ

abbrev is_400 : Option ℕ → Bool
is_400 none = false
is_400 (some status) = status == 400

unfoldable pub is_strict_schema_unsupported_error : LlmException → Bool
unfolding extract_status_code lower contains
is_strict_schema_unsupported_error exc =
    let message = map lower exc.message in
    is_400 (extract_status_code exc)
    && (contains (codes "json_schema") message
        || contains (codes "response_format") message
        || contains (codes "strict") message)

-- The budget check of one route, where the invocation has a tier.
abbrev pub check_route :
    Settings → ℕ → Option Tier → LlmChatRoute → List ApiUsage → Option ReasonCode × List ApiUsage
check_route settings today none route rows = (none, rows)
check_route settings today (some tier) route rows =
    ensure_within_budget settings today tier (some route.provider) (some route.model) rows

abbrev pub check_secondary :
    Settings
    → ℕ
    → Option Tier
    → Option LlmChatRoute
    → List ApiUsage
    → Option ReasonCode × List ApiUsage
check_secondary settings today tier none rows = (none, rows)
check_secondary settings today tier (some route) rows = check_route settings today tier route rows

unfoldable pub check_routes :
    Settings
    → ℕ
    → Option Tier
    → LlmChatRoute
    → Option LlmChatRoute
    → List ApiUsage
    → Option ReasonCode × List ApiUsage
check_routes settings today tier primary secondary rows =
    elim (check_route settings today tier primary rows).0 [
      | some reason ↦ (some reason, (check_route settings today tier primary rows).1)
      | none ↦
          check_secondary settings today tier secondary
            (check_route settings today tier primary rows).1
    ]

-- `active_route is secondary_route`
abbrev pub is_route : Option LlmChatRoute → LlmChatRoute → Bool
is_route none route = false
is_route (some secondary) route = route.identity == secondary.identity

abbrev pub record_route :
    Settings
    → PolicyClock
    → Option Tier
    → ℕ × ℕ
    → LlmChatRoute
    → List ApiUsage
    → Recorded × List ApiUsage
record_route settings clock none tokens route rows = (done, rows)
record_route settings clock (some tier) tokens route rows =
    record_usage settings clock.recorded_on clock.recorded_at tier tokens.0 tokens.1
      (some route.provider) (some route.model) rows

module _ {S F A : Type 0} (respond : S → LlmChatRoute → Option F → Reply A × S) where
  -- what follows a failure under the strict format
  unfoldable pub after_strict :
      Invoker → Option F → Completion A × World S (Option F) → Completion A × World S (Option F)
  after_strict invoker fallback (completed a route, world) = (completed a route, world)
  after_strict invoker fallback (assertion_error, world) = (assertion_error, world)
  after_strict invoker none (raised exc, world) = (raised exc, world)
  after_strict invoker (some format) (raised exc, world) =
      elim (is_strict_schema_unsupported_error exc) [
        | true ↦ create_chat_completion respond invoker (some format) world
        | false ↦ (raised exc, world)
      ]

  unfoldable pub complete :
      Invoker → Option F → Option F → World S (Option F) → Completion A × World S (Option F)
  unfolding after_strict
  complete invoker none fallback world = create_chat_completion respond invoker fallback world
  complete invoker (some strict) fallback world =
      after_strict invoker fallback (create_chat_completion respond invoker (some strict) world)

module _ {A : Type 0} (usage_tokens : A → ℕ × ℕ) where
  abbrev pub result_of : Option LlmChatRoute → A → LlmChatRoute → LlmInvocationResult A
  result_of secondary response route = record {
    response = response;
    active_provider = route.provider;
    active_model = route.model;
    used_secondary_route = is_route secondary route;
    prompt_tokens = (usage_tokens response).0;
    completion_tokens = (usage_tokens response).1;
    estimated_cost_usd =
        estimate_model_cost_usd route.model (usage_tokens response).0 (usage_tokens response).1;
  }

  -- the end of the function, for the completion
  unfoldable pub finish :
      Settings
      → PolicyClock
      → Option Tier
      → Option LlmChatRoute
      → List ApiUsage
      → Completion A
      → Invocation A × List ApiUsage
  finish settings clock tier secondary rows (raised exc) = (failed_call exc, rows)
  finish settings clock tier secondary rows assertion_error = (failed_assertion, rows)
  finish settings clock tier secondary rows (completed a route) =
      let (recorded, rows') = record_route settings clock tier (usage_tokens a) route rows in
      elim recorded [
        | done ↦ (invoked (result_of secondary a route), rows')
        | unpriced ↦ (unrecorded unpriced, rows')
        | exceeded reason ↦ (unrecorded (exceeded reason), rows')
      ]

module _ {S F A : Type 0} (respond : S → LlmChatRoute → Option F → Reply A × S)
    (usage_tokens : A → ℕ × ℕ) where
  -- The outcome, the provider's side and the table of usage.
  unfoldable pub invoke_with_policy :
      Settings
      → PolicyClock
      → Option Tier
      → Invoker
      → Option F
      → Option F
      → World S (Option F)
      → List ApiUsage
      → Invocation A × World S (Option F) × List ApiUsage
  unfolding check_routes complete finish
  invoke_with_policy settings clock tier invoker strict fallback world rows =
      let (refusal, rows') =
        check_routes settings clock.checked_on tier invoker.primary invoker.secondary rows in
      let (completion, world') = complete respond invoker strict fallback world in
      let (outcome, rows'') =
        finish usage_tokens settings clock tier invoker.secondary rows' completion in
      elim refusal [
        | some reason ↦ (rejected reason, world, rows')
        | none ↦ (outcome, world', rows'')
      ]
