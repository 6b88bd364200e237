-- ===== src/Failover/Routing.antt =====
-- The failover from the primary route to the secondary.
use mathlib.Core.Path.{subst}
use horadus.Prelude.{Bool-cases, ℕ, ◌≤◌, ◌≡◌, ◌⊎◌, inl, inr, refl, true, false, Option, none, some}
use horadus.Failover.{
  LlmChatRoute, LlmException, Reply, RouteOutcome, answered, failed, exhausted, Completion,
  completed, raised, assertion_error, World, Call, Invoker, after_primary, after_secondary,
  fail_over, create_chat_completion, is_retryable_error,
}
use horadus.Failover.Retries.{Attempts, IsSettled, create_with_route_retries-IsSettled}

module _ {S F A : Type 0} (respond : S → LlmChatRoute → F → Reply A × S) where
  abbrev on_route : LlmChatRoute → F → Call F
  on_route route format = record { route = route; format = format }

  -- Only the primary route was called, k times.
  abbrev pub PrimaryOnly : Invoker → F → World S F → World S F → ℕ → Type 0
  PrimaryOnly invoker format before after k =
      Attempts respond invoker.retry_policy (on_route invoker.primary format) before after k

  -- The primary route was called as often as the policy allows, and then the secondary k times.
  pub record FailedOver (invoker : Invoker) (format : F) (before after : World S F) (k : ℕ)
      : Type 0 where
    pub secondary : LlmChatRoute
    pub middle : World S F
    pub configured : invoker.secondary ≡ some secondary
    pub primary_attempts :
        Attempts respond invoker.retry_policy
          (on_route invoker.primary format)
          before
          middle
          invoker.retry_policy.max_attempts
    pub secondary_attempts :
        Attempts respond invoker.retry_policy (on_route secondary format) middle after k

  abbrev pub IsRouted : Invoker → F → World S F → Completion A × World S F → Type 0
  IsRouted invoker format before (completed a route, after) =
      (k : ℕ) × ((PrimaryOnly invoker format before after k × (route ≡ invoker.primary))
        ⊎ (FailedOver invoker format before after k × (invoker.secondary ≡ some route)))
  IsRouted invoker format before (raised exc, after) =
      (k : ℕ) × ((PrimaryOnly invoker format before after k
          × ((is_retryable_error exc ≡ false)
              ⊎ ((invoker.secondary ≡ none) × (k ≡ invoker.retry_policy.max_attempts))))
        ⊎ (FailedOver invoker format before after k
            × ((is_retryable_error exc ≡ false) ⊎ (k ≡ invoker.retry_policy.max_attempts))))
  IsRouted invoker format before (assertion_error, after) = ⊥

  after_secondary-IsRouted :
      (invoker : Invoker) (format : F) (secondary : LlmChatRoute) (before middle : World S F)
      (end : RouteOutcome A × World S F)
      → invoker.secondary ≡ some secondary
      → PrimaryOnly invoker format before middle invoker.retry_policy.max_attempts
      → IsSettled respond invoker.retry_policy (on_route secondary format) middle end
      → IsRouted invoker format before (after_secondary respond secondary end)
  unfolding after_secondary
  after_secondary-IsRouted invoker format secondary before middle (answered a k, after) c p s = (
    k,
    inr (
      record {
        secondary = secondary;
        middle = middle;
        configured = c;
        primary_attempts = p;
        secondary_attempts = s;
      },
      c,
    ),
  )
  after_secondary-IsRouted invoker format secondary before middle (failed exc k, after) c p s = (
    k,
    inr (
      record {
        secondary = secondary;
        middle = middle;
        configured = c;
        primary_attempts = p;
        secondary_attempts = s.0;
      },
      s.1,
    ),
  )
  after_secondary-IsRouted invoker format secondary before middle (exhausted, after) c p s =
      absurd s

  -- a retryable error of the primary has used up its attempts
  used_up :
      (invoker : Invoker) (format : F) (before after : World S F) (exc : LlmException) (k : ℕ)
      → IsSettled respond invoker.retry_policy
          (on_route invoker.primary format)
          before
          (failed exc k, after)
      → is_retryable_error exc ≡ true
      → PrimaryOnly invoker format before after invoker.retry_policy.max_attempts
  used_up invoker format before after exc k (s, inl never) r = cc
  used_up invoker format before after exc k (s, inr last) r =
      subst (PrimaryOnly invoker format before after) last s

  fail_over-IsRouted :
      (invoker : Invoker) (format : F) (before after : World S F) (exc : LlmException) (k : ℕ)
      (secondary : Option LlmChatRoute)
      → 1 ≤ invoker.retry_policy.max_attempts
      → invoker.secondary ≡ secondary
      → IsSettled respond invoker.retry_policy
          (on_route invoker.primary format)
          before
          (failed exc k, after)
      → IsRouted invoker format before (fail_over respond invoker secondary format exc after)
  unfolding fail_over
  fail_over-IsRouted invoker format before after exc k none h c (s, inl never) =
      (k, inl (s, inl never))
  fail_over-IsRouted invoker format before after exc k none h c (s, inr last) =
      (k, inl (s, inr (c, last)))
  fail_over-IsRouted invoker format before after exc k (some route) h c s =
      elim (Bool-cases (is_retryable_error exc)) [
        | inr never ↦ rw (never, fail_over) (k, inl (s.0, inl never))
        | inl again ↦
            rw (again, fail_over)
              (after_secondary-IsRouted invoker format route before after _ c
                (used_up invoker format before after exc k s again)
                (create_with_route_retries-IsSettled respond invoker.retry_policy route format after
                  h))
      ]

  after_primary-IsRouted :
      (invoker : Invoker) (format : F) (before : World S F) (end : RouteOutcome A × World S F)
      → 1 ≤ invoker.retry_policy.max_attempts
      → IsSettled respond invoker.retry_policy (on_route invoker.primary format) before end
      → IsRouted invoker format before (after_primary respond invoker format end)
  unfolding after_primary
  after_primary-IsRouted invoker format before (answered a k, after) h s = (k, inl (s, refl))
  after_primary-IsRouted invoker format before (failed exc k, after) h s =
      fail_over-IsRouted invoker format before after exc k invoker.secondary h refl s
  after_primary-IsRouted invoker format before (exhausted, after) h s = absurd s

  -- A completion never ends in the loop's assertion. It calls the primary route first, and the
  -- secondary only after the primary has failed as often as the policy allows; an answer is
  -- attributed to the route that gave it. An error that comes back before all allowed attempts are
  -- used up, or with a secondary route left untried, is not retryable.
  pub create_chat_completion-IsRouted :
      (invoker : Invoker) (format : F) (world : World S F)
      → 1 ≤ invoker.retry_policy.max_attempts
      → IsRouted invoker format world (create_chat_completion respond invoker format world)
  unfolding create_chat_completion
  create_chat_completion-IsRouted invoker format world h =
      after_primary-IsRouted invoker format world _ h (
        create_with_route_retries-IsSettled respond invoker.retry_policy invoker.primary format
          world h)
