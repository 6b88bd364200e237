-- ===== src/Failover/Retries.antt =====
-- The retry loop on one route.
use mathlib.Core.List.{append-nil}
use horadus.Prelude.{
  sym, ℕ, zero, suc, ◌+◌, ◌*◌, ◌≤◌, ◌<◌, ◌≡◌, ◌⊎◌, false, ◌++◌, arith, replicate,
  append-replicate-snoc,
}
use horadus.Failover.{
  LlmChatRoute, LlmChatRetryPolicy, Reply, RouteOutcome, answered, failed, exhausted, World, Call,
  create_for_route, retry, create_with_route_retries, is_retryable_error, sleep,
}

-- The time slept before attempt k: the backoff times 1 + 2 + … + (k - 1).
abbrev pub backoff_before : ℕ → ℕ → ℕ
backoff_before backoff zero = 0
backoff_before backoff (suc k) = backoff_before backoff k + backoff * k

module _ {S F A : Type 0} (respond : S → LlmChatRoute → F → Reply A × S) where
  -- The attempts made, k, lie within the policy; each made one call on the route, and each but the
  -- first was preceded by its backoff.
  pub record Attempts (policy : LlmChatRetryPolicy) (call : Call F) (before after : World S F)
      (k : ℕ) : Type 0 where
    pub some_attempt : 1 ≤ k
    pub within : k ≤ policy.max_attempts
    pub logged : after.calls ≡ before.calls ++ replicate k call
    pub waited : after.slept ≡ before.slept + backoff_before policy.backoff_seconds k

  -- The loop ended by an answer or an error, and by an error only if it is not retryable or the
  -- attempts are used up.
  abbrev pub IsSettled :
      LlmChatRetryPolicy → Call F → World S F → RouteOutcome A × World S F → Type 0
  IsSettled policy call before (answered a k, after) = Attempts policy call before after k
  IsSettled policy call before (failed exc k, after) =
      Attempts policy call before after k
      × ((is_retryable_error exc ≡ false) ⊎ (k ≡ policy.max_attempts))
  IsSettled policy call before (exhausted, after) = ⊥

  retry-IsSettled :
      (policy : LlmChatRetryPolicy) (route : LlmChatRoute) (format : F) (before : World S F)
      (rounds made : ℕ) (world : World S F)
      → made + rounds ≡ policy.max_attempts
      → 0 < rounds
      → world.calls ≡ before.calls ++ replicate made (record { route = route; format = format })
      → world.slept ≡ before.slept + backoff_before policy.backoff_seconds (suc made)
      → IsSettled policy
          (record { route = route; format = format })
          before
          (retry respond policy route format rounds (suc made) world)
  unfolding retry create_for_route sleep
  retry-IsSettled policy route format before zero made world h p e t = elim p [ ]
  retry-IsSettled policy route format before (suc rounds) made world h p e t =
      let call : Call F = record { route = route; format = format } in
      let after = (create_for_route respond route format world).1 in
      let logged : after.calls ≡ before.calls ++ replicate (suc made) call =
        rw e (append-replicate-snoc before.calls made call) in
      ground (
        arith,
        logged,
        retry-IsSettled policy route format before rounds (suc made)
            (sleep (policy.backoff_seconds * suc made) after),
      )

  -- Under a policy that allows an attempt, the loop always ends by an answer or an error, never by
  -- the assertion after it. It made between one call and the number allowed, all on its route, and
  -- slept the backoff times 1 + 2 + … between them. An error comes back before the attempts are used
  -- up only if it is not retryable.
  pub create_with_route_retries-IsSettled :
      (policy : LlmChatRetryPolicy) (route : LlmChatRoute) (format : F) (world : World S F)
      → 1 ≤ policy.max_attempts
      → IsSettled policy
          (record { route = route; format = format })
          world
          (create_with_route_retries respond policy route format world)
  unfolding create_with_route_retries
  create_with_route_retries-IsSettled policy route format world h =
      retry-IsSettled policy route format world policy.max_attempts 0 world (omega arith) h
        (sym (append-nil world.calls)) (omega arith)
