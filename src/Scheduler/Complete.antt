-- ===== src/Scheduler/Complete.antt =====
-- No plan loses, adds or repeats a candidate.
use horadus.Prelude.{
  ◌∙◌, ℕ, List, Option, map, sort_by, count, count-sort_by, elem, ltb, none, some, [], ◌∷◌, ◌++◌,
  length, ◌≤◌, ◌≡◌, ◌+◌, arith, refl,
}
use horadus.Scheduler.{
  Tier2VoiCandidate, Tier2VoiDecision, PressureReason, items, item, not_under_pressure,
  missing_budget_snapshot, remaining_tier2_calls, budget_cost_slots, low_budget_headroom,
  FallbackReason, fifo_fallback, missing_trend_signals,
}
use horadus.Scheduler.Floats.{Floats}
use horadus.Scheduler.Score.{score_candidate}
use horadus.Scheduler.Interleave.{interleave_count}
use horadus.Scheduler.Plan.{
  TierBudgetSnapshot, build_tier2_voi_plan, plan_under, plan_pressed, resolve_pressure_reason,
  schedule, fall_back, reserved, unreserved, as_fifo, score_all, ranks_before, waits_before,
}

elem-count : (x : ℕ) (xs : List ℕ) → elem x xs ≡ ltb 0 (count x xs)
elem-count x [] = refl
elem-count x (y ∷ ys) = ground (arith, elem-count x ys)

module _ {F : Type 0} where
  abbrev pub ids : List (Tier2VoiCandidate F) → List ℕ
  ids = map (λ candidate. candidate.item_id)

module _ {F : Type 0} (ops : Floats F) where
  items-score_all :
      (threshold now : ℕ) (reason : PressureReason) (x : ℕ) (cs : List (Tier2VoiCandidate F))
      → count x (items (score_all ops threshold now reason cs)) ≡ count x (ids cs)
  unfolding score_candidate
  items-score_all threshold now reason x [] = refl
  items-score_all threshold now reason x (c ∷ cs) =
      ground (arith, items-score_all threshold now reason x cs)

  items-as_fifo :
      (why : FallbackReason) (x : ℕ) (ds : List (Tier2VoiDecision F))
      → count x (items (map (as_fifo ops why) ds)) ≡ count x (items ds)
  items-as_fifo why x [] = refl
  items-as_fifo why x (d ∷ ds) = ground (arith, items-as_fifo why x ds)

  count-lanes :
      (x : ℕ) (ds : List (Tier2VoiDecision F))
      → count x (items ds) ≡ count x (items (unreserved ops ds)) + count x (items (reserved ops ds))
  count-lanes x [] = omega arith
  count-lanes x (d ∷ ds) = ground (arith, count-lanes x ds)

  items-append :
      (x : ℕ) (ds es : List (Tier2VoiDecision F))
      → count x (items (ds ++ es)) ≡ count x (items ds) + count x (items es)
  items-append x [] es = omega arith
  items-append x (d ∷ ds) es = ground (arith, items-append x ds es)

  count-schedule :
      (x : ℕ) (ds : List (Tier2VoiDecision F))
      → count x (items ds) ≤ 1
      → count x (items (schedule ops ds)) ≡ count x (items ds)
  unfolding schedule
  count-schedule x ds h = ground (
    arith,
    interleave_count x (unreserved ops ds ++ reserved ops ds)
        (sort_by (waits_before ops) (reserved ops ds)),
    elem-count x (items (unreserved ops ds ++ reserved ops ds)),
    elem-count x (items (sort_by (waits_before ops) (reserved ops ds))),
    items-append x (unreserved ops ds) (reserved ops ds),
    count-lanes x ds,
    count-sort_by (waits_before ops) item x (reserved ops ds),
  )

  count-fall_back :
      (threshold now : ℕ) (reason : PressureReason) (why : FallbackReason) (x : ℕ)
      (cs : List (Tier2VoiCandidate F))
      → count x (items (fall_back ops threshold now reason why cs).decisions) ≡ count x (ids cs)
  unfolding fall_back
  count-fall_back threshold now reason why x cs =
      items-as_fifo why x (score_all ops threshold now reason cs)
      ∙ items-score_all threshold now reason x cs

  count-ranked :
      (threshold now : ℕ) (reason : PressureReason) (x : ℕ) (cs : List (Tier2VoiCandidate F))
      → count x (ids cs) ≤ 1
      → count x (
          items (schedule ops (sort_by (ranks_before ops) (score_all ops threshold now reason cs))))
        ≡ count x (ids cs)
  count-ranked threshold now reason x cs h =
      let scored = score_all ops threshold now reason cs in
      ground (
        arith,
        count-sort_by (ranks_before ops) item x scored,
        items-score_all threshold now reason x cs,
        count-schedule x (sort_by (ranks_before ops) scored),
      )

  count-plan_pressed :
      (reason : PressureReason) (threshold now : ℕ) (snapshot : Option (TierBudgetSnapshot F))
      (x : ℕ) (cs : List (Tier2VoiCandidate F))
      → count x (ids cs) ≤ 1
      → count x (items (plan_pressed ops reason threshold now snapshot cs).decisions)
        ≡ count x (ids cs)
  unfolding plan_pressed
  count-plan_pressed reason threshold now none x cs h =
      count-fall_back threshold now missing_budget_snapshot fifo_fallback x cs
  count-plan_pressed reason threshold now (some snapshot) x cs h = ground (
    arith,
    count-fall_back threshold now reason missing_trend_signals x cs,
    count-ranked threshold now reason x cs h,
  )

  count-plan_under :
      (reason : PressureReason) (threshold now : ℕ) (snapshot : Option (TierBudgetSnapshot F))
      (x : ℕ) (cs : List (Tier2VoiCandidate F))
      → count x (ids cs) ≤ 1
      → count x (items (plan_under ops reason threshold now snapshot cs).decisions)
        ≡ count x (ids cs)
  unfolding plan_under
  count-plan_under not_under_pressure threshold now snapshot x cs h =
      items-score_all threshold now not_under_pressure x cs
  count-plan_under missing_budget_snapshot threshold now snapshot x cs h =
      count-plan_pressed missing_budget_snapshot threshold now snapshot x cs h
  count-plan_under remaining_tier2_calls threshold now snapshot x cs h =
      count-plan_pressed remaining_tier2_calls threshold now snapshot x cs h
  count-plan_under budget_cost_slots threshold now snapshot x cs h =
      count-plan_pressed budget_cost_slots threshold now snapshot x cs h
  count-plan_under low_budget_headroom threshold now snapshot x cs h =
      count-plan_pressed low_budget_headroom threshold now snapshot x cs h

  -- Whatever the state of the budget and whatever the floats do, a candidate whose identifier no other
  -- candidate of the batch has stands in the plan exactly once, and an identifier of no candidate
  -- stands nowhere in it.
  pub plan_complete :
      (cs : List (Tier2VoiCandidate F)) (snapshot : Option (TierBudgetSnapshot F))
      (threshold pct now x : ℕ)
      → count x (ids cs) ≤ 1
      → count x (items (build_tier2_voi_plan ops cs snapshot threshold pct now).decisions)
        ≡ count x (ids cs)
  unfolding build_tier2_voi_plan
  plan_complete cs snapshot threshold pct now x h = ground (
    arith,
    items-score_all threshold now not_under_pressure x cs,
    count-plan_under (resolve_pressure_reason ops snapshot (length cs) pct) threshold now snapshot x
        cs h,
  )
