-- ===== src/Scheduler/Plan.antt =====
-- src/processing/tier2_voi_scheduler.py: the plan of one batch, by the state of the budget.
use horadus.Prelude.{
  ℕ, List, Option, Bool, map, sort_by, filter, ltb, leb, none, some, if◌then◌else◌, true, false, [],
  ◌∷◌, ◌==◌, ◌++◌, length, not, ◌||◌,
}
use horadus.Scheduler.{
  Tier2VoiCandidate, Tier2VoiDecision, PressureReason, fifo, not_under_pressure,
  missing_budget_snapshot, remaining_tier2_calls, budget_cost_slots, low_budget_headroom,
  FallbackReason, fifo_fallback, missing_trend_signals, fairness_interval, interleave_with_fairness,
}
use horadus.Scheduler.Floats.{Floats}
use horadus.Scheduler.Score.{score_candidate}

-- The fields of a tier's budget snapshot that the plan reads.
pub record TierBudgetSnapshot (F : Type 0) : Type 0 where
  pub remaining_calls : Option ℕ
  pub headroom_ratio : Option F
  pub estimated_remaining_calls_from_budget : Option ℕ

pub record Tier2VoiPlan (F : Type 0) : Type 0 where
  pub decisions : List (Tier2VoiDecision F)
  pub plan_reason : PressureReason
  pub used_fallback : Bool

module _ {F : Type 0} (ops : Floats F) where
  abbrev below : ℕ → Option ℕ → Bool
  below n none = false
  below n (some m) = ltb m n

  abbrev low_headroom : ℕ → Option F → Bool
  low_headroom pct none = false
  low_headroom pct (some ratio) = ops.le ratio (ops.div (ops.ratio pct 1) (ops.hundredths 10000))

  unfoldable pub resolve_pressure_reason : Option (TierBudgetSnapshot F) → ℕ → ℕ → PressureReason
  resolve_pressure_reason none n pct = missing_budget_snapshot
  resolve_pressure_reason (some snapshot) n pct =
      if below n snapshot.remaining_calls
      then remaining_tier2_calls
      else if below n snapshot.estimated_remaining_calls_from_budget
      then budget_cost_slots
      else if low_headroom pct snapshot.headroom_ratio
      then low_budget_headroom
      else not_under_pressure

  -- `sorted` by a tuple of negated floats, then by position: the first that differs decides
  abbrev before_by : List (F × F) → Bool → Bool
  before_by [] last = last
  before_by ((a, b) ∷ keys) last =
      let rest = before_by keys last in
      if ops.eq (ops.neg a) (ops.neg b) then rest else ops.lt (ops.neg a) (ops.neg b)

  abbrev pub ranks_before : Tier2VoiDecision F → Tier2VoiDecision F → Bool
  ranks_before d e =
      before_by ((d.priority_score, e.priority_score) ∷ [])
        (ltb d.candidate.original_position e.candidate.original_position)

  abbrev pub waits_before : Tier2VoiDecision F → Tier2VoiDecision F → Bool
  waits_before d e =
      before_by
        ((d.fairness_age, e.fairness_age)
          ∷ (d.expected_delta, e.expected_delta)
          ∷ (d.novelty, e.novelty)
          ∷ [])
        (ltb e.candidate.original_position d.candidate.original_position)

  abbrev pub score_all :
      ℕ → ℕ → PressureReason → List (Tier2VoiCandidate F) → List (Tier2VoiDecision F)
  score_all threshold now reason =
      map (λ candidate. score_candidate ops candidate threshold reason now)

  abbrev pub as_fifo : FallbackReason → Tier2VoiDecision F → Tier2VoiDecision F
  as_fifo why decision = record decision { applied_lane = fifo; fallback_reason = some why }

  unfoldable pub fall_back :
      ℕ → ℕ → PressureReason → FallbackReason → List (Tier2VoiCandidate F) → Tier2VoiPlan F
  fall_back threshold now reason why candidates = record {
    decisions = map (as_fifo why) (score_all threshold now reason candidates);
    plan_reason = reason;
    used_fallback = true;
  }

  abbrev pub lacks_signals : Tier2VoiCandidate F → Bool
  lacks_signals candidate = length candidate.trend_signals == 0

  abbrev pub some_lack_signals : List (Tier2VoiCandidate F) → Bool
  some_lack_signals [] = false
  some_lack_signals (candidate ∷ candidates) =
      lacks_signals candidate || some_lack_signals candidates

  abbrev pub reserved : List (Tier2VoiDecision F) → List (Tier2VoiDecision F)
  reserved = filter (λ decision. decision.reserve_candidate)

  abbrev pub unreserved : List (Tier2VoiDecision F) → List (Tier2VoiDecision F)
  unreserved = filter (λ decision. not decision.reserve_candidate)

  -- from the scores on, under pressure
  unfoldable pub schedule : List (Tier2VoiDecision F) → List (Tier2VoiDecision F)
  schedule ranked =
      if ltb (length ranked) fairness_interval
      then ranked
      else interleave_with_fairness (unreserved ranked ++ reserved ranked)
          (sort_by waits_before (reserved ranked))

  abbrev pub in_order : List (Tier2VoiDecision F) → PressureReason → Tier2VoiPlan F
  in_order ordered reason = record {
    decisions = ordered;
    plan_reason = reason;
    used_fallback = false;
  }

  -- the rest of the function, from the test of the snapshot on
  unfoldable pub plan_pressed :
      PressureReason
      → ℕ
      → ℕ
      → Option (TierBudgetSnapshot F)
      → List (Tier2VoiCandidate F)
      → Tier2VoiPlan F
  unfolding fall_back schedule
  plan_pressed reason threshold now none candidates =
      fall_back threshold now missing_budget_snapshot fifo_fallback candidates
  plan_pressed reason threshold now (some snapshot) candidates =
      if some_lack_signals candidates
      then fall_back threshold now reason missing_trend_signals candidates
      else in_order (schedule (sort_by ranks_before (score_all threshold now reason candidates)))
          reason

  unfoldable pub plan_under :
      PressureReason
      → ℕ
      → ℕ
      → Option (TierBudgetSnapshot F)
      → List (Tier2VoiCandidate F)
      → Tier2VoiPlan F
  unfolding plan_pressed
  plan_under not_under_pressure threshold now snapshot candidates =
      in_order (score_all threshold now not_under_pressure candidates) not_under_pressure
  plan_under reason threshold now snapshot candidates =
      plan_pressed reason threshold now snapshot candidates

  unfoldable pub build_tier2_voi_plan :
      List (Tier2VoiCandidate F) → Option (TierBudgetSnapshot F) → ℕ → ℕ → ℕ → Tier2VoiPlan F
  unfolding plan_under resolve_pressure_reason
  build_tier2_voi_plan candidates snapshot threshold pct now =
      if leb (length candidates) 1
      then in_order (score_all threshold now not_under_pressure candidates) not_under_pressure
      else plan_under (resolve_pressure_reason snapshot (length candidates) pct) threshold now
          snapshot candidates
