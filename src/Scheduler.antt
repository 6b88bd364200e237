-- ===== src/Scheduler.antt =====
-- src/processing/tier2_voi_scheduler.py: the order in which a batch of Tier-2 candidates runs. Floats
-- are a parameter (Floats); identifiers are numbers, and a time is a number of microseconds. An index into
-- a lane is the rest of the lane from there on.
pub mod Floats
pub mod Score
pub mod Plan
pub mod Interleave
pub mod Fairness
pub mod Complete
pub mod Tests
use horadus.Prelude.{
  ℕ, zero, suc, ◌+◌, ◌%◌, Bool, true, false, ◌&&◌, ◌||◌, not, Option, none, some, List, [], ◌∷◌,
  ◌++◌, map, length, elem, ltb, leb, ◌==◌, if◌then◌else◌,
}

abbrev pub fairness_interval : ℕ
fairness_interval = 4

pub data Lane : Type 0 where
  voi reserve fifo : Lane

pub data PressureReason : Type 0 where
  not_under_pressure missing_budget_snapshot remaining_tier2_calls : PressureReason
  budget_cost_slots low_budget_headroom : PressureReason

pub data FallbackReason : Type 0 where
  fifo_fallback missing_trend_signals : FallbackReason

pub record Tier2TrendSignal (F : Type 0) : Type 0 where
  pub trend_id : ℕ
  pub relevance_score : ℕ
  pub max_indicator_weight : F

pub record Tier2VoiCandidate (F : Type 0) : Type 0 where
  pub item_id : ℕ
  pub event_id : Option ℕ
  pub original_position : ℕ
  pub fetched_at : Option ℕ
  pub published_at : Option ℕ
  pub source_credibility : F
  pub created_event : Bool
  pub event_first_seen_at : Option ℕ
  pub event_source_count : ℕ
  pub event_unique_source_count : ℕ
  pub event_has_contradictions : Bool
  pub trend_signals : List (Tier2TrendSignal F)

pub record Tier2VoiDecision (F : Type 0) : Type 0 where
  pub candidate : Tier2VoiCandidate F
  pub priority_score : F
  pub expected_delta : F
  pub uncertainty : F
  pub contradiction_risk : F
  pub novelty : F
  pub trend_relevance : F
  pub fairness_age : F
  pub reserve_candidate : Bool
  pub applied_lane : Lane
  pub pressure_reason : PressureReason
  pub fallback_reason : Option FallbackReason

-- The state of the loop: what is ordered so far, the identifiers chosen, and the rest of each lane.
pub record Lanes (F : Type 0) : Type 0 where
  pub ordered : List (Tier2VoiDecision F)
  pub selected : List ℕ
  pub main : List (Tier2VoiDecision F)
  pub reserve : List (Tier2VoiDecision F)

module _ {F : Type 0} where
  abbrev pub item : Tier2VoiDecision F → ℕ
  item decision = decision.candidate.item_id

  abbrev pub items : List (Tier2VoiDecision F) → List ℕ
  items = map item

  abbrev pub in_lane : Lane → Tier2VoiDecision F → Tier2VoiDecision F
  in_lane lane decision = record decision { applied_lane = lane }

  -- The first decision not chosen yet, with the lane behind it.
  unfoldable pub next_unselected :
      List (Tier2VoiDecision F) → List ℕ → Option (Tier2VoiDecision F × List (Tier2VoiDecision F))
  next_unselected [] selected = none
  next_unselected (d ∷ decisions) selected =
      if elem (item d) selected then next_unselected decisions selected else some (d, decisions)

  abbrev pub is_reserve_slot : List (Tier2VoiDecision F) → Bool
  is_reserve_slot ordered = length ordered % fairness_interval == 3

  abbrev pub take_main : Lanes F → Tier2VoiDecision F × List (Tier2VoiDecision F) → Lanes F
  take_main lanes (d, rest) = record lanes {
    ordered = lanes.ordered ++ (d ∷ []);
    selected = item d ∷ lanes.selected;
    main = rest;
  }

  abbrev pub take_reserve : Lanes F → Tier2VoiDecision F × List (Tier2VoiDecision F) → Lanes F
  take_reserve lanes (d, rest) = record lanes {
    ordered = lanes.ordered ++ (in_lane reserve d ∷ []);
    selected = item d ∷ lanes.selected;
    reserve = rest;
  }

  -- the inner loop: outside the reserve slot, the next decision of the main lane
  unfoldable pub fill_main : Lanes F → Lanes F
  fill_main lanes =
      if is_reserve_slot lanes.ordered
      then lanes
      else elim (next_unselected lanes.main lanes.selected) [
        | none ↦ record lanes { main = [] }
        | some found ↦ take_main lanes found
      ]

  -- the two choices at the end of the body; `none` is the `break`
  unfoldable pub fill_any : Lanes F → Option (Lanes F)
  fill_any lanes = elim (next_unselected lanes.main lanes.selected) [
    | some found ↦ some (take_main lanes found)
    | none ↦ elim (next_unselected lanes.reserve lanes.selected) [
      | some found ↦ some (take_reserve lanes found)
      | none ↦ none
    ]
  ]

  -- the body after the inner loop
  unfoldable pub fill_slot : Lanes F → Option (Lanes F)
  unfolding fill_any
  fill_slot lanes =
      if is_reserve_slot lanes.ordered
      then elim (next_unselected lanes.reserve lanes.selected) [
        | some found ↦ some (take_reserve lanes found)
        | none ↦ fill_any lanes
      ]
      else fill_any lanes

  abbrev pub has_more : Lanes F → Bool
  has_more lanes = ltb 0 (length lanes.main) || ltb 0 (length lanes.reserve)

  -- The outer loop, on fuel.
  unfoldable pub fill : ℕ → Lanes F → Lanes F
  unfolding fill_main fill_slot
  fill zero lanes = lanes
  fill (suc fuel) lanes = elim (has_more lanes) [
    | false ↦ lanes
    | true ↦ elim (fill_slot (fill_main lanes)) [
      | none ↦ fill_main lanes
      | some next ↦ fill fuel next
    ]
  ]

  abbrev pub start : List (Tier2VoiDecision F) → List (Tier2VoiDecision F) → Lanes F
  start main_lane reserve_lane = record {
    ordered = [];
    selected = [];
    main = main_lane;
    reserve = reserve_lane;
  }

  unfoldable pub interleave_with_fairness :
      List (Tier2VoiDecision F) → List (Tier2VoiDecision F) → List (Tier2VoiDecision F)
  interleave_with_fairness main_lane reserve_lane =
      (fill (suc (length main_lane + length reserve_lane)) (start main_lane reserve_lane)).ordered
