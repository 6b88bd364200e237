-- ===== src/Scheduler/Tests.antt =====
-- Runs of src/processing/tier2_voi_scheduler.py on small batches, with floats as whole numbers.
use horadus.Prelude.{
  ℕ, List, [], ◌∷◌, none, some, true, false, refl, ◌≡◌, ◌+◌, ◌-◌, ◌*◌, ◌/◌, ltb, leb, ◌==◌, count,
  ◌⊎◌, arith, elem,
}
use horadus.Scheduler.{
  next_unselected, fill, Tier2VoiCandidate, Tier2VoiDecision, reserve, not_under_pressure, items,
  interleave_with_fairness, in_lane,
}
use horadus.Scheduler.Floats.{Floats}
use horadus.Scheduler.Plan.{TierBudgetSnapshot, build_tier2_voi_plan}
use horadus.Scheduler.Score.{score_candidate}
use horadus.Scheduler.Interleave.{interleave_count}
use horadus.Scheduler.Fairness.{interleave_fair}
use horadus.Scheduler.Complete.{plan_complete}

abbrev whole : Floats ℕ
whole = record {
  lt = ltb;
  le = leb;
  eq = ◌==◌;
  add = ◌+◌;
  sub = ◌-◌;
  mul = ◌*◌;
  div = ◌/◌;
  ratio = ◌/◌;
  neg = λ a. 1000 - a;
  round = λ a. a;
  hundredths = λ a. a;
}

abbrev candidate_of : ℕ → ℕ → Tier2VoiCandidate ℕ
candidate_of id score = record {
  item_id = id;
  event_id = none;
  original_position = id;
  fetched_at = none;
  published_at = none;
  source_credibility = 1;
  created_event = true;
  event_first_seen_at = none;
  event_source_count = 1;
  event_unique_source_count = 1;
  event_has_contradictions = false;
  trend_signals = record { trend_id = 1; relevance_score = score; max_indicator_weight = 10 } ∷ [];
}

abbrev decision_of : ℕ → Tier2VoiDecision ℕ
decision_of id = score_candidate whole (candidate_of id 5) 5 not_under_pressure 0

abbrev main_lane : List (Tier2VoiDecision ℕ)
main_lane =
    decision_of 1
    ∷ decision_of 2
    ∷ decision_of 3
    ∷ decision_of 4
    ∷ decision_of 5
    ∷ decision_of 6
    ∷ []

abbrev reserve_lane : List (Tier2VoiDecision ℕ)
reserve_lane = decision_of 6 ∷ decision_of 5 ∷ []

-- Six decisions, of which the last two wait in the reserve lane: the fourth place is the reserve's.
interleave_run :
    items (interleave_with_fairness main_lane reserve_lane) ≡ 1 ∷ 2 ∷ 3 ∷ 6 ∷ 4 ∷ 5 ∷ []
unfolding interleave_with_fairness fill next_unselected score_candidate
interleave_run = refl

interleave_count_example : count 6 (items (interleave_with_fairness main_lane reserve_lane)) ≡ 1
unfolding score_candidate
interleave_count_example = interleave_count 6 main_lane reserve_lane

interleave_fair_example :
    (elem 5 (1 ∷ 2 ∷ 3 ∷ []) ≡ true) ⊎ ((in_lane reserve (decision_of 6)).applied_lane ≡ reserve)
unfolding interleave_with_fairness score_candidate fill next_unselected
interleave_fair_example =
    interleave_fair 5 main_lane reserve_lane (decision_of 1 ∷ decision_of 2 ∷ decision_of 3 ∷ [])
      (decision_of 4 ∷ decision_of 5 ∷ []) (in_lane reserve (decision_of 6)) refl refl refl

abbrev batch : List (Tier2VoiCandidate ℕ)
batch =
    candidate_of 1 5
    ∷ candidate_of 2 9
    ∷ candidate_of 3 7
    ∷ candidate_of 4 2
    ∷ candidate_of 5 8
    ∷ []

abbrev few_calls : TierBudgetSnapshot ℕ
few_calls = record {
  remaining_calls = some 3;
  headroom_ratio = none;
  estimated_remaining_calls_from_budget = none;
}

plan_complete_example :
    count 4 (items (build_tier2_voi_plan whole batch (some few_calls) 5 20 0).decisions) ≡ 1
plan_complete_example = plan_complete whole batch (some few_calls) 5 20 0 4 (omega arith)
