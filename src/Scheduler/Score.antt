-- ===== src/Scheduler/Score.antt =====
-- src/processing/tier2_voi_scheduler.py: the score of one candidate.
use horadus.Prelude.{
  ℕ, List, Bool, map, sort_by, ltb, leb, min, max, none, some, if◌then◌else◌, ◌+◌, ◌-◌, first_some,
  true, false, [], ◌∷◌,
}
use horadus.Scheduler.{Tier2TrendSignal, Tier2VoiCandidate, Tier2VoiDecision, PressureReason, voi}
use horadus.Scheduler.Floats.{Floats}

module _ {F : Type 0} (ops : Floats F) where
  abbrev zero_f : F
  zero_f = ops.hundredths 0

  abbrev one_f : F
  one_f = ops.hundredths 100

  -- Python's `max(a, b)` and `min(a, b)` on floats
  abbrev pub max_f : F → F → F
  max_f a b = if ops.lt a b then b else a

  abbrev pub min_f : F → F → F
  min_f a b = if ops.lt b a then b else a

  abbrev pub clamp : F → F
  clamp value = max_f zero_f (min_f one_f value)

  abbrev part : F → ℕ → F
  part a weight = ops.mul a (ops.hundredths weight)

  -- how many hours `now` is after a time, and 0 before it
  abbrev hours_since : ℕ → ℕ → F
  hours_since now time =
      max_f zero_f (ops.div (ops.ratio (now - time) 1000000) (ops.hundredths 360000))

  unfoldable pub compute_novelty : Tier2VoiCandidate F → ℕ → F
  compute_novelty candidate now =
      if candidate.created_event
      then one_f
      else elim (first_some candidate.event_first_seen_at
          (first_some candidate.published_at candidate.fetched_at)) [
            | none ↦ ops.hundredths 50
            | some time ↦
                clamp (
                  ops.sub one_f
                    (min_f (ops.div (hours_since now time) (ops.hundredths 4800)) one_f))
          ]

  unfoldable pub compute_fairness_age : Tier2VoiCandidate F → ℕ → F
  compute_fairness_age candidate now =
      elim (first_some candidate.fetched_at candidate.published_at) [
        | none ↦ zero_f
        | some time ↦ clamp (ops.div (hours_since now time) (ops.hundredths 2400))
      ]

  unfoldable pub is_reserve_candidate : Tier2VoiCandidate F → F → F → Bool
  is_reserve_candidate candidate expected_delta fairness_age =
      if ops.lt expected_delta (ops.hundredths 55)
      then false
      else if ops.le (ops.hundredths 50) fairness_age
      then true
      else if leb candidate.event_unique_source_count 1
      then true
      else leb 3 candidate.original_position

  abbrev max_from : F → List (Tier2TrendSignal F) → F
  max_from best [] = best
  max_from best (signal ∷ signals) =
      max_from (max_f best (max_f zero_f signal.max_indicator_weight)) signals

  -- `max(..., default=0.0)` over the signals' weights, each at least 0.0: the first of the largest
  abbrev max_weight : List (Tier2TrendSignal F) → F
  max_weight [] = zero_f
  max_weight (signal ∷ signals) = max_from (max_f zero_f signal.max_indicator_weight) signals

  abbrev first_score : List ℕ → ℕ
  first_score [] = 0
  first_score (score ∷ scores) = score

  abbrev second_score : List ℕ → ℕ
  second_score [] = 0
  second_score (score ∷ scores) = first_score scores

  abbrev pub ranked_scores : Tier2VoiCandidate F → List ℕ
  ranked_scores candidate =
      sort_by (λ a b. ltb b a) (map (λ signal. signal.relevance_score) candidate.trend_signals)

  -- how sure the best score is, as the distance to the threshold
  abbrev near_threshold : ℕ → ℕ → F
  near_threshold top threshold = ops.sub one_f (
      min_f (ops.ratio ((top - threshold) + (threshold - top)) (max 1 (10 - min threshold 9)))
        one_f)

  abbrev ambiguity_of : List ℕ → F
  ambiguity_of scores = ops.sub one_f (
      min_f (ops.div (ops.ratio (first_score scores - second_score scores) 1) (ops.hundredths 1000))
        one_f)

  abbrev uncertainty_of : List ℕ → ℕ → F
  uncertainty_of scores threshold = clamp (
      ops.add (part (near_threshold (first_score scores) threshold) 55)
        (part (ambiguity_of scores) 45))

  abbrev trend_relevance_of : List ℕ → F
  trend_relevance_of scores =
      clamp (ops.div (ops.ratio (first_score scores) 1) (ops.hundredths 1000))

  abbrev expected_delta_of : Tier2VoiCandidate F → F
  expected_delta_of candidate = clamp (
      ops.add
        (ops.add
          (part (clamp (ops.div (max_weight candidate.trend_signals) (ops.hundredths 10))) 45)
          (part (trend_relevance_of (ranked_scores candidate)) 35))
        (part (clamp (ops.div (max_f zero_f candidate.source_credibility) (ops.hundredths 125)))
          20))

  abbrev contradiction_risk_of : Tier2VoiCandidate F → ℕ → F
  contradiction_risk_of candidate threshold = clamp (
      if candidate.event_has_contradictions
      then one_f
      else ops.add (part (ambiguity_of (ranked_scores candidate)) 65) (
          if leb threshold (second_score (ranked_scores candidate))
          then ops.hundredths 35
          else zero_f))

  unfoldable pub score_candidate : Tier2VoiCandidate F → ℕ → PressureReason → ℕ → Tier2VoiDecision F
  score_candidate candidate threshold reason now =
      let scores = ranked_scores candidate in
      let expected = expected_delta_of candidate in
      let doubt = uncertainty_of scores threshold in
      let risk = contradiction_risk_of candidate threshold in
      let fresh = compute_novelty candidate now in
      let relevance = trend_relevance_of scores in
      let age = compute_fairness_age candidate now in
      let scored =
        ops.add
          (ops.add
            (ops.add (ops.add (ops.add (part expected 32) (part doubt 23)) (part risk 15))
              (part fresh 15))
            (part relevance 10))
          (part age 5) in
      record {
        candidate = candidate;
        priority_score = ops.round (clamp scored);
        expected_delta = ops.round expected;
        uncertainty = ops.round doubt;
        contradiction_risk = ops.round risk;
        novelty = ops.round fresh;
        trend_relevance = ops.round relevance;
        fairness_age = ops.round age;
        reserve_candidate = is_reserve_candidate candidate expected age;
        applied_lane = voi;
        pressure_reason = reason;
        fallback_reason = none;
      }
