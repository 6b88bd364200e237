-- ===== src/TrendEngine/Delta.antt =====
-- src/core/trend_engine.py: the delta of one piece of evidence, and the novelty of a repeated signal.
use horadus.TrendEngine.Arith.{Reals, max_r, min_r, clamp_r}
use horadus.Prelude.{
  Bool, List, Option, codes, if◌then◌else◌, leb, none, not, some, text_eq, ℕ, ◌-◌, ◌||◌,
}

pub record EvidenceFactors (R : Type 0) : Type 0 where
  pub base_weight : R
  pub severity : R
  pub confidence : R
  pub credibility : R
  pub corroboration : R
  pub novelty : R
  pub evidence_age_days : R
  pub temporal_decay_multiplier : R
  pub direction_multiplier : R
  pub raw_delta : R
  pub clamped_delta : R

abbrev pub escalatory : List ℕ
escalatory = codes "escalatory"

abbrev pub de_escalatory : List ℕ
de_escalatory = codes "de_escalatory"

module _ {R : Type 0} (ops : Reals R) where
  abbrev zero_r : R
  zero_r = ops.thousandths 0

  abbrev one_r : R
  one_r = ops.thousandths 1000

  abbrev tenth : R
  tenth = ops.thousandths 100

  abbrev max_delta : R
  max_delta = ops.thousandths 500

  abbrev pub unit_clamp : R → R
  unit_clamp = clamp_r ops zero_r one_r

  -- Days from one time to another, negative where they are in the other order.
  abbrev days_between : ℕ → ℕ → R
  days_between from to =
      if leb from to
      then ops.ratio (to - from) 86400000000
      else ops.neg (ops.ratio (from - to) 86400000000)

  abbrev pub recovery : R → ℕ → ℕ → R
  recovery recovery_half_life_days last_seen now =
      ops.div (ops.neg (max_r ops zero_r (days_between last_seen now)))
        (max_r ops tenth recovery_half_life_days)

  abbrev pub novelty_from : R → Option R → Option R
  novelty_from least none = none
  novelty_from least (some e) =
      some (clamp_r ops least one_r (ops.sub one_r (ops.mul (ops.sub one_r least) e)))

  -- `now` is `as_of`, or the time of the call. `none` is an OverflowError.
  unfoldable pub calculate_recency_novelty : Option ℕ → ℕ → R → R → Option R
  calculate_recency_novelty none now min_score recovery_half_life_days = some one_r
  calculate_recency_novelty (some last_seen) now min_score recovery_half_life_days =
      novelty_from (unit_clamp min_score) (ops.exp (recovery recovery_half_life_days last_seen now))

  abbrev corroboration_factor : R → R
  corroboration_factor count =
      min_r ops one_r (ops.div (ops.sqrt (max_r ops tenth count)) (ops.thousandths 3000))

  abbrev temporal_decay : R → Option R → R
  temporal_decay age none = one_r
  temporal_decay age (some half_life) = ops.half_power (ops.div age (max_r ops tenth half_life))

  abbrev direction_mult : List ℕ → R
  direction_mult direction = if text_eq direction escalatory then one_r else ops.neg one_r

  abbrev is_direction : List ℕ → Bool
  is_direction direction = text_eq direction escalatory || text_eq direction de_escalatory

  -- `none` is the ValueError of a direction that is neither.
  unfoldable pub calculate_evidence_delta :
      R → R → R → R → List ℕ → R → R → R → Option R → Option (R × EvidenceFactors R)
  calculate_evidence_delta weight credibility corroboration_count novelty_score direction severity
        confidence evidence_age_days half_life =
      let severity = unit_clamp severity in
      let confidence = unit_clamp confidence in
      let novelty = unit_clamp novelty_score in
      let age = max_r ops zero_r evidence_age_days in
      let corroboration = corroboration_factor corroboration_count in
      let decay = temporal_decay age half_life in
      let direction_mult = direction_mult direction in
      let by_source = ops.mul (ops.mul (ops.mul weight severity) confidence) credibility in
      let raw =
        ops.mul (ops.mul (ops.mul (ops.mul by_source corroboration) novelty) decay)
          direction_mult in
      let clamped = clamp_r ops (ops.neg max_delta) max_delta raw in
      if not (is_direction direction)
      then none
      else some (
        clamped,
        record {
          base_weight = weight;
          severity = severity;
          confidence = confidence;
          credibility = credibility;
          corroboration = corroboration;
          novelty = novelty;
          evidence_age_days = age;
          temporal_decay_multiplier = decay;
          direction_multiplier = direction_mult;
          raw_delta = raw;
          clamped_delta = clamped;
        },
      )
