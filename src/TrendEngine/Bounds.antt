-- ===== src/TrendEngine/Bounds.antt =====
-- Bounds on probabilities, deltas and novelty, where numbers are ordered.
use horadus.TrendEngine.Arith.{Reals, IsOrdered, Le, Within, max_r-Le, clamp_r-Within}
use horadus.TrendEngine.Delta.{
  novelty_from, EvidenceFactors, calculate_evidence_delta, calculate_recency_novelty, recovery,
  unit_clamp, escalatory, de_escalatory,
}
use horadus.TrendEngine.{logodds_to_prob}
use horadus.Prelude.{
  Bool-cases, List, Option, false, inl, inr, none, refl, some, text_eq, text_eq_iff, true, ℕ, ◌||◌,
  ◌≡◌, ◌≢◌, ◌⊎◌,
}

module _ {R : Type 0} (ops : Reals R) where
  abbrev zero_r : R
  zero_r = ops.thousandths 0

  abbrev one_r : R
  one_r = ops.thousandths 1000

  abbrev half_r : R
  half_r = ops.thousandths 500

  -- The direction is refused, or the delta and the factors are within bounds.
  abbrev pub IsBounded : List ℕ → Option (R × EvidenceFactors R) → Type 0
  IsBounded direction none = (direction ≢ escalatory) × (direction ≢ de_escalatory)
  IsBounded direction (some (delta, factors)) =
      ((direction ≡ escalatory) ⊎ (direction ≡ de_escalatory))
      × Within ops (ops.neg half_r) half_r delta
      × (factors.clamped_delta ≡ delta)
      × Within ops zero_r one_r factors.severity
      × Within ops zero_r one_r factors.confidence
      × Within ops zero_r one_r factors.novelty
      × Le ops zero_r factors.evidence_age_days

  abbrev pub IsNovelty : R → Option R → Option R → Type 0
  IsNovelty least exp none = exp ≡ none
  IsNovelty least exp (some novelty) =
      Within ops least one_r novelty × Within ops zero_r one_r novelty

is_direction-cases :
    (direction : List ℕ)
    → ((text_eq direction escalatory || text_eq direction de_escalatory) ≡ true)
    → (direction ≡ escalatory) ⊎ (direction ≡ de_escalatory)
is_direction-cases direction e = elim (Bool-cases (text_eq direction escalatory)) [
  | inl f ↦ inl ((text_eq_iff direction escalatory).0 f)
  | inr f ↦ inr ((text_eq_iff direction de_escalatory).0 (rw f at e))
]

is_direction-not :
    (direction : List ℕ)
    → ((text_eq direction escalatory || text_eq direction de_escalatory) ≡ false)
    → (direction ≢ escalatory) × (direction ≢ de_escalatory)
is_direction-not direction e = (
  λ h. let f = (text_eq_iff direction escalatory).1 h in let g = (rw f at e) in cc,
  λ h.
      let f = (text_eq_iff direction de_escalatory).1 h in
      elim (Bool-cases (text_eq direction escalatory)) [
        | inl k ↦ let g = (rw k at e) in cc
        | inr k ↦ let g = (rw (k, f) at e) in cc
      ],
)

module _ {R : Type 0} (ops : Reals R) (ordered : IsOrdered ops) where
  -- Whatever its arguments, the delta of evidence is refused for a direction that is neither of the
  -- two, and otherwise lies between -0.5 and 0.5, with severity, confidence and novelty between 0 and
  -- 1, an age that is not negative, and the factors' own delta the one that is returned. It needs the
  -- bounds themselves to be in order.
  pub evidence_delta_bounds :
      (weight credibility count novelty : R) (direction : List ℕ) (severity confidence age : R)
      (half_life : Option R)
      → Le ops (ops.thousandths 0) (ops.thousandths 1000)
      → Le ops (ops.neg (ops.thousandths 500)) (ops.thousandths 500)
      → IsBounded ops direction (
          calculate_evidence_delta ops weight credibility count novelty direction severity
            confidence age half_life)
  unfolding calculate_evidence_delta
  evidence_delta_bounds weight credibility count novelty direction severity confidence age half_life
        unit half =
      let low = ops.neg (ops.thousandths 500) in
      elim (Bool-cases (text_eq direction escalatory || text_eq direction de_escalatory)) [
        | inl e ↦ rw e (
          is_direction-cases direction e,
          clamp_r-Within ops low (ops.thousandths 500) _ ordered half,
          refl,
          clamp_r-Within ops (ops.thousandths 0) (ops.thousandths 1000) severity ordered unit,
          clamp_r-Within ops (ops.thousandths 0) (ops.thousandths 1000) confidence ordered unit,
          clamp_r-Within ops (ops.thousandths 0) (ops.thousandths 1000) novelty ordered unit,
          max_r-Le ops (ops.thousandths 0) age ordered,
        )
        | inr e ↦ rw e (is_direction-not direction e)
      ]

  novelty_from-IsNovelty :
      (least : R)
      → Within ops (ops.thousandths 0) (ops.thousandths 1000) least
      → (o : Option R) → IsNovelty ops least o (novelty_from ops least o)
  novelty_from-IsNovelty least h none = refl
  novelty_from-IsNovelty least h (some e) =
      let score =
        clamp_r-Within ops least (ops.thousandths 1000)
          (ops.sub (ops.thousandths 1000) (ops.mul (ops.sub (ops.thousandths 1000) least) e))
          ordered h.1 in
      (score, (ordered.lt_trans _ _ _ h.0 score.0, score.1))

  -- The novelty of a signal lies between the least score, cut to between 0 and 1, and 1, hence between
  -- 0 and 1; there is none only where the exponential of the age overflows.
  pub calculate_recency_novelty-IsNovelty :
      (last_seen : ℕ) (now : ℕ) (min_score half_life : R)
      → Le ops (ops.thousandths 0) (ops.thousandths 1000)
      → IsNovelty ops
          (unit_clamp ops min_score)
          (ops.exp (recovery ops half_life last_seen now))
          (calculate_recency_novelty ops (some last_seen) now min_score half_life)
  unfolding calculate_recency_novelty
  calculate_recency_novelty-IsNovelty last_seen now min_score half_life unit =
      novelty_from-IsNovelty (unit_clamp ops min_score)
        (clamp_r-Within ops (ops.thousandths 0) (ops.thousandths 1000) min_score ordered unit)
        (ops.exp (recovery ops half_life last_seen now))

  -- A probability that is computed from log-odds lies between 0.001 and 0.999, whether the exponential
  -- overflows or not, if these bounds are in order.
  pub logodds_to_prob-bounds :
      (log_odds : R)
      → Le ops (ops.thousandths 1) (ops.thousandths 999)
      → Within ops (ops.thousandths 1) (ops.thousandths 999) (logodds_to_prob ops log_odds)
  unfolding logodds_to_prob
  logodds_to_prob-bounds log_odds h =
      clamp_r-Within ops (ops.thousandths 1) (ops.thousandths 999) _ ordered h
