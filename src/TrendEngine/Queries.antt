-- ===== src/TrendEngine/Queries.antt =====
-- src/core/trend_engine.py: what is read of a trend. `>=` and `<=` stand for the negated `<`, as on
-- floats that are not NaN.
use horadus.TrendEngine.{Trend, TrendEvidence, logodds_to_prob}
use horadus.TrendEngine.Arith.{Reals}
use horadus.Prelude.{
  Bool, List, Option, [], filter, if◌then◌else◌, leb, ltb, none, not, some, sort_by, take, ℕ, ◌&&◌,
  ◌*◌, ◌-◌, ◌∷◌,
}

pub record TrendSnapshot (R : Type 0) : Type 0 where
  pub timestamp : ℕ
  pub log_odds : R

pub data TrendDirection : Type 0 where
  rising_fast rising stable falling falling_fast : TrendDirection

abbrev pub day : ℕ
day = 86400000000

abbrev first {ℓ} : {A : Type ℓ} → List A → Option A
first [] = none
first (x ∷ xs) = some x

module _ {R : Type 0} (ops : Reals R) where
  unfoldable pub get_probability : Trend R → R
  get_probability trend = logodds_to_prob ops trend.current_log_odds

  abbrev probability_of : Option (TrendSnapshot R) → Option R
  probability_of none = none
  probability_of (some snapshot) = some (logodds_to_prob ops snapshot.log_odds)

  abbrev later : TrendSnapshot R → TrendSnapshot R → Bool
  later a b = ltb b.timestamp a.timestamp

  -- The snapshots are those of one trend.
  unfoldable pub get_probability_at : List (TrendSnapshot R) → ℕ → Option R
  get_probability_at snapshots at =
      probability_of
        (first (sort_by later (filter (λ snapshot. leb snapshot.timestamp at) snapshots)))

  abbrev change_since : R → Option R → Option R
  change_since current none = none
  change_since current (some past) = some (ops.sub current past)

  unfoldable pub get_change : Trend R → List (TrendSnapshot R) → ℕ → ℕ → Option R
  unfolding get_probability get_probability_at
  get_change trend snapshots days now =
      change_since (get_probability trend) (get_probability_at snapshots (now - days * day))

  abbrev direction_of_change : R → TrendDirection
  direction_of_change delta =
      if not (ops.lt delta (ops.thousandths 50))
      then rising_fast
      else if not (ops.lt delta (ops.thousandths 10))
      then rising
      else if not (ops.lt (ops.neg (ops.thousandths 50)) delta)
      then falling_fast
      else if not (ops.lt (ops.neg (ops.thousandths 10)) delta)
      then falling
      else stable

  abbrev direction_since : R → Option R → TrendDirection
  direction_since current none = stable
  direction_since current (some past) = direction_of_change (ops.sub current past)

  unfoldable pub get_direction : Trend R → List (TrendSnapshot R) → ℕ → ℕ → TrendDirection
  unfolding get_probability get_probability_at
  get_direction trend snapshots days now =
      direction_since (get_probability trend) (get_probability_at snapshots (now - days * day))

  abbrev abs_r : R → R
  abs_r a = if ops.lt a (ops.thousandths 0) then ops.neg a else a

  abbrev larger : TrendEvidence R → TrendEvidence R → Bool
  larger a b = ops.lt (abs_r b.delta_log_odds) (abs_r a.delta_log_odds)

  abbrev pub is_recent : ℕ → TrendEvidence R → Bool
  is_recent cutoff row = leb cutoff row.created_at && not row.is_invalidated

  unfoldable pub get_top_evidence : List (TrendEvidence R) → ℕ → ℕ → ℕ → List (TrendEvidence R)
  get_top_evidence rows days limit now =
      take limit (sort_by larger (filter (is_recent (now - days * day)) rows))
