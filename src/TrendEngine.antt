-- ===== src/TrendEngine.antt =====
-- src/core/trend_engine.py: the log-odds of a trend under evidence and decay. Floats are a parameter
-- (Reals); identifiers and signal types are numbers, a time is a number of microseconds, and a
-- half-life a number of days, where 0 stands for the default. The tables of one trend are a record.
pub mod Arith
pub mod Restatement
pub mod Delta
pub mod Bounds
pub mod Queries
pub mod Once
pub mod Tests
use horadus.TrendEngine.Arith.{Reals, max_r, min_r, clamp_r, decay_factor}
use horadus.Prelude.{
  Bool, List, Option, [], false, if◌then◌else◌, leb, none, not, some, true, ℕ, ◌&&◌, ◌++◌, ◌+◌, ◌-◌,
  ◌==◌, ◌||◌, ◌∷◌,
}

pub data Direction : Type 0 where
  up down unchanged : Direction

pub record Trend (R : Type 0) : Type 0 where
  pub current_log_odds : R
  pub baseline_log_odds : R
  pub updated_at : ℕ
  pub created_at : ℕ
  pub decay_half_life_days : ℕ
  pub active_state_version_id : Option ℕ

pub record TrendEvidence (R : Type 0) : Type 0 where
  pub evidence_id : ℕ
  pub event_claim_id : ℕ
  pub state_version_id : Option ℕ
  pub signal_type : ℕ
  pub delta_log_odds : R
  pub is_invalidated : Bool
  pub created_at : ℕ

pub data RestatementKind : Type 0 where
  full_invalidation manual_compensation partial_restatement reclassification : RestatementKind

pub record TrendRestatement (R : Type 0) : Type 0 where
  pub restatement_id : ℕ
  pub restatement_kind : RestatementKind
  pub trend_evidence_id : Option ℕ
  pub state_version_id : Option ℕ
  pub compensation_delta_log_odds : R
  pub recorded_at : ℕ

pub record TrendStateVersion (R : Type 0) : Type 0 where
  pub baseline_log_odds : R
  pub starting_log_odds : R
  pub current_log_odds : R
  pub decay_half_life_days : ℕ
  pub activated_at : ℕ

-- The rows of one trend: its own, which may be missing, the one of its active state version, where it
-- has one, and its ledger of evidence and restatements, oldest first.
pub record Tables (R : Type 0) : Type 0 where
  pub row : Option (Trend R)
  pub version : TrendStateVersion R
  pub evidence : List (TrendEvidence R)
  pub restatements : List (TrendRestatement R)

pub record TrendUpdate (R : Type 0) : Type 0 where
  pub previous_probability : R
  pub new_probability : R
  pub delta_applied : R
  pub direction : Direction

abbrev pub default_decay_half_life_days : ℕ
default_decay_half_life_days = 30

abbrev pub half_life_or_default : ℕ → ℕ
half_life_or_default days = if days == 0 then default_decay_half_life_days else days

abbrev pub same_version : Option ℕ → Option ℕ → Bool
same_version none none = true
same_version (some a) (some b) = a == b
same_version _ _ = false

module _ {R : Type 0} where
  abbrev pub is_duplicate : Option ℕ → ℕ → ℕ → TrendEvidence R → Bool
  is_duplicate version claim signal_type row =
      same_version row.state_version_id version
      && row.event_claim_id == claim
      && row.signal_type == signal_type
      && not row.is_invalidated

  abbrev pub has_evidence : Option ℕ → ℕ → ℕ → List (TrendEvidence R) → Bool
  has_evidence version claim signal_type [] = false
  has_evidence version claim signal_type (row ∷ rows) =
      is_duplicate version claim signal_type row || has_evidence version claim signal_type rows

  abbrev pub insert_evidence : TrendEvidence R → Tables R → Tables R
  insert_evidence row tables = record tables { evidence = tables.evidence ++ (row ∷ []) }

  -- The state that the decay reads: the locked row's, or the object's where there is none.
  abbrev pub decayed_from : Option (Trend R) → Trend R → Trend R
  decayed_from none trend = trend
  decayed_from (some row) trend = row

  abbrev replace_version : Option ℕ → R → TrendStateVersion R → TrendStateVersion R
  replace_version none log_odds row = row
  replace_version (some version) log_odds row = record row { current_log_odds = log_odds }

  abbrev pub write_decay : R → ℕ → Option ℕ → Tables R → Tables R
  write_decay log_odds as_of version tables = elim tables.row [
    | none ↦ tables
    | some row ↦ record tables {
      row = some (record row { current_log_odds = log_odds; updated_at = as_of });
      version = replace_version version log_odds tables.version;
    }
  ]

module _ {R : Type 0} (ops : Reals R) where
  abbrev pub min_probability : R
  min_probability = ops.thousandths 1

  abbrev pub max_probability : R
  max_probability = ops.thousandths 999

  abbrev pub max_delta_per_event : R
  max_delta_per_event = ops.thousandths 500

  unfoldable pub prob_to_logodds : R → R
  prob_to_logodds p =
      let clamped = clamp_r ops min_probability max_probability p in
      ops.log (ops.div clamped (ops.sub (ops.thousandths 1000) clamped))

  unfoldable pub logodds_to_prob : R → R
  logodds_to_prob lo = clamp_r ops min_probability max_probability (elim (ops.exp (ops.neg lo)) [
    | none ↦ if ops.lt lo (ops.thousandths 0) then min_probability else max_probability
    | some e ↦ ops.div (ops.thousandths 1000) (ops.add (ops.thousandths 1000) e)
  ])

  -- what is left of a value at `to_at`, of a deviation from the baseline at `from_at`
  unfoldable pub decay_log_odds : R → R → ℕ → ℕ → ℕ → R
  decay_log_odds current baseline half_life from_at to_at =
      if leb to_at from_at
      then current
      else ops.add baseline
          (ops.mul (ops.sub current baseline) (decay_factor ops half_life (to_at - from_at)))

  abbrev add_to_version : Option ℕ → R → TrendStateVersion R → TrendStateVersion R
  add_to_version none delta row = row
  add_to_version (some version) delta row = record row {
    current_log_odds = ops.add row.current_log_odds delta;
  }

  -- The previous and the new log-odds; `none` is the ValueError of a missing row.
  unfoldable pub apply_log_odds_delta :
      R → Option ℕ → ℕ → Option R → Tables R → Option ((R × R) × Tables R)
  apply_log_odds_delta delta version applied_at fallback tables = elim tables.row [
    | some row ↦
        let new_lo = ops.add row.current_log_odds delta in
        some (
          (ops.sub new_lo delta, new_lo),
          record tables {
            row = some (record row { current_log_odds = new_lo; updated_at = applied_at });
            version = add_to_version version delta tables.version;
          },
        )
    | none ↦ elim fallback [
      | none ↦ none
      | some previous ↦ some ((previous, ops.add previous delta), tables)
    ]
  ]

  abbrev pub direction_of : R → Direction
  direction_of delta =
      if ops.lt (ops.thousandths 1) delta
      then up
      else if ops.lt delta (ops.neg (ops.thousandths 1))
      then down
      else unchanged

  abbrev pub ignored : Trend R → TrendUpdate R
  ignored trend = record {
    previous_probability = logodds_to_prob trend.current_log_odds;
    new_probability = logodds_to_prob trend.current_log_odds;
    delta_applied = ops.thousandths 0;
    direction = unchanged;
  }

  abbrev pub updated : R → R × R → TrendUpdate R
  updated delta log_odds = record {
    previous_probability = logodds_to_prob log_odds.0;
    new_probability = logodds_to_prob log_odds.1;
    delta_applied = delta;
    direction = direction_of delta;
  }

  -- `raced` is that another worker inserted the same evidence first, and `created_at` the time that
  -- the database gives the row. The trend is the object that the caller holds, which the row may have
  -- left behind.
  unfoldable pub apply_evidence :
      ℕ → ℕ → ℕ → R → ℕ → ℕ → Bool → Trend R → Tables R → TrendUpdate R × Trend R × Tables R
  unfolding apply_log_odds_delta
  apply_evidence id claim signal_type delta created_at applied_at raced trend tables =
      let version = trend.active_state_version_id in
      let row : TrendEvidence R = record {
        evidence_id = id;
        event_claim_id = claim;
        state_version_id = version;
        signal_type = signal_type;
        delta_log_odds = delta;
        is_invalidated = false;
        created_at = created_at;
      } in
      let applied =
        apply_log_odds_delta delta version applied_at (some trend.current_log_odds)
          (insert_evidence row tables) in
      if has_evidence version claim signal_type tables.evidence || raced
      then (ignored trend, trend, tables)
      else elim applied [
        | none ↦ (ignored trend, trend, tables)
        | some (log_odds, tables') ↦ (
          updated delta log_odds,
          record trend { current_log_odds = log_odds.1; updated_at = applied_at },
          tables',
        )
      ]

  -- The probability that is returned, the object and the tables.
  unfoldable pub apply_decay : ℕ → Trend R → Tables R → R × Trend R × Tables R
  unfolding decay_log_odds
  apply_decay as_of trend tables =
      let from = decayed_from tables.row trend in
      let new_lo =
        decay_log_odds from.current_log_odds from.baseline_log_odds
          (half_life_or_default from.decay_half_life_days) from.updated_at as_of in
      if leb as_of from.updated_at
      then (
        logodds_to_prob from.current_log_odds,
        record trend { current_log_odds = from.current_log_odds; updated_at = from.updated_at },
        tables,
      )
      else (
        logodds_to_prob new_lo,
        record trend { current_log_odds = new_lo; updated_at = as_of },
        write_decay new_lo as_of trend.active_state_version_id tables,
      )
