-- ===== src/TrendEngine/Restatement.antt =====
-- src/core/trend_restatement.py: restatements that compensate for evidence, and the projection of a
-- trend from its ledger. A half-life is at least one day, so the source's `max(0.1, half_life)` is it.
pub mod Rows
pub mod Ledger
pub mod Replay
pub mod History
pub mod Steps
pub mod Refinement
pub mod Drift
use horadus.TrendEngine.{
  Trend, TrendEvidence, TrendRestatement, RestatementKind, full_invalidation, manual_compensation,
  partial_restatement, reclassification, Tables, same_version, half_life_or_default, decay_log_odds,
  apply_log_odds_delta,
}
use horadus.TrendEngine.Arith.{Reals}
use horadus.Prelude.{
  Bool, List, Option, [], filter, get_or, if◌then◌else◌, leb, length, ltb, map, none, some, sort_by,
  true, ℕ, ◌&&◌, ◌++◌, ◌+◌, ◌-◌, ◌==◌, ◌||◌, ◌∷◌,
}

-- A row's id and state version.
pub record EvidenceLink : Type 0 where
  pub evidence_id : ℕ
  pub state_version_id : Option ℕ

pub data EntryType : Type 0 where
  evidence : EntryType
  restatement : RestatementKind → EntryType

pub record TrendProjectionEntry (R : Type 0) : Type 0 where
  pub recorded_at : ℕ
  pub delta_log_odds : R
  pub entry_type : EntryType
  pub source_id : ℕ

pub record TrendProjectionCheck (R : Type 0) : Type 0 where
  pub as_of : ℕ
  pub stored_log_odds : R
  pub projected_log_odds : R
  pub drift_log_odds : R
  pub evidence_count : ℕ
  pub restatement_count : ℕ
  pub entry_count : ℕ

-- The place of a type's name in their alphabetical order.
abbrev type_rank : EntryType → ℕ
type_rank evidence = 0
type_rank (restatement full_invalidation) = 1
type_rank (restatement manual_compensation) = 2
type_rank (restatement partial_restatement) = 3
type_rank (restatement reclassification) = 4

abbrev pub linked_id : Option EvidenceLink → Option ℕ
linked_id none = none
linked_id (some link) = some link.evidence_id

abbrev pub state_version_of : Option EvidenceLink → Option ℕ → Option ℕ
state_version_of none active = active
state_version_of (some link) active = link.state_version_id

abbrev of_version : Option ℕ → Option ℕ → Bool
of_version none version = true
of_version (some active) version = same_version version (some active)

module _ {R : Type 0} where
  abbrev pub insert_restatement : TrendRestatement R → Tables R → Tables R
  insert_restatement row tables = record tables { restatements = tables.restatements ++ (row ∷ []) }

  abbrev pub is_evidence_until : Option ℕ → ℕ → TrendEvidence R → Bool
  is_evidence_until active at row = of_version active row.state_version_id && leb row.created_at at

  abbrev pub is_restatement_until : Option ℕ → ℕ → TrendRestatement R → Bool
  is_restatement_until active at row =
      of_version active row.state_version_id && leb row.recorded_at at

  abbrev pub evidence_entry : TrendEvidence R → TrendProjectionEntry R
  evidence_entry row = record {
    recorded_at = row.created_at;
    delta_log_odds = row.delta_log_odds;
    entry_type = evidence;
    source_id = row.evidence_id;
  }

  abbrev pub restatement_entry : TrendRestatement R → TrendProjectionEntry R
  restatement_entry row = record {
    recorded_at = row.recorded_at;
    delta_log_odds = row.compensation_delta_log_odds;
    entry_type = restatement row.restatement_kind;
    source_id = row.restatement_id;
  }

  -- The order of the queries, and the one of all entries, in which ids stand as their texts do.
  abbrev pub evidence_before : TrendEvidence R → TrendEvidence R → Bool
  evidence_before a b =
      ltb a.created_at b.created_at
      || (a.created_at == b.created_at && ltb a.evidence_id b.evidence_id)

  abbrev pub restatement_before : TrendRestatement R → TrendRestatement R → Bool
  restatement_before a b =
      ltb a.recorded_at b.recorded_at
      || (a.recorded_at == b.recorded_at && ltb a.restatement_id b.restatement_id)

  abbrev pub entry_before : TrendProjectionEntry R → TrendProjectionEntry R → Bool
  entry_before a b =
      ltb a.recorded_at b.recorded_at
      || (a.recorded_at == b.recorded_at
          && (ltb (type_rank a.entry_type) (type_rank b.entry_type)
              || (type_rank a.entry_type == type_rank b.entry_type && ltb a.source_id b.source_id)))

  abbrev pub evidence_rows : Option ℕ → ℕ → List (TrendEvidence R) → List (TrendEvidence R)
  evidence_rows active at rows = sort_by evidence_before (filter (is_evidence_until active at) rows)

  abbrev pub restatement_rows : Option ℕ → ℕ → List (TrendRestatement R) → List (TrendRestatement R)
  restatement_rows active at rows =
      sort_by restatement_before (filter (is_restatement_until active at) rows)

  unfoldable pub evidence_entries :
      Option ℕ → ℕ → List (TrendEvidence R) → List (TrendProjectionEntry R)
  evidence_entries active at rows = map evidence_entry (evidence_rows active at rows)

  unfoldable pub restatement_entries :
      Option ℕ → ℕ → List (TrendRestatement R) → List (TrendProjectionEntry R)
  restatement_entries active at rows = map restatement_entry (restatement_rows active at rows)

  unfoldable pub projection_entries : Option ℕ → ℕ → Tables R → List (TrendProjectionEntry R)
  unfolding evidence_entries restatement_entries
  projection_entries active at tables = sort_by entry_before (
      evidence_entries active at tables.evidence
      ++ restatement_entries active at tables.restatements)

module _ {R : Type 0} (ops : Reals R) where
  unfoldable pub remaining_evidence_delta : TrendEvidence R → R → R
  remaining_evidence_delta row prior = ops.add row.delta_log_odds prior

  -- `abs(a) > 0.0`, and `a != b`
  abbrev pub non_zero : R → Bool
  non_zero a = ops.lt (ops.thousandths 0) a || ops.lt a (ops.thousandths 0)

  abbrev differs : R → R → Bool
  differs a b = ops.lt a b || ops.lt b a

  abbrev pub total_delta : Trend R → R → ℕ → R
  total_delta trend compensation applied_at =
      let decayed =
        decay_log_odds ops trend.current_log_odds trend.baseline_log_odds
          (half_life_or_default trend.decay_half_life_days) trend.updated_at applied_at in
      ops.add (ops.sub decayed trend.current_log_odds) compensation

  -- The trend is the object that the caller holds. `none` is an error.
  unfoldable pub apply_compensating_restatement :
      ℕ
      → R
      → RestatementKind
      → ℕ
      → Option EvidenceLink
      → Trend R
      → Tables R
      → Option (Trend R × Tables R)
  apply_compensating_restatement id compensation kind applied_at link trend tables =
      let version = state_version_of link trend.active_state_version_id in
      let row : TrendRestatement R = record {
        restatement_id = id;
        restatement_kind = kind;
        trend_evidence_id = linked_id link;
        state_version_id = version;
        compensation_delta_log_odds = compensation;
        recorded_at = applied_at;
      } in
      let inserted = insert_restatement row tables in
      if non_zero compensation && same_version version trend.active_state_version_id
      then elim (apply_log_odds_delta ops (total_delta trend compensation applied_at) version
          applied_at (some trend.current_log_odds) inserted) [
            | none ↦ none
            | some ((previous, new), tables') ↦ some (
              if differs previous new
                  then record trend { current_log_odds = new; updated_at = applied_at }
                  else trend,
              tables',
            )
          ]
      else some (trend, inserted)

  -- The log-odds, and the time that they stand for, after the entries.
  unfoldable pub replay : R → ℕ → R → ℕ → List (TrendProjectionEntry R) → R × ℕ
  replay baseline half_life current last_at [] = (current, last_at)
  replay baseline half_life current last_at (entry ∷ entries) =
      replay baseline half_life
        (ops.add (decay_log_odds ops current baseline half_life last_at entry.recorded_at)
          entry.delta_log_odds)
        entry.recorded_at entries

  -- What the projection starts from: the baseline, the log-odds, the half-life and the time.
  abbrev pub projection_start : Trend R → Tables R → R × R × ℕ × ℕ
  projection_start trend tables = elim trend.active_state_version_id [
    | none ↦ (
      trend.baseline_log_odds,
      trend.baseline_log_odds,
      half_life_or_default trend.decay_half_life_days,
      trend.created_at,
    )
    | some version ↦ (
      tables.version.baseline_log_odds,
      tables.version.starting_log_odds,
      half_life_or_default tables.version.decay_half_life_days,
      tables.version.activated_at,
    )
  ]

  unfoldable pub project : Trend R → Tables R → ℕ → R
  project trend tables at =
      let start = projection_start trend tables in
      let reached =
        replay start.0 start.2 start.1 start.3
          (projection_entries trend.active_state_version_id at tables) in
      decay_log_odds ops reached.0 start.0 start.2 reached.1 at

  unfoldable pub build_trend_projection_check :
      Trend R → Option ℕ → Tables R → TrendProjectionCheck R
  unfolding project projection_entries
  build_trend_projection_check trend as_of tables =
      let at = get_or as_of trend.updated_at in
      let projected = project trend tables at in
      record {
        as_of = at;
        stored_log_odds = trend.current_log_odds;
        projected_log_odds = projected;
        drift_log_odds = ops.sub trend.current_log_odds projected;
        evidence_count = length (evidence_rows trend.active_state_version_id at tables.evidence);
        restatement_count =
            length (restatement_rows trend.active_state_version_id at tables.restatements);
        entry_count = length (projection_entries trend.active_state_version_id at tables);
      }
