-- ===== src/Lineage/Evidence.antt =====
-- The evidence of the events of a repair: it is invalidated, and what it adds to its trends is
-- compensated. The rows of all trends stand in one table each; a trend's own row, the object that the
-- repair loads and the version are its `TrackedTrend`.
use horadus.TrendEngine.Restatement.{
  apply_compensating_restatement, remaining_evidence_delta, EvidenceLink, evidence_before,
}
use horadus.TrendEngine.Arith.{Reals}
use horadus.TrendEngine.{
  reclassification, Tables, TrendStateVersion, Trend, TrendRestatement, TrendEvidence,
}
use horadus.Prelude.{
  Bool, List, Option, [], elem, false, filter, if◌then◌else◌, map, none, not, some, sort_by, suc,
  true, ℕ, ◌&&◌, ◌==◌, ◌∷◌,
}

pub record EventEvidence (R : Type 0) : Type 0 where
  pub event_id : ℕ
  pub trend_id : ℕ
  pub row : TrendEvidence R

pub record TrackedTrend (R : Type 0) : Type 0 where
  pub id : ℕ
  pub loaded : Trend R
  pub stored : Option (Trend R)
  pub version : TrendStateVersion R

pub record Ledger (R : Type 0) : Type 0 where
  pub trends : List (TrackedTrend R)
  pub evidence : List (EventEvidence R)
  pub restatements : List (TrendRestatement R)
  pub next_id : ℕ

abbrev pub compensates : ℕ → Option ℕ → Bool
compensates id none = false
compensates id (some evidence) = evidence == id

module _ {R : Type 0} where
  abbrev pub is_active_for : List ℕ → EventEvidence R → Bool
  is_active_for events evidence = elem evidence.event_id events && not evidence.row.is_invalidated

  abbrev pub created_before : EventEvidence R → EventEvidence R → Bool
  created_before a b = evidence_before a.row b.row

  unfoldable pub select_active_evidence : List ℕ → List (EventEvidence R) → List (EventEvidence R)
  select_active_evidence events rows = sort_by created_before (filter (is_active_for events) rows)

  unfoldable pub find_trend : ℕ → List (TrackedTrend R) → Option (TrackedTrend R)
  find_trend id [] = none
  find_trend id (trend ∷ trends) = if trend.id == id then some trend else find_trend id trends

  abbrev pub invalidate : ℕ → List (EventEvidence R) → List (EventEvidence R)
  invalidate id rows =
      map
        (λ evidence.
          if evidence.row.evidence_id == id
          then record evidence { row = record evidence.row { is_invalidated = true } }
          else evidence)
        rows

  abbrev pub put_trend : TrackedTrend R → List (TrackedTrend R) → List (TrackedTrend R)
  put_trend changed trends = map (λ trend. if trend.id == changed.id then changed else trend) trends

  -- What a restatement of the trend reads and writes.
  abbrev pub trend_tables : TrackedTrend R → List (TrendRestatement R) → Tables R
  trend_tables trend restatements = record {
    row = trend.stored;
    version = trend.version;
    evidence = [];
    restatements = restatements;
  }

  abbrev link_to : EventEvidence R → EvidenceLink
  link_to evidence = record {
    evidence_id = evidence.row.evidence_id;
    state_version_id = evidence.row.state_version_id;
  }

module _ {R : Type 0} (ops : Reals R) where
  -- The sum of the query's group for one piece of evidence, from the sum so far.
  unfoldable pub compensation_total : ℕ → R → List (TrendRestatement R) → R
  compensation_total id total [] = total
  compensation_total id total (row ∷ rows) =
      compensation_total id
        (if compensates id row.trend_evidence_id
          then ops.add total row.compensation_delta_log_odds
          else total)
        rows

  abbrev pub prior_compensation : List (TrendRestatement R) → ℕ → R
  prior_compensation rows id = compensation_total id (ops.thousandths 0) rows

  unfoldable pub invalidation_compensation_delta : EventEvidence R → R → R
  unfolding remaining_evidence_delta
  invalidation_compensation_delta evidence prior =
      ops.neg (remaining_evidence_delta ops evidence.row prior)

  -- The ledger after the restatement, which is given to one trend.
  abbrev pub after_restatement :
      TrackedTrend R → Ledger R → Option (Trend R × Tables R) → Option (Ledger R)
  after_restatement trend ledger none = none
  after_restatement trend ledger (some (loaded, tables)) = some (record ledger {
    trends =
        put_trend (record trend { loaded = loaded; stored = tables.row; version = tables.version })
          ledger.trends;
    restatements = tables.restatements;
    next_id = suc ledger.next_id;
  })

  abbrev pub compensate :
      (ℕ → R) → ℕ → EventEvidence R → TrackedTrend R → Ledger R → Option (Ledger R)
  compensate priors at evidence trend ledger = after_restatement trend ledger (
      apply_compensating_restatement ops ledger.next_id
        (invalidation_compensation_delta evidence (priors evidence.row.evidence_id))
        reclassification at (some (link_to evidence)) trend.loaded
        (trend_tables trend ledger.restatements))

  abbrev pub with_id : ℕ → Option (List ℕ × Ledger R) → Option (List ℕ × Ledger R)
  with_id id none = none
  with_id id (some (ids, ledger)) = some (id ∷ ids, ledger)

  -- The ids of the evidence that a trend was compensated for, and the ledger.
  unfoldable pub invalidate_each :
      (ℕ → R) → ℕ → List (EventEvidence R) → Ledger R → Option (List ℕ × Ledger R)
  unfolding find_trend
  invalidate_each priors at [] ledger = some ([], ledger)
  invalidate_each priors at (evidence ∷ rows) ledger =
      let id = evidence.row.evidence_id in
      let marked = record ledger { evidence = invalidate id ledger.evidence } in
      elim (find_trend evidence.trend_id ledger.trends) [
        | none ↦ invalidate_each priors at rows marked
        | some trend ↦ elim (compensate priors at evidence trend marked) [
          | none ↦ none
          | some after ↦ with_id id (invalidate_each priors at rows after)
        ]
      ]

  unfoldable pub invalidate_evidence : List ℕ → ℕ → Ledger R → Option (List ℕ × Ledger R)
  unfolding select_active_evidence compensation_total
  invalidate_evidence events at ledger =
      invalidate_each (prior_compensation ledger.restatements) at
        (select_active_evidence events ledger.evidence) ledger
