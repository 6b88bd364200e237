-- ===== src/TrendEngine/Restatement/Steps.antt =====
-- A restatement, of the active state version or of another one.
use horadus.TrendEngine.Arith.{Reals, IsExact}
use horadus.TrendEngine.{
  apply_log_odds_delta, TrendRestatement, same_version, RestatementKind, Tables, Trend,
}
use horadus.TrendEngine.Restatement.{
  restatement_entry, total_delta, insert_restatement, state_version_of, linked_id,
  apply_compensating_restatement, non_zero, EvidenceLink, projection_entries, replay,
}
use horadus.TrendEngine.Restatement.Ledger.{
  IsUntil-insert_restatement, entries_foreign, entries-insert_restatement,
}
use horadus.TrendEngine.Restatement.History.{
  reached_later, half_life, decay_to, changed, with_row, IsProjected,
}
use horadus.TrendEngine.Restatement.Replay.{decay_now, replay-append}
use horadus.Prelude.{
  Bool-cases, Option, ap, arith, false, inl, inr, none, refl, some, sym, true, ℕ, ◌<◌, ◌∙◌, ◌≡◌,
}

module _ {R : Type 0} (ops : Reals R) (v : ℕ) where
  abbrev pub restated : ℕ → R → RestatementKind → ℕ → Option EvidenceLink → TrendRestatement R
  restated id compensation kind at link = record {
    restatement_id = id;
    restatement_kind = kind;
    trend_evidence_id = linked_id link;
    state_version_id = state_version_of link (some v);
    compensation_delta_log_odds = compensation;
    recorded_at = at;
  }

  abbrev pub tables_of : Option (Trend R × Tables R) → Option (Tables R)
  tables_of none = none
  tables_of (some (trend, tables)) = some tables

  pub restate_foreign :
      (id : ℕ) (c : R) (kind : RestatementKind) (at : ℕ) (link : Option EvidenceLink)
      (trend : Trend R) (tables : Tables R)
      → IsProjected ops v trend tables
      → same_version (state_version_of link (some v)) (some v) ≡ false
      → tables_of (apply_compensating_restatement ops id c kind at link trend tables)
        ≡ some (insert_restatement (restated id c kind at link) tables)
  unfolding apply_compensating_restatement
  restate_foreign id c kind at link trend tables p e = elim (Bool-cases (non_zero ops c)) [
    | inl k ↦ rw (p.active, e, k) refl
    | inr k ↦ rw (p.active, e, k) refl
  ]

  pub restate_counted :
      (id : ℕ) (c : R) (kind : RestatementKind) (at : ℕ) (link : Option EvidenceLink)
      (trend : Trend R) (tables : Tables R)
      → IsExact ops
      → IsProjected ops v trend tables
      → same_version (state_version_of link (some v)) (some v) ≡ true
      → state_version_of link (some v) ≡ some v
      → non_zero ops c ≡ true
      → tables_of (apply_compensating_restatement ops id c kind at link trend tables)
        ≡ some (
            with_row ops v
              (changed ops v trend (ops.add (decay_to ops v trend at) c) at)
              (insert_restatement (restated id c kind at link) tables))
  unfolding apply_compensating_restatement apply_log_odds_delta
  restate_counted id c kind at link trend tables exact p e w z =
      let sum : ops.add trend.current_log_odds (total_delta ops trend c at)
          ≡ ops.add (decay_to ops v trend at) c =
        sym (exact.add_assoc _ _ c) ∙ ap (λ a. ops.add a c) (exact.add-sub _ _) in
      rw (p.row, p.active, e, w, z, p.current, sum) refl

pub same_version_eq : (a : Option ℕ) (v : ℕ) → same_version a (some v) ≡ true → a ≡ some v
same_version_eq none v e = cc
same_version_eq (some a) v e = let q : a ≡ v = ground arith in ap some q

module _ {R : Type 0} (ops : Reals R) (exact : IsExact ops) (v : ℕ) where
  pub foreign-IsProjected :
      (row : TrendRestatement R) (trend : Trend R) (tables : Tables R)
      → IsProjected ops v trend tables
      → same_version row.state_version_id (some v) ≡ false
      → IsProjected ops v trend (insert_restatement row tables)
  foreign-IsProjected row trend tables p e =
      let same = entries_foreign v trend.updated_at row tables e in
      record {
        active = p.active;
        row = p.row;
        baseline = p.baseline;
        half_life = p.half_life;
        current = p.current;
        old =
            IsUntil-insert_restatement v trend.updated_at trend.updated_at row tables (omega arith)
              p.old (λ k. cc);
        within = rw same p.within;
        stored = rw same p.stored;
      }

  pub counted-IsProjected :
      (row : TrendRestatement R) (trend : Trend R) (tables : Tables R)
      → IsProjected ops v trend tables
      → trend.updated_at < row.recorded_at
      → same_version row.state_version_id (some v) ≡ true
      → (let next =
            changed ops v trend
              (ops.add (decay_to ops v trend row.recorded_at) row.compensation_delta_log_odds)
              row.recorded_at in
          IsProjected ops v next (with_row ops v next (insert_restatement row tables)))
  unfolding replay projection_entries
  counted-IsProjected row trend tables p q e =
      let grown = entries-insert_restatement v trend.updated_at row tables q p.old e in
      let old =
        IsUntil-insert_restatement v trend.updated_at row.recorded_at row tables (omega arith) p.old
          (λ k. omega arith) in
      record {
        active = p.active;
        row = refl;
        baseline = p.baseline;
        half_life = p.half_life;
        current = refl;
        old = record { evidence = old.evidence; restatements = old.restatements };
        within =
            rw
              (
                grown,
                replay-append ops trend.baseline_log_odds (half_life ops v trend)
                    tables.version.starting_log_odds tables.version.activated_at
                    (projection_entries (some v) trend.updated_at tables) (restatement_entry row),
              )
              (omega arith);
        stored =
            rw
              (
                grown,
                replay-append ops trend.baseline_log_odds (half_life ops v trend)
                    tables.version.starting_log_odds tables.version.activated_at
                    (projection_entries (some v) trend.updated_at tables) (restatement_entry row),
              )
              (decay_now ops exact _ _ _ _
                ∙ ap (λ a. ops.add a row.compensation_delta_log_odds)
                    (reached_later ops exact v row.recorded_at trend tables p q));
      }
