-- ===== src/TrendEngine/Restatement/History.antt =====
-- Histories of a trend, and what keeps the projection from the ledger equal to the stored log-odds.
use horadus.TrendEngine.Arith.{Reals, IsExact}
use horadus.TrendEngine.{
  RestatementKind, Tables, half_life_or_default, Trend, apply_decay, decay_log_odds,
}
use horadus.TrendEngine.Restatement.{
  apply_compensating_restatement, non_zero, EvidenceLink, projection_entries, replay,
}
use horadus.TrendEngine.Restatement.Ledger.{IsUntil-later, IsUntil, entries_later}
use horadus.TrendEngine.Restatement.Replay.{decay-decay}
use horadus.Prelude.{
  Bool-cases, Option, [], ap, arith, false, inl, inr, leb, refl, some, sym, true, ℕ, ◌<◌, ◌∙◌, ◌≡◌,
  ◌≤◌,
}

module _ {R : Type 0} (ops : Reals R) (v : ℕ) where
  abbrev pub half_life : Trend R → ℕ
  half_life trend = half_life_or_default trend.decay_half_life_days

  abbrev pub decay_to : Trend R → ℕ → R
  decay_to trend at =
      decay_log_odds ops trend.current_log_odds trend.baseline_log_odds (half_life trend)
        trend.updated_at at

  abbrev pub reached : Trend R → Tables R → ℕ → R × ℕ
  reached trend tables at =
      replay ops trend.baseline_log_odds (half_life trend) tables.version.starting_log_odds
        tables.version.activated_at (projection_entries (some v) at tables)

  -- The state version was just activated: it starts from the trend's log-odds, under the trend's
  -- baseline and half-life, and the ledger has no row of it that is later.
  pub record IsActivated (trend : Trend R) (tables : Tables R) : Type 0 where
    pub active : trend.active_state_version_id ≡ some v
    pub row : tables.row ≡ some trend
    pub baseline : tables.version.baseline_log_odds ≡ trend.baseline_log_odds
    pub half_life : tables.version.decay_half_life_days ≡ trend.decay_half_life_days
    pub starting : tables.version.starting_log_odds ≡ trend.current_log_odds
    pub current : tables.version.current_log_odds ≡ trend.current_log_odds
    pub activated : tables.version.activated_at ≡ trend.updated_at
    pub unused : projection_entries (some v) trend.updated_at tables ≡ []
    pub old : IsUntil v trend.updated_at tables

  pub record IsProjected (trend : Trend R) (tables : Tables R) : Type 0 where
    pub active : trend.active_state_version_id ≡ some v
    pub row : tables.row ≡ some trend
    pub baseline : tables.version.baseline_log_odds ≡ trend.baseline_log_odds
    pub half_life : tables.version.decay_half_life_days ≡ trend.decay_half_life_days
    pub current : tables.version.current_log_odds ≡ trend.current_log_odds
    pub old : IsUntil v trend.updated_at tables
    pub within : (reached trend tables trend.updated_at).1 ≤ trend.updated_at
    pub stored :
        (let before = reached trend tables trend.updated_at in
          decay_log_odds ops before.0 trend.baseline_log_odds
            (half_life_or_default trend.decay_half_life_days)
            before.1
            trend.updated_at)
        ≡ trend.current_log_odds

  -- The rows of a trend through decays and restatements, in each of which it is loaded anew. A
  -- restatement is recorded after the last change and is not zero; that of evidence of another state
  -- version may be recorded, too.
  pub data History : Trend R → Tables R → Type 0 where
    activated :
        {trend : Trend R} {tables : Tables R} → IsActivated trend tables → History trend tables
    decay :
        {trend row : Trend R} {tables : Tables R} (at : ℕ)
        → History trend tables
        → (apply_decay ops at trend tables).2.row ≡ some row
        → History row (apply_decay ops at trend tables).2
    restate :
        {trend object row : Trend R} {tables after : Tables R} (id : ℕ) (compensation : R)
        (kind : RestatementKind) (at : ℕ) (link : Option EvidenceLink)
        → History trend tables
        → trend.updated_at < at
        → non_zero ops compensation ≡ true
        → apply_compensating_restatement ops id compensation kind at link trend tables
          ≡ some (object, after)
        → after.row ≡ some row
        → History row after

  pub activated-IsProjected :
      (trend : Trend R) (tables : Tables R) → IsActivated trend tables → IsProjected trend tables
  unfolding replay decay_log_odds
  activated-IsProjected trend tables a = record {
    active = a.active;
    row = a.row;
    baseline = a.baseline;
    half_life = a.half_life;
    current = a.current;
    old = a.old;
    within = rw (a.unused) (omega (arith, a.activated));
    stored = rw (a.unused, a.activated, a.starting) (ground arith);
  }

  abbrev pub with_row : Trend R → Tables R → Tables R
  with_row trend tables = record tables {
    row = some trend;
    version = record tables.version { current_log_odds = trend.current_log_odds };
  }

  -- The row of a trend after a change.
  abbrev pub changed : Trend R → R → ℕ → Trend R
  changed trend log_odds at = record trend { current_log_odds = log_odds; updated_at = at }

  apply_decay_early :
      (at : ℕ) (trend : Trend R) (tables : Tables R)
      → tables.row ≡ some trend
      → leb at trend.updated_at ≡ true
      → (apply_decay ops at trend tables).2 ≡ tables
  unfolding apply_decay
  apply_decay_early at trend tables r e = rw (r, e) refl

  apply_decay_late :
      (at : ℕ) (trend : Trend R) (tables : Tables R)
      → IsProjected trend tables
      → leb at trend.updated_at ≡ false
      → (apply_decay ops at trend tables).2 ≡ with_row (changed trend (decay_to trend at) at) tables
  unfolding apply_decay
  apply_decay_late at trend tables p e = rw (p.row, e, p.active) refl

module _ {R : Type 0} (ops : Reals R) (exact : IsExact ops) (v : ℕ) where
  pub reached_later :
      (t : ℕ) (trend : Trend R) (tables : Tables R)
      → IsProjected ops v trend tables
      → trend.updated_at < t
      → (let before = reached ops v trend tables trend.updated_at in
          decay_log_odds ops before.0 trend.baseline_log_odds
            (half_life_or_default trend.decay_half_life_days)
            before.1
            t)
        ≡ decay_to ops v trend t
  reached_later t trend tables p q =
      sym (decay-decay ops exact _ _ _ _ trend.updated_at t p.within (omega arith))
      ∙ ap
          (λ c.
            decay_log_odds ops c trend.baseline_log_odds
              (half_life_or_default trend.decay_half_life_days) trend.updated_at t)
          p.stored

  decay-IsProjected :
      (t : ℕ) (trend : Trend R) (tables : Tables R)
      → IsProjected ops v trend tables
      → trend.updated_at < t
      → IsProjected ops v
          (changed ops v trend (decay_to ops v trend t) t)
          (with_row ops v (changed ops v trend (decay_to ops v trend t) t) tables)
  unfolding replay projection_entries
  decay-IsProjected t trend tables p q = record {
    active = p.active;
    row = refl;
    baseline = p.baseline;
    half_life = p.half_life;
    current = refl;
    old =
        let old = IsUntil-later v trend.updated_at t tables (omega arith) p.old in
        record { evidence = old.evidence; restatements = old.restatements };
    within =
        rw (entries_later v trend.updated_at t tables (omega arith) p.old)
          (omega (arith, p.within));
    stored =
        rw (entries_later v trend.updated_at t tables (omega arith) p.old)
          (reached_later t trend tables p q);
  }

  pub apply_decay-IsProjected :
      (at : ℕ) (trend : Trend R) (tables : Tables R)
      → IsProjected ops v trend tables
      → (row : Trend R) × IsProjected ops v row (apply_decay ops at trend tables).2
  apply_decay-IsProjected at trend tables p = elim (Bool-cases (leb at trend.updated_at)) [
    | inl e ↦ (trend, rw (apply_decay_early ops v at trend tables p.row e) p)
    | inr e ↦ (
      changed ops v trend (decay_to ops v trend at) at,
      rw (apply_decay_late ops v at trend tables p e)
          (decay-IsProjected at trend tables p (ground arith)),
    )
  ]
