-- ===== src/TrendEngine/Once.antt =====
-- Evidence counts once for a claim and a signal.
use horadus.TrendEngine.{
  Trend, TrendEvidence, Tables, same_version, has_evidence, is_duplicate, ignored, apply_evidence,
  apply_log_odds_delta,
}
use horadus.TrendEngine.Arith.{Reals}
use horadus.Prelude.{
  Bool, Bool-cases, List, Option, Option-cases, [], arith, false, inl, inr, none, refl, some, true,
  ℕ, ◌++◌, ◌∷◌, ◌≡◌,
}

same_version_refl : (v : Option ℕ) → same_version v v ≡ true
same_version_refl none = refl
same_version_refl (some v) = ground arith

module _ {R : Type 0} where
  has_evidence-append :
      (version : Option ℕ) (claim signal_type : ℕ) (row : TrendEvidence R)
      (rows : List (TrendEvidence R))
      → is_duplicate version claim signal_type row ≡ true
      → has_evidence version claim signal_type (rows ++ (row ∷ [])) ≡ true
  has_evidence-append version claim signal_type row [] e = rw e refl
  has_evidence-append version claim signal_type row (x ∷ rows) e =
      elim (Bool-cases (is_duplicate version claim signal_type x)) [
        | inl f ↦ rw f refl
        | inr f ↦ rw f (has_evidence-append version claim signal_type row rows e)
      ]

module _ {R : Type 0} (ops : Reals R) where
  apply_evidence-has_evidence :
      (id claim signal_type : ℕ) (delta : R) (created at : ℕ) (trend : Trend R) (tables : Tables R)
      → (let after = apply_evidence ops id claim signal_type delta created at false trend tables in
          has_evidence after.1.active_state_version_id claim signal_type after.2.evidence ≡ true)
  unfolding apply_evidence apply_log_odds_delta
  apply_evidence-has_evidence id claim signal_type delta created at trend tables =
      let version = trend.active_state_version_id in
      let row : TrendEvidence R = record {
        evidence_id = id;
        event_claim_id = claim;
        state_version_id = version;
        signal_type = signal_type;
        delta_log_odds = delta;
        is_invalidated = false;
        created_at = created;
      } in
      let same : is_duplicate version claim signal_type row ≡ true =
        rw (same_version_refl version) (ground arith) in
      elim (Bool-cases (has_evidence version claim signal_type tables.evidence)) [
        | inl e ↦ rw e e
        | inr e ↦ elim (Option-cases tables.row) [
          | inl r ↦ rw (e, r) (has_evidence-append version claim signal_type _ tables.evidence same)
          | inr (row, r) ↦
              rw (e, r) (has_evidence-append version claim signal_type _ tables.evidence same)
        ]
      ]

  duplicate_ignored :
      (id claim signal_type : ℕ) (delta : R) (created at : ℕ) (raced : Bool) (trend : Trend R)
      (tables : Tables R)
      → has_evidence trend.active_state_version_id claim signal_type tables.evidence ≡ true
      → apply_evidence ops id claim signal_type delta created at raced trend tables
        ≡ (ignored ops trend, trend, tables)
  unfolding apply_evidence
  duplicate_ignored id claim signal_type delta created at raced trend tables e = rw e refl

  -- Evidence that was applied without a race counts once: applied again for the same claim and signal,
  -- with any delta, it changes neither the trend nor its tables, and reports no change.
  pub apply_evidence_once :
      (id again claim signal_type : ℕ) (delta delta' : R) (created at created' at' : ℕ)
      (raced : Bool) (trend : Trend R) (tables : Tables R)
      → (let after = apply_evidence ops id claim signal_type delta created at false trend tables in
          apply_evidence ops again claim signal_type delta' created' at' raced after.1 after.2
          ≡ (ignored ops after.1, after.1, after.2))
  apply_evidence_once id again claim signal_type delta delta' created at created' at' raced trend
        tables =
      duplicate_ignored again claim signal_type delta' created' at' raced _ _
        (apply_evidence-has_evidence id claim signal_type delta created at trend tables)
