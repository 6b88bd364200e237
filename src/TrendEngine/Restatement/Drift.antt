-- ===== src/TrendEngine/Restatement/Drift.antt =====
-- How evidence moves the stored log-odds away from the projection.
use horadus.TrendEngine.Arith.{IsExact, Reals}
use horadus.TrendEngine.{TrendEvidence}
use horadus.TrendEngine.Restatement.History.{History}
use horadus.Prelude.{false, some, ℕ}

module _ {R : Type 0} (ops : Reals R) (exact : IsExact ops) (v : ℕ) where
  abbrev inserted : ℕ → ℕ → ℕ → R → ℕ → TrendEvidence R
  inserted id claim signal_type delta at = record {
    evidence_id = id;
    event_claim_id = claim;
    state_version_id = some v;
    signal_type = signal_type;
    delta_log_odds = delta;
    is_invalidated = false;
    created_at = at;
  }
