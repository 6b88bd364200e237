-- ===== src/Degraded/Tests.antt =====
-- Evaluations at concrete times, with the default settings.
use horadus.Degraded.{DegradedSettings, Reads, evaluate, next_mode}
use horadus.Prelude.{[], false, none, refl, some, true, ℕ, ◌∷◌, ◌≡◌}

abbrev defaults : DegradedSettings
defaults = record {
  mode_enabled = true;
  enter_min_failovers = 3;
  enter_ratio = 2500;
  enter_min_calls = 6;
  exit_ratio = 0;
  exit_min_calls = 6;
  min_active_seconds = 3600;
}

abbrev quiet : ℕ → Reads
quiet now = record {
  now_epoch = now;
  rows = (some 4, none) ∷ (none, none) ∷ (some 3, some 0) ∷ [];
  quality_flag = false;
}

abbrev failing : ℕ → Reads
failing now = record {
  now_epoch = now;
  rows = (some 4, some 2) ∷ (some 3, some 1) ∷ [];
  quality_flag = false;
}

enters : (evaluate defaults (some (failing 1000)) none).0.is_degraded ≡ true
unfolding evaluate next_mode
enters = refl
