-- ===== src/Degraded.antt =====
-- src/processing/degraded_llm_tracker.py: when the Tier-2 route counts as degraded. What Redis returns
-- is given: the rows of the buckets, the quality flag and the stored mode. The ratios of the settings
-- are in ten-thousandths and compared exactly; a stored mode that cannot be read or parsed counts as
-- none. Times are seconds.
pub mod Hysteresis
pub mod Tests
use horadus.Prelude.{
  ℕ, ◌+◌, ◌*◌, ◌-◌, Bool, true, false, ◌&&◌, ◌||◌, not, Option, none, some, List, [], ◌∷◌, ltb, leb,
  max, if◌then◌else◌,
}

pub record DegradedLlmWindow : Type 0 where
  pub total_calls : ℕ
  pub secondary_calls : ℕ

pub data Mode : Type 0 where
  normal degraded : Mode

pub record ModeState : Type 0 where
  pub mode : Mode
  pub since_epoch : ℕ

pub record DegradedLlmStatus : Type 0 where
  pub is_degraded : Bool
  pub availability_degraded : Bool
  pub quality_degraded : Bool
  pub window : DegradedLlmWindow
  pub degraded_since_epoch : Option ℕ

pub record DegradedSettings : Type 0 where
  pub mode_enabled : Bool
  pub enter_min_failovers : ℕ
  pub enter_ratio : ℕ
  pub enter_min_calls : ℕ
  pub exit_ratio : ℕ
  pub exit_min_calls : ℕ
  pub min_active_seconds : ℕ

-- `failover_ratio >= ratio` and `failover_ratio <= ratio`; the ratio of no calls is 0
abbrev pub ratio_at_least : DegradedLlmWindow → ℕ → Bool
ratio_at_least window ratio =
    if leb window.total_calls 0
    then leb ratio 0
    else leb (ratio * window.total_calls) (window.secondary_calls * 10000)

abbrev pub ratio_at_most : DegradedLlmWindow → ℕ → Bool
ratio_at_most window ratio =
    if leb window.total_calls 0
    then true
    else leb (window.secondary_calls * 10000) (ratio * window.total_calls)

abbrev pub compute_availability_degraded : DegradedSettings → DegradedLlmWindow → Bool
compute_availability_degraded settings window =
    leb (max 1 settings.enter_min_failovers) window.secondary_calls
    || (leb (max 1 settings.enter_min_calls) window.total_calls
        && ratio_at_least window settings.enter_ratio)

abbrev pub compute_availability_recovered : DegradedSettings → DegradedLlmWindow → Bool
compute_availability_recovered settings window =
    if ltb window.total_calls (max 1 settings.exit_min_calls)
    then false
    else ratio_at_most window settings.exit_ratio

abbrev or_zero : Option ℕ → ℕ
or_zero none = 0
or_zero (some n) = n

-- A row that has no counts adds none.
abbrev pub load_window : List (Option ℕ × Option ℕ) → DegradedLlmWindow
load_window [] = record { total_calls = 0; secondary_calls = 0 }
load_window ((total, secondary) ∷ rows) = record {
  total_calls = or_zero total + (load_window rows).total_calls;
  secondary_calls = or_zero secondary + (load_window rows).secondary_calls;
}

-- What one evaluation reads, at its time.
pub record Reads : Type 0 where
  pub now_epoch : ℕ
  pub rows : List (Option ℕ × Option ℕ)
  pub quality_flag : Bool

abbrev pub state_of : Mode → ℕ → ModeState
state_of mode since = record { mode = mode; since_epoch = since }

-- The mode, and the state that is stored if one is.
unfoldable pub next_mode :
    DegradedSettings
    → ℕ
    → Option ModeState
    → Bool
    → Bool
    → DegradedLlmWindow
    → ModeState × Option ModeState
next_mode settings now none quality availability window =
    if quality || availability
    then (state_of degraded now, some (state_of degraded now))
    else (state_of normal now, some (state_of normal now))
next_mode settings now (some stored) quality availability window = elim stored.mode [
  | normal ↦
      if quality || availability
      then (state_of degraded now, some (state_of degraded now))
      else (state_of normal stored.since_epoch, some (state_of normal stored.since_epoch))
  | degraded ↦
      if ltb now (stored.since_epoch + settings.min_active_seconds)
      then (state_of degraded stored.since_epoch, none)
      else if not quality && compute_availability_recovered settings window
      then (state_of normal now, some (state_of normal now))
      else (state_of degraded stored.since_epoch, none)
]

abbrev pub no_window : DegradedLlmWindow
no_window = record { total_calls = 0; secondary_calls = 0 }

abbrev pub normal_status : DegradedLlmStatus
normal_status = record {
  is_degraded = false;
  availability_degraded = false;
  quality_degraded = false;
  window = no_window;
  degraded_since_epoch = none;
}

abbrev pub is_degraded_mode : Mode → Bool
is_degraded_mode normal = false
is_degraded_mode degraded = true

abbrev status_of : DegradedSettings → Reads → ModeState → DegradedLlmStatus
status_of settings reads state = record {
  is_degraded = is_degraded_mode state.mode;
  availability_degraded = compute_availability_degraded settings (load_window reads.rows);
  quality_degraded = reads.quality_flag;
  window = load_window reads.rows;
  degraded_since_epoch = if is_degraded_mode state.mode then some state.since_epoch else none;
}

-- The status, and what is stored; reads that fail are `none`.
unfoldable pub evaluate :
    DegradedSettings → Option Reads → Option ModeState → DegradedLlmStatus × Option ModeState
unfolding next_mode
evaluate settings none stored = (normal_status, none)
evaluate settings (some reads) stored =
    let (state, write) =
      next_mode settings reads.now_epoch stored reads.quality_flag
        (compute_availability_degraded settings (load_window reads.rows))
        (load_window reads.rows) in
    if settings.mode_enabled then (status_of settings reads state, write) else (normal_status, none)
