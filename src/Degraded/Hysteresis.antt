-- ===== src/Degraded/Hysteresis.antt =====
-- That the entry and the exit of the degraded mode do not alternate on one window.
use horadus.Degraded.{
  is_degraded_mode, DegradedSettings, DegradedLlmWindow, Reads, ModeState, Mode, normal, degraded,
  state_of, evaluate, next_mode, load_window, compute_availability_degraded,
  compute_availability_recovered,
}
use horadus.Prelude.{
  Bool, Option, arith, false, none, refl, some, suc, sym, true, zero, ℕ, ◌*◌, ◌<◌, ◌||◌, ◌∙◌, ◌≡◌,
  ◌≤◌,
}

-- The stored mode after a write, if there was one.
abbrev after_write : Option ModeState → Option ModeState → Option ModeState
after_write none stored = stored
after_write (some state) stored = some state

le_product : (a b : ℕ) → 0 < a → b ≤ a * b
le_product zero b h = omega arith
le_product (suc a) b h = omega arith

recovered_not_degraded :
    (settings : DegradedSettings) (window : DegradedLlmWindow)
    → settings.exit_ratio ≡ 0
    → 0 < settings.enter_ratio
    → compute_availability_recovered settings window ≡ true
    → compute_availability_degraded settings window ≡ false
recovered_not_degraded settings window e h r =
    let r' = rw e at r in ground (arith, le_product settings.enter_ratio window.total_calls h)

abbrev triggered : DegradedSettings → Bool → DegradedLlmWindow → Bool
triggered settings quality window = quality || compute_availability_degraded settings window

abbrev next :
    DegradedSettings
    → ℕ
    → Option ModeState
    → Bool
    → DegradedLlmWindow
    → ModeState × Option ModeState
next settings now stored quality window =
    next_mode settings now stored quality (compute_availability_degraded settings window) window

-- What the normal mode means of a step: nothing calls for the other one, and it is stored.
abbrev NormalStep : Bool → Option ModeState → Type 0
NormalStep trigger none = true ≡ false
NormalStep trigger (some state) = (trigger ≡ false) × (state.mode ≡ normal)

normal_step :
    (settings : DegradedSettings) (now : ℕ) (quality : Bool) (window : DegradedLlmWindow) (m : Mode)
    (since : ℕ)
    → settings.exit_ratio ≡ 0
    → 0 < settings.enter_ratio
    → is_degraded_mode (next settings now (some (state_of m since)) quality window).0.mode ≡ false
    → NormalStep
        (triggered settings quality window)
        (next settings now (some (state_of m since)) quality window).1
unfolding next_mode
normal_step settings now quality window normal since e h n = ground arith
normal_step settings now quality window degraded since e h n =
    ground (arith, recovered_not_degraded settings window e h)

normal_start :
    (settings : DegradedSettings) (now : ℕ) (quality : Bool) (window : DegradedLlmWindow)
    → is_degraded_mode (next settings now none quality window).0.mode ≡ false
    → NormalStep (triggered settings quality window) (next settings now none quality window).1
unfolding next_mode
normal_start settings now quality window n = ground arith

quiet_step :
    (settings : DegradedSettings) (now : ℕ) (quality : Bool) (window : DegradedLlmWindow)
    (write stored : Option ModeState)
    → NormalStep (triggered settings quality window) write
    → is_degraded_mode (next settings now (after_write write stored) quality window).0.mode ≡ false
unfolding next_mode
quiet_step settings now quality window none stored h = cc
quiet_step settings now quality window (some state) stored h = rw (h.1, h.0) refl

evaluate_status :
    (settings : DegradedSettings) (r : Reads) (stored : Option ModeState)
    → settings.mode_enabled ≡ true
    → (evaluate settings (some r) stored).0.is_degraded
      ≡ is_degraded_mode
          (next settings r.now_epoch stored r.quality_flag (load_window r.rows)).0.mode
unfolding evaluate
evaluate_status settings r stored on = rw (on, evaluate) refl

evaluate_write :
    (settings : DegradedSettings) (r : Reads) (stored : Option ModeState)
    → settings.mode_enabled ≡ true
    → (evaluate settings (some r) stored).1
      ≡ (next settings r.now_epoch stored r.quality_flag (load_window r.rows)).1
unfolding evaluate
evaluate_write settings r stored on = rw (on, evaluate) refl

normal_either :
    (settings : DegradedSettings) (now : ℕ) (quality : Bool) (window : DegradedLlmWindow)
    (stored : Option ModeState)
    → settings.exit_ratio ≡ 0
    → 0 < settings.enter_ratio
    → is_degraded_mode (next settings now stored quality window).0.mode ≡ false
    → NormalStep (triggered settings quality window) (next settings now stored quality window).1
normal_either settings now quality window none e h n = normal_start settings now quality window n
normal_either settings now quality window (some s) e h n =
    normal_step settings now quality window s.mode s.since_epoch e h n

-- With an exit ratio of 0 and a positive entry ratio, an evaluation that reports the normal mode is
-- followed by one that reports it too, as long as the rows and the quality flag stay as they are.
normal_stable :
    (settings : DegradedSettings) (reads later : Reads) (stored : Option ModeState)
    → settings.mode_enabled ≡ true
    → settings.exit_ratio ≡ 0
    → 0 < settings.enter_ratio
    → later.rows ≡ reads.rows
    → later.quality_flag ≡ reads.quality_flag
    → (evaluate settings (some reads) stored).0.is_degraded ≡ false
    → (evaluate settings
        (some later)
        (after_write (evaluate settings (some reads) stored).1 stored)).0.is_degraded
      ≡ false
normal_stable settings reads later stored on e h rows quality normal_now =
    evaluate_status settings later (after_write (evaluate settings (some reads) stored).1 stored) on
    ∙ rw (evaluate_write settings reads stored on, rows, quality)
        (quiet_step settings later.now_epoch reads.quality_flag (load_window reads.rows)
          (next settings reads.now_epoch stored reads.quality_flag (load_window reads.rows)).1
          stored
          (normal_either settings reads.now_epoch reads.quality_flag (load_window reads.rows) stored
            e h (sym (evaluate_status settings reads stored on) ∙ normal_now)))
