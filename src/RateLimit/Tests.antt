-- ===== src/RateLimit/Tests.antt =====
-- Requests at concrete times, and the theorems at them.
use horadus.RateLimit.{
  Manager, LimitSettings, fixed_window, check_rate_limit, ApiKeyRecord, check_active, check_memory,
  check_memory_sliding_window, check_memory_fixed_window, drop_old,
}
use horadus.RateLimit.Sliding.{admitted, in_spans, sliding_window_bound}
use horadus.RateLimit.Fixed.{admitted_fixed, in_slot, fixed_window_bound}
use horadus.Prelude.{List, [], arith, none, refl, true, ℕ, ◌∷◌, ◌≡◌, ◌≤◌}

abbrev times : List ℕ
times = 0 ∷ 10000 ∷ 20000 ∷ 59999 ∷ 60000 ∷ 61000 ∷ []

-- Two a minute: the third and fourth request are refused, and the fifth has room again.
admits : admitted 60 2 times [] ≡ 0 ∷ 10000 ∷ 60000 ∷ []
unfolding check_memory_sliding_window drop_old
admits = refl

sliding_window_bound_example : in_spans 60 5000 (admitted 60 2 times []) ≤ 2
sliding_window_bound_example = sliding_window_bound 60 2 5000 0 times (omega arith)

abbrev key_record : ℕ → ApiKeyRecord
key_record id = record { id = id; is_active = true; rate_limit_per_minute = 2; revoked_at = none }

abbrev manager : Manager
manager = record {
  records = key_record 1 ∷ key_record 2 ∷ [];
  request_windows = λ key. [];
  fixed_window_counts = λ key. none;
}

abbrev settings : LimitSettings
settings = record { strategy = fixed_window; window_seconds = 60 }

allows : (check_rate_limit settings 1 5 none manager).0 ≡ (true, none)
unfolding check_rate_limit check_active check_memory check_memory_fixed_window
allows = refl

fixed_window_bound_example : in_slot 60 0 (admitted_fixed 60 2 times none) ≤ 2
fixed_window_bound_example = fixed_window_bound 60 2 0 0 times (omega arith)
