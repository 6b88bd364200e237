-- ===== src/RateLimit/Fixed.antt =====
-- How many requests the fixed window admits.
use horadus.Prelude.{
  ℕ, suc, zero, ◌+◌, ◌*◌, ◌/◌, ◌≤◌, ◌<◌, ◌≡◌, List, [], ◌∷◌, Option, none, some, count_if, arith,
  ◌==◌, if◌then◌else◌, refl,
}
use native.Mathlib.Nat.{mul-le-mul_right, le-div_iff_mul-le, div-mul-le_self}
use horadus.RateLimit.{check_memory_fixed_window, milliseconds}
use horadus.RateLimit.Sliding.{Ordered}

-- The requests that are admitted, of those at the times given, in their order.
abbrev pub admitted_fixed : ℕ → ℕ → List ℕ → Option (ℕ × ℕ) → List ℕ
admitted_fixed window_seconds limit [] counts = []
admitted_fixed window_seconds limit (now ∷ times) counts =
    let (verdict, next) = check_memory_fixed_window window_seconds limit now counts in
    if verdict.0
    then now ∷ admitted_fixed window_seconds limit times next
    else admitted_fixed window_seconds limit times next

-- When the window of a time starts, in seconds.
abbrev pub slot : ℕ → ℕ → ℕ
slot window_seconds now = now / milliseconds window_seconds * window_seconds

abbrev pub in_slot : ℕ → ℕ → List ℕ → ℕ
in_slot window_seconds start = count_if (λ time. slot window_seconds time == start)

abbrev held : ℕ → Option (ℕ × ℕ) → ℕ
held start none = 0
held start (some (previous, count)) = if previous == start then count else 0

-- No window after the last request's has begun.
abbrev Begun : ℕ → ℕ → Option (ℕ × ℕ) → Type 0
Begun window_seconds last none = Unit
Begun window_seconds last (some (previous, count)) = previous ≤ slot window_seconds last

slot_mono : (w a b : ℕ) → a ≤ b → slot w a ≤ slot w b
slot_mono zero a b h = omega arith
slot_mono (suc w) a b h =
    let m = milliseconds (suc w) in
    let wide : zero < m = omega arith in
    mul-le-mul_right (suc w)
      ((le-div_iff_mul-le {x = a / m} {y = b} wide).1 (omega (arith, div-mul-le_self a m)))

none_later :
    (w limit start last : ℕ) (times : List ℕ) (counts : Option (ℕ × ℕ))
    → start < slot w last
    → Ordered last times
    → in_slot w start (admitted_fixed w limit times counts) ≡ 0
none_later w limit start last [] counts h o = refl
none_later w limit start last (now ∷ times) counts h o = ground (
  arith,
  slot_mono w last now,
  none_later w limit start now times (check_memory_fixed_window w limit now counts).1,
)

slots_bounded :
    (w limit start last : ℕ) (times : List ℕ) (counts : Option (ℕ × ℕ))
    → Ordered last times
    → Begun w last counts
    → held start counts ≤ limit
    → held start counts + in_slot w start (admitted_fixed w limit times counts) ≤ limit
unfolding check_memory_fixed_window
slots_bounded w limit start last [] counts o b h = omega arith
slots_bounded w limit start last (now ∷ times) none o b h = ground (
  arith,
  none_later w limit start now times (some (slot w now, 1)),
  slots_bounded w limit start now times none o.1,
  slots_bounded w limit start now times (some (slot w now, 1)) o.1,
)
slots_bounded w limit start last (now ∷ times) (some (previous, count)) o b h =
    let here = slot w now in
    ground (
      arith,
      slot_mono w last now o.0,
      none_later w limit start now times (some (previous, count)),
      none_later w limit start now times (some (here, count + 1)),
      none_later w limit start now times (some (here, 1)),
      slots_bounded w limit start now times (some (previous, count)) o.1,
      slots_bounded w limit start now times (some (here, count + 1)) o.1,
      slots_bounded w limit start now times (some (here, 1)) o.1,
    )

-- Of requests at times that never go back, the fixed window admits at most as many as the limit in each
-- of its windows, the one that starts at the second `start`.
pub fixed_window_bound :
    (window_seconds limit start first : ℕ) (times : List ℕ)
    → Ordered first times
    → in_slot window_seconds start (admitted_fixed window_seconds limit times none) ≤ limit
fixed_window_bound window_seconds limit start first times o =
    omega (arith, slots_bounded window_seconds limit start first times none o tt (omega arith))
