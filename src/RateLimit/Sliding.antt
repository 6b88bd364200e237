-- ===== src/RateLimit/Sliding.antt =====
-- How many requests the sliding window admits.
use horadus.Prelude.{
  Bool-cases, ℕ, inl, inr, ◌+◌, ◌≤◌, ◌<◌, ◌≡◌, Bool, List, [], ◌∷◌, ◌++◌, ltb, leb, count_if,
  length, arith, ◌&&◌, if◌then◌else◌, refl,
}
use horadus.RateLimit.{check_memory_sliding_window, drop_old, milliseconds}

-- The requests that are admitted, of those at the times given, in their order.
abbrev pub admitted : ℕ → ℕ → List ℕ → List ℕ → List ℕ
admitted window_seconds limit [] window = []
admitted window_seconds limit (now ∷ times) window =
    let (verdict, next) = check_memory_sliding_window window_seconds limit now window in
    if verdict.0
    then now ∷ admitted window_seconds limit times next
    else admitted window_seconds limit times next

-- Times from `last` on that never go back.
abbrev pub Ordered : ℕ → List ℕ → Type 0
Ordered last [] = Unit
Ordered last (now ∷ times) = (last ≤ now) × Ordered now times

abbrev pub in_span : ℕ → ℕ → ℕ → Bool
in_span window_seconds start time = leb start time && ltb time (start + milliseconds window_seconds)

abbrev pub in_spans : ℕ → ℕ → List ℕ → ℕ
in_spans window_seconds start = count_if (in_span window_seconds start)

count_le : (w start : ℕ) (times : List ℕ) → in_spans w start times ≤ length times
count_le w start [] = omega arith
count_le w start (t ∷ times) = ground (arith, count_le w start times)

count-snoc :
    (w start now : ℕ) (times : List ℕ)
    → in_spans w start (times ++ (now ∷ []))
      ≡ (if in_span w start now then in_spans w start times + 1 else in_spans w start times)
count-snoc w start now [] = ground arith
count-snoc w start now (t ∷ times) = ground (arith, count-snoc w start now times)

count-drop_old :
    (w start now : ℕ) (window : List ℕ)
    → now < start + milliseconds w
    → in_spans w start (drop_old w now window) ≡ in_spans w start window
unfolding drop_old
count-drop_old w start now [] h = refl
count-drop_old w start now (t ∷ window) h = ground (arith, count-drop_old w start now window h)

none_later :
    (w limit start last : ℕ) (times window : List ℕ)
    → start + milliseconds w ≤ last
    → Ordered last times
    → in_spans w start (admitted w limit times window) ≡ 0
none_later w limit start last [] window h o = refl
none_later w limit start last (now ∷ times) window h o =
    ground
      (arith, none_later w limit start now times (check_memory_sliding_window w limit now window).1)

spans_bounded :
    (w limit start last : ℕ) (times window : List ℕ)
    → Ordered last times
    → in_spans w start window ≤ limit
    → in_spans w start window + in_spans w start (admitted w limit times window) ≤ limit
unfolding check_memory_sliding_window
spans_bounded w limit start last [] window o h = omega arith
spans_bounded w limit start last (now ∷ times) window o h =
    elim (Bool-cases (ltb now (start + milliseconds w))) [
      | inl e ↦
          let kept = drop_old w now window in
          ground (
            arith,
            count-drop_old w start now window,
            count-snoc w start now kept,
            count_le w start kept,
            spans_bounded w limit start now times kept o.1,
            spans_bounded w limit start now times (kept ++ (now ∷ [])) o.1,
          )
      | inr e ↦
          let later =
            none_later w limit start now (now ∷ times) window (ground arith) (omega arith, o.1) in
          omega (arith, later, h)
    ]

-- Of requests at times that never go back, the sliding window admits at most as many as the limit in
-- any span of the window's length, wherever the span starts.
pub sliding_window_bound :
    (window_seconds limit start first : ℕ) (times : List ℕ)
    → Ordered first times
    → in_spans window_seconds start (admitted window_seconds limit times []) ≤ limit
sliding_window_bound window_seconds limit start first times o =
    omega (arith, spans_bounded window_seconds limit start first times [] o (omega arith))
