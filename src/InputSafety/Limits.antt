-- ===== src/InputSafety/Limits.antt =====
-- How far a truncated text keeps to its limit.
use native.Mathlib.Decide.{dec_le}
use native.Mathlib.Nat.{mul-le-mul_right, le-div_iff_mul-le}
use mathlib.Core.Path.{refl}
use horadus.InputSafety.{
  default_truncation_marker, ceil_div, estimate_tokens, truncate_to_token_limit,
}
use horadus.Prelude.{
  Bool-cases, List, [], arith, false, inl, inr, is_space, leb, leb→le, length, length-append,
  length-strip, length-strip_right, length-take, max, strip, strip_left, strip_right, suc, take,
  zero, ℕ, ◌*◌, ◌++◌, ◌+◌, ◌-◌, ◌<◌, ◌↔◌, ◌∷◌, ◌≡◌, ◌≤◌,
}

ceil_div-le : (m n d : ℕ) → 0 < d → m ≤ n * d → ceil_div m d ≤ n
ceil_div-le m n d p h = elim (dec_le (suc n) (ceil_div m d)) [
  | yes over ↦ absurd (omega (arith, (le-div_iff_mul-le p).0 over, h))
  | no within ↦ omega arith
]

-- a text of at most n tokens' worth of characters
estimate_tokens-le :
    (text : List ℕ) (n chars_per_token : ℕ)
    → length text ≤ n * max 1 chars_per_token
    → estimate_tokens text chars_per_token ≤ n
unfolding estimate_tokens
estimate_tokens-le [] n w h = omega arith
estimate_tokens-le (c ∷ text) zero w h = absurd (omega arith)
estimate_tokens-le (c ∷ text) (suc n) w h =
    omega (arith, ceil_div-le (length (c ∷ text)) (suc n) (max 1 w) (omega arith) h)

kept :
    (text marker : List ℕ) (n : ℕ)
    → length (strip (strip_right (take n text) ++ (b' ' ∷ marker))) ≤ n + 1 + length marker
kept text marker n = omega (
  arith,
  length-strip (strip_right (take n text) ++ (b' ' ∷ marker)),
  length-append (strip_right (take n text)) (b' ' ∷ marker),
  length-strip_right (take n text),
  length-take n text,
)

-- A truncated text is estimated within its limit if the limit leaves room for at least two
-- characters beside the marker.
truncate_within_limit :
    (text marker : List ℕ) (max_tokens chars_per_token : ℕ)
    → length marker + 2 ≤ max_tokens * max 1 chars_per_token
    → estimate_tokens
        (truncate_to_token_limit text max_tokens marker chars_per_token)
        chars_per_token
      ≤ max_tokens
unfolding truncate_to_token_limit
truncate_within_limit text marker zero w h = absurd (omega arith)
truncate_within_limit text marker (suc limit) w h =
    let chars = suc limit * max 1 w in
    let long = kept (strip text) marker (max 1 (chars - length marker - 1)) in
    elim (Bool-cases (leb (estimate_tokens (strip text) w) (suc limit))) [
      | inl fits ↦ rw fits (leb→le _ _ fits)
      | inr over ↦ rw over (elim (Bool-cases (leb chars (length marker))) [
        | inl small ↦ absurd (omega (arith, leb→le _ _ small))
        | inr room ↦ rw room (estimate_tokens-le _ (suc limit) w (omega (arith, long)))
      ])
    ]

le-ceil_div : (m d : ℕ) → 0 < d → m ≤ ceil_div m d * d
le-ceil_div m d p = omega arith

-- The estimate is the least number of tokens whose characters hold the text.
pub estimate_tokens_iff :
    (text : List ℕ) (n chars_per_token : ℕ)
    → (estimate_tokens text chars_per_token ≤ n) ↔ (length text ≤ n * max 1 chars_per_token)
unfolding estimate_tokens
estimate_tokens_iff [] n w = (λ _. omega arith, estimate_tokens-le [] n w)
estimate_tokens_iff (c ∷ text) n w = (
  λ h.
      let d = max 1 w in
      let tokens = ceil_div (length (c ∷ text)) d in
      let enough : tokens ≤ n = omega arith in
      omega (arith, le-ceil_div (length (c ∷ text)) d, mul-le-mul_right d enough),
  estimate_tokens-le (c ∷ text) n w,
)

strip_left-cons : (c : ℕ) (s : List ℕ) → is_space c ≡ false → strip_left (c ∷ s) ≡ c ∷ s
unfolding strip_left
strip_left-cons c s h = rw h

cut_to_one :
    (c : ℕ) (rest : List ℕ)
    → is_space c ≡ false
    → strip (strip_right (take 1 (c ∷ rest)) ++ (b' ' ∷ default_truncation_marker))
      ≡ c ∷ b' ' ∷ default_truncation_marker
unfolding strip strip_right is_space
cut_to_one c rest h = rw (strip_left-cons c [] h) (
    rw (strip_left-cons c (b' ' ∷ default_truncation_marker) h)
      (rw (strip_left-cons b']' _ refl) refl))

too_long :
    (limit chars_per_token : ℕ)
    → suc limit * max 1 chars_per_token ≡ length default_truncation_marker + 1
    → (c : ℕ) → suc limit < estimate_tokens (c ∷ b' ' ∷ default_truncation_marker) chars_per_token
too_long limit w h c =
    let text = c ∷ b' ' ∷ default_truncation_marker in
    elim (dec_le (estimate_tokens text w) (suc limit)) [
      | yes fits ↦ absurd (omega (arith, (estimate_tokens_iff text (suc limit) w).0 fits))
      | no over ↦ omega arith
    ]

-- Where the limit leaves room for one character beside the default marker, every text that has to be
-- truncated is cut to its first character, a space and the marker, and the estimate of the result still
-- exceeds the limit.
pub truncate_overruns :
    (text rest : List ℕ) (c limit chars_per_token : ℕ)
    → suc limit * max 1 chars_per_token ≡ length default_truncation_marker + 1
    → strip text ≡ c ∷ rest
    → is_space c ≡ false
    → suc limit < estimate_tokens (strip text) chars_per_token
    → (let cut =
          truncate_to_token_limit text (suc limit) default_truncation_marker chars_per_token in
        (cut ≡ c ∷ b' ' ∷ default_truncation_marker)
        × (suc limit < estimate_tokens cut chars_per_token))
unfolding truncate_to_token_limit
truncate_overruns text rest c limit w h e n o =
    let chars = suc limit * max 1 w in
    let one : max 1 (chars - 11 - 1) ≡ 1 = omega arith in
    elim (Bool-cases (leb (estimate_tokens (strip text) w) (suc limit))) [
      | inl fits ↦ absurd (omega (arith, leb→le _ _ fits))
      | inr over ↦ rw over (elim (Bool-cases (leb chars 11)) [
        | inl small ↦ absurd (omega (arith, leb→le _ _ small))
        | inr room ↦ rw (room, one) (rw e (rw (cut_to_one c rest n) (refl, too_long limit w h c)))
      ])
    ]
