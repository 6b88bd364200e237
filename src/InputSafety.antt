-- ===== src/InputSafety.antt =====
-- src/processing/llm_input_safety.py: token estimates, truncation to a token limit, and the
-- delimiters round untrusted text. Texts are lists of code points. `ceil` of the quotient is taken
-- exactly; a limit below zero, which the code treats as zero, is zero here.
pub mod Limits
pub mod Tests
use horadus.Prelude.{
  ℕ, zero, suc, ◌+◌, ◌-◌, ◌*◌, ◌/◌, max, List, [], ◌∷◌, ◌++◌, map, length, take, leb, ◌==◌,
  if◌then◌else◌, strip, strip_right, upper, codes,
}

abbrev pub default_truncation_marker : List ℕ
default_truncation_marker = codes "[TRUNCATED]"

-- the quotient, rounded up
abbrev pub ceil_div : ℕ → ℕ → ℕ
ceil_div n d = (n + d - 1) / d

unfoldable pub estimate_tokens : List ℕ → ℕ → ℕ
estimate_tokens [] chars_per_token = 0
estimate_tokens (c ∷ text) chars_per_token =
    max 1 (ceil_div (length (c ∷ text)) (max 1 chars_per_token))

unfoldable pub truncate_to_token_limit : List ℕ → ℕ → List ℕ → ℕ → List ℕ
truncate_to_token_limit text zero marker chars_per_token = marker
truncate_to_token_limit text (suc limit) marker chars_per_token =
    let max_tokens = suc limit in
    let normalized = strip text in
    let max_chars = max_tokens * max 1 chars_per_token in
    let keep_chars = max 1 (max_chars - length marker - 1) in
    if leb (estimate_tokens normalized chars_per_token) max_tokens
    then normalized
    else if leb max_chars (length marker)
    then marker
    else strip (strip_right (take keep_chars normalized) ++ (b' ' ∷ marker))

abbrev dash_to_underscore : ℕ → ℕ
dash_to_underscore c = if c == b'-' then b'_' else c

unfoldable pub wrap_untrusted_text : List ℕ → List ℕ → List ℕ
wrap_untrusted_text text tag =
    let safe_tag = map dash_to_underscore (map upper (strip tag)) in
    (b'<' ∷ safe_tag)
    ++ ((b'>' ∷ 10 ∷ strip text) ++ ((10 ∷ b'<' ∷ b'/' ∷ safe_tag) ++ (b'>' ∷ [])))
