-- ===== src/InputSafety/Tests.antt =====
-- Truncation on concrete texts, and the theorems at inputs that meet their hypotheses.
use horadus.InputSafety.{
  estimate_tokens, truncate_to_token_limit, default_truncation_marker, wrap_untrusted_text,
}
use horadus.InputSafety.Limits.{estimate_tokens_iff, truncate_overruns}
use horadus.Prelude.{
  List, arith, codes, is_space, length, max, refl, strip, upper, ℕ, ◌*◌, ◌<◌, ◌↔◌, ◌≡◌, ◌≤◌,
}

abbrev report : List ℕ
report = codes " troops moved to the border "

truncates :
    truncate_to_token_limit report 5 default_truncation_marker 4 ≡ codes "troops m [TRUNCATED]"
unfolding truncate_to_token_limit estimate_tokens strip is_space
truncates = refl

wraps : wrap_untrusted_text (codes " a ") (codes "raw-item") ≡ codes "<RAW_ITEM>\na\n</RAW_ITEM>"
unfolding wrap_untrusted_text strip is_space upper
wraps = refl

estimate_tokens_iff_example : (estimate_tokens report 4 ≤ 7) ↔ (length report ≤ 7 * max 1 4)
estimate_tokens_iff_example = estimate_tokens_iff report 7 4

-- A limit of three tokens of four characters.
truncate_overruns_example :
    (let cut = truncate_to_token_limit report 3 default_truncation_marker 4 in
      (cut ≡ codes "t [TRUNCATED]") × (3 < estimate_tokens cut 4))
unfolding strip is_space estimate_tokens
truncate_overruns_example =
    truncate_overruns report (codes "roops moved to the border") b't' 2 4 refl refl refl
      (omega arith)
