-- ===== src/TrendEngine/Restatement/Replay.antt =====
-- Decay composes, and the replay of a ledger that has grown by one entry.
use horadus.TrendEngine.Arith.{Reals, IsExact, decay_factor}
use horadus.TrendEngine.{decay_log_odds}
use horadus.TrendEngine.Restatement.{TrendProjectionEntry, replay}
use horadus.Prelude.{
  Bool-cases, List, [], ap, arith, false, inl, inr, leb, refl, ℕ, ◌++◌, ◌+◌, ◌-◌, ◌∙◌, ◌∷◌, ◌≡◌,
  ◌≤◌,
}

module _ {R : Type 0} (ops : Reals R) (exact : IsExact ops) where
  pub decay-decay :
      (c b : R) (h r s t : ℕ)
      → r ≤ s
      → s ≤ t
      → decay_log_odds ops (decay_log_odds ops c b h r s) b h s t ≡ decay_log_odds ops c b h r t
  unfolding decay_log_odds
  decay-decay c b h r s t p q = elim (Bool-cases (leb s r)) [
    | inl e ↦ let s≡r : s ≡ r = ground arith in rw s≡r (ground arith)
    | inr e ↦ elim (Bool-cases (leb t s)) [
      | inl f ↦ let t≡s : t ≡ s = ground arith in rw t≡s (ground arith)
      | inr f ↦
          let g : leb t r ≡ false = ground arith in
          let sum : (s - r) + (t - s) ≡ t - r = omega arith in
          rw (e, f, g)
            (ap (ops.add b) (
              ap (λ d. ops.mul d (decay_factor ops h (t - s))) (exact.sub-add b _)
              ∙ exact.mul-decay_factor h (s - r) (t - s) (ops.sub c b)
              ∙ ap (λ n. ops.mul (ops.sub c b) (decay_factor ops h n)) sum))
    ]
  ]

  pub decay_now : (c b : R) (h t : ℕ) → decay_log_odds ops c b h t t ≡ c
  unfolding decay_log_odds
  decay_now c b h t = ground arith

module _ {R : Type 0} (ops : Reals R) where
  pub replay-append :
      (b : R) (h : ℕ) (c : R) (s : ℕ) (es : List (TrendProjectionEntry R))
      (e : TrendProjectionEntry R)
      → replay ops b h c s (es ++ (e ∷ [])) ≡ (
          let reached = replay ops b h c s es in
          (
            ops.add (decay_log_odds ops reached.0 b h reached.1 e.recorded_at) e.delta_log_odds,
            e.recorded_at,
          ))
  unfolding replay
  replay-append b h c s [] e = refl
  replay-append b h c s (x ∷ es) e =
      replay-append b h (ops.add (decay_log_odds ops c b h s x.recorded_at) x.delta_log_odds)
        x.recorded_at es e
