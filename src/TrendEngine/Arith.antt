-- ===== src/TrendEngine/Arith.antt =====
-- The arithmetic of src/core/trend_engine.py, a parameter of its model: the operations on floats, and
-- the laws that theorems ask of them where they speak of exact or of ordered numbers.
use horadus.Prelude.{Bool, Bool-cases, Option, false, if◌then◌else◌, inl, inr, true, ℕ, ◌+◌, ◌≡◌}

pub record Reals (R : Type 0) : Type 0 where
  -- `a < b`
  pub lt : R → R → Bool
  pub add : R → R → R
  pub sub : R → R → R
  pub mul : R → R → R
  pub div : R → R → R
  pub neg : R → R
  pub sqrt : R → R
  pub log : R → R
  -- `math.exp`, whose OverflowError is `none`
  pub exp : R → Option R
  -- `math.pow(0.5, a)`
  pub half_power : R → R
  -- `a / b` of integers
  pub ratio : ℕ → ℕ → R
  -- the literal with so many thousandths: 0.001 is `thousandths 1`
  pub thousandths : ℕ → R

module _ {R : Type 0} (ops : Reals R) where
  -- Python's `max(a, b)` and `min(a, b)`
  abbrev pub max_r : R → R → R
  max_r a b = if ops.lt a b then b else a

  abbrev pub min_r : R → R → R
  min_r a b = if ops.lt b a then b else a

  abbrev pub clamp_r : R → R → R → R
  clamp_r low high a = max_r low (min_r high a)

  -- the part of a deviation that is left after so many microseconds, of half-lives in days
  abbrev pub decay_factor : ℕ → ℕ → R
  decay_factor half_life_days elapsed =
      ops.half_power (ops.div (ops.ratio elapsed 86400000000) (ops.ratio half_life_days 1))

  -- What holds of exact arithmetic; sums of rounded floats keep to it up to their rounding.
  pub record IsExact : Type 0 where
    pub add-sub : (a b : R) → ops.add a (ops.sub b a) ≡ b
    pub sub-add : (a b : R) → ops.sub (ops.add a b) a ≡ b
    pub add_assoc : (a b c : R) → ops.add (ops.add a b) c ≡ ops.add a (ops.add b c)
    pub mul-decay_factor :
        (h s t : ℕ) (a : R)
        → ops.mul (ops.mul a (decay_factor h s)) (decay_factor h t)
          ≡ ops.mul a (decay_factor h (s + t))

  -- A strict linear order, which floats without a NaN have.
  pub record IsOrdered : Type 0 where
    pub lt_irrefl : (a : R) → ops.lt a a ≡ false
    pub lt_asym : (a b : R) → ops.lt a b ≡ true → ops.lt b a ≡ false
    pub lt_trans : (a b c : R) → ops.lt b a ≡ false → ops.lt c b ≡ false → ops.lt c a ≡ false

  -- `a <= b`
  abbrev pub Le : R → R → Type 0
  Le a b = ops.lt b a ≡ false

  abbrev pub Within : R → R → R → Type 0
  Within low high a = Le low a × Le a high

  pub max_r-Le : (a b : R) → IsOrdered → Le a (max_r a b)
  max_r-Le a b ordered = elim (Bool-cases (ops.lt a b)) [
    | inl e ↦ rw e (ordered.lt_asym a b e)
    | inr e ↦ rw e (ordered.lt_irrefl a)
  ]

  min_r-Le : (a b : R) → IsOrdered → Le (min_r a b) a
  min_r-Le a b ordered = elim (Bool-cases (ops.lt b a)) [
    | inl e ↦ rw e (ordered.lt_asym b a e)
    | inr e ↦ rw e (ordered.lt_irrefl a)
  ]

  pub clamp_r-Within :
      (low high a : R) → IsOrdered → Le low high → Within low high (clamp_r low high a)
  clamp_r-Within low high a ordered h = elim (Bool-cases (ops.lt low (min_r high a))) [
    | inl e ↦ (max_r-Le low (min_r high a) ordered, rw e (min_r-Le high a ordered))
    | inr e ↦ (max_r-Le low (min_r high a) ordered, rw e h)
  ]
