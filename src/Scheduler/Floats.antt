-- ===== src/Scheduler/Floats.antt =====
-- The arithmetic on floats that the scheduler uses, a parameter of its model.
use horadus.Prelude.{ℕ, Bool}

pub record Floats (F : Type 0) : Type 0 where
  -- `a < b`, `a <= b`, `a == b`
  pub lt : F → F → Bool
  pub le : F → F → Bool
  pub eq : F → F → Bool
  pub add : F → F → F
  pub sub : F → F → F
  pub mul : F → F → F
  -- `a / b` of floats, and of integers
  pub div : F → F → F
  pub ratio : ℕ → ℕ → F
  pub neg : F → F
  -- `round(a, 6)`
  pub round : F → F
  -- the literal with so many hundredths: 0.55 is `hundredths 55`
  pub hundredths : ℕ → F
