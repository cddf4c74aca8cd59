-- ===== src/Double.antt =====
-- C's `double`, which the language leaves to the hardware: a value is its 64-bit pattern, and the
-- operations are a parameter of the code that uses them.
use aggregator.Base.{ℕ, Bool, Option, ℤ}

pub record Double : Type 0 where
  pub lt : ℕ → ℕ → Bool
  pub add : ℕ → ℕ → ℕ
  pub sub : ℕ → ℕ → ℕ
  pub mul : ℕ → ℕ → ℕ
  pub div : ℕ → ℕ → ℕ
  -- the conversion of an unsigned integer
  pub of_ℕ : ℕ → ℕ
  -- `(int)x`, undefined (`none`) where the truncated value does not fit
  pub to_int : ℕ → Option ℤ
