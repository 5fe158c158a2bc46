-- ===== src/Prelude/Double.antt =====
-- The doubles of C, which the language gives and the models leave open.
use Prim.Native.Nat.{ℕ}
use mathlib.Core.Bool.{Bool}

pub record Double : Type 1 where
  pub F : Type 0
  pub of_nat : ℕ → F
  pub add : F → F → F
  pub sub : F → F → F
  pub mul : F → F → F
  pub neg : F → F
  pub div : F → F → F
  pub lt : F → F → Bool
  -- The conversion to a uint64_t.
  pub to_uint64 : F → ℕ
