-- ===== src/RxPath/Doubles.antt =====
-- The `double` arithmetic of the Rx coalescing tests, which is the floating point unit's and not the
-- program's: a type with the operations that the code uses.
use net_drv_ts.Base.{ℕ, Bool, ℤ}

-- `of_int` converts an integer; `literal m n` is the constant m / 10^n.
pub record DoubleOps (D : Type 0) : Type 0 where
  pub of_int : ℤ → D
  pub literal : ℕ → ℕ → D
  pub add : D → D → D
  pub sub : D → D → D
  pub mul : D → D → D
  pub div : D → D → D
  pub sqrt : D → D
  pub fabs : D → D
  pub gt : D → D → Bool
