-- ===== src/Base/Int.antt =====
-- Signed integers over the native numbers: an `int` of the source that is compared and passed on.
use Prim.Native.Nat.{ℕ, suc, ◌+◌, ◌-◌}
use mathlib.Core.Bool.{Bool, true, false}
use net_drv_ts.Base.Tests.{◌==◌, leb, if◌then◌else◌}

-- `negsuc n` is -(n + 1).
pub data ℤ : Type 0 where
  pos : ℕ → ℤ
  negsuc : ℕ → ℤ

abbrev pub is_negative : ℤ → Bool
is_negative (pos n) = false
is_negative (negsuc n) = true

abbrev pub int_eq : ℤ → ℤ → Bool
int_eq (pos a) (pos b) = a == b
int_eq (pos _) (negsuc _) = false
int_eq (negsuc _) (pos _) = false
int_eq (negsuc a) (negsuc b) = a == b

abbrev pub pos_part : ℤ → ℕ
pos_part (pos n) = n
pos_part (negsuc n) = 0

abbrev pub neg_part : ℤ → ℕ
neg_part (pos n) = 0
neg_part (negsuc n) = suc n

abbrev pub int_sub : ℤ → ℤ → ℤ
int_sub a b =
    let up = pos_part a + neg_part b in
    let down = pos_part b + neg_part a in
    if leb down up then pos (up - down) else negsuc (down - up - 1)
