-- ===== src/Prelude/Int.antt =====
-- Signed integers over the native numbers, for the values that C's signed types stand for.
use Prim.Native.Nat.{ℕ, zero, suc, ◌-◌, ◌^◌}
use hive_rk.Prelude.Tests.{ltb, if◌then◌else◌}

-- `negsuc n` is -(n + 1).
pub data ℤ : Type 0 where
  pos : ℕ → ℤ
  negsuc : ℕ → ℤ

abbrev pub neg : ℕ → ℤ
neg zero = pos zero
neg (suc n) = negsuc n

-- The integer that a bit pattern of `w` bits stands for.
abbrev pub signed : ℕ → ℕ → ℤ
signed w n = if ltb n (2 ^ (w - 1)) then pos n else neg (2 ^ w - n)
