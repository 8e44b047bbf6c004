-- ===== src/Util/Types.antt =====
-- The value types of bees/beeUtil.h and their widths.
use hive_rk.Prelude.{ℕ}

-- A type code with the width that its case of the switches has, in bits.
pub data HasWidth : ℕ → ℕ → Type 0 where
  is_i32 : HasWidth 32 0x4920
  is_u32 : HasWidth 32 0x5520
  is_i16 : HasWidth 16 0x4910
  is_u16 : HasWidth 16 0x5510
  is_i8 : HasWidth 8 0x4908
  is_u8 : HasWidth 8 0x5508
