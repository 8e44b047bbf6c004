-- ===== src/Util/Tests.antt =====
-- Runs of bees/util/util.c, and its theorems at concrete inputs.
use hive_rk.Prelude.{◌-◌, ◌*◌, ◌%◌, ◌^◌, ◌≡◌, refl, [], ◌∷◌, arith, some}
use hive_rk.Prelude.Int.{signed}
use hive_rk.Util.{Bytes, peel, copy_back, copied, bump_last, bumped}
use hive_rk.Util.{signed_temp, print_signed, num_to_str_signed, num_to_str, pad_to, padded, limit}
use hive_rk.Util.{hex_width, num_to_hex, num_to_bin}
use hive_rk.Util.{i32_type, u32_type, i16_type, u16_type, i8_type, u8_type, pow}
use hive_rk.Util.Types.{is_i32, is_u16, is_u32}
use hive_rk.Util.Digits.{val_decimal}
use hive_rk.Util.Signed.{PrintsSigned, num_to_str-PrintsSigned}
use hive_rk.Util.Signed.{num_to_str_narrow_signed}
use hive_rk.Util.Hex.{PrintsFixed, val_hex, num_to_hex-PrintsFixed, num_to_bin-PrintsFixed}
use hive_rk.Util.Power.{pow_doubles}

-- -12 as an int32_t
minus_twelve : num_to_str i32_type (2 ^ 32 - 12) ≡ some (b'-' ∷ b'1' ∷ b'2' ∷ 0 ∷ [])
unfolding num_to_str num_to_str_signed print_signed bumped copied copy_back signed_temp peel
    bump_last
minus_twelve = refl

-- -12 as an int16_t
narrow_minus_twelve :
    num_to_str i16_type (2 ^ 32 - 12) ≡ some (b'6' ∷ b'5' ∷ b'5' ∷ b'2' ∷ b'4' ∷ 0 ∷ [])
unfolding num_to_str num_to_str_signed print_signed bumped copied copy_back signed_temp peel
    bump_last
narrow_minus_twelve = refl

hex_of_beef :
    num_to_hex u32_type 0xBEEF
    ≡ some (b'0' ∷ b'0' ∷ b'0' ∷ b'0' ∷ b'B' ∷ b'E' ∷ b'E' ∷ b'F' ∷ 0 ∷ [])
unfolding num_to_hex limit hex_width padded pad_to copied copy_back peel
hex_of_beef = refl

num_to_str-PrintsSigned_example :
    PrintsSigned (signed 32 4294967284) (num_to_str i32_type 4294967284)
num_to_str-PrintsSigned_example = num_to_str-PrintsSigned 4294967284 (omega arith)

num_to_str_narrow_signed_example :
    (num_to_str i16_type 4294967284 ≡ num_to_str u16_type 4294967284)
    × (num_to_str i8_type 4294967284 ≡ num_to_str u8_type 4294967284)
num_to_str_narrow_signed_example = num_to_str_narrow_signed 4294967284 (omega arith)

num_to_hex-PrintsFixed_example :
    PrintsFixed 16 val_hex (70000 % 2 ^ 16) 4 (num_to_hex u16_type 70000)
num_to_hex-PrintsFixed_example = num_to_hex-PrintsFixed 70000 is_u16 (omega arith) (omega arith)

num_to_bin-PrintsFixed_example :
    PrintsFixed 2 val_decimal (70000 % 2 ^ 32) 32 (num_to_bin 7 u32_type 70000)
num_to_bin-PrintsFixed_example = num_to_bin-PrintsFixed 7 70000 is_u32 (omega arith)

-- Memory in which each byte is the low byte of its address.
abbrev ramp : Bytes
ramp a = a % 256

-- 3 to the power 3 comes out as 12.
pow_doubles_example : pow i32_type 3 3 ≡ 3 * 2 ^ (3 - 1) % 2 ^ 32
pow_doubles_example = pow_doubles 3 3 is_i32 (omega arith) (omega arith) (omega arith)
