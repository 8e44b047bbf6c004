-- ===== src/Console/Tests.antt =====
-- The theorems on the text output of bees/interrupt/basicInterrupts.h at concrete inputs.
use hive_rk.Prelude.{ℕ, ◌^◌, ◌≡◌, refl, List, [], ◌∷◌, some}
use hive_rk.Util.{copied, copy_back, signed_temp}
use hive_rk.Console.{digits, number_to_string}
use hive_rk.Console.{int_to_string, int_to_hex_string}

-- Of the smallest `int` both write a minus sign and no digit.
smallest_int :
    (int_to_string (2 ^ 31) ≡ some (b'-' ∷ 0 ∷ []))
    × (int_to_hex_string (2 ^ 31) ≡ some (b'-' ∷ 0 ∷ []))
unfolding int_to_string int_to_hex_string number_to_string digits copied signed_temp copy_back
smallest_int = (refl, refl)

abbrev hi : List ℕ
hi = b'H' ∷ b'i' ∷ []
