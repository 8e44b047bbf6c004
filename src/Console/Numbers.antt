-- ===== src/Console/Numbers.antt =====
-- The numbers that `SYSprintI` and `SYSprintX` print.
use hive_rk.Prelude.{ℕ, ◌-◌, ◌^◌, ◌≤◌, ◌<◌, ◌≡◌, ◌≢◌, refl, ◌∙◌, sym}
use hive_rk.Prelude.{List, [], ◌∷◌, ◌++◌, arith, Option, some, length, All, ◌==◌}
use hive_rk.Prelude.{if◌then◌else◌, Bool, true, false, Bool-cases, inl, inr, append-nil}
use hive_rk.Util.{peel, copied, copy_back, rounds, decimal, negative, negate, signed_temp}
use hive_rk.Util.Digits.{
  value, IsDigit, peel-Peeled, val_decimal, val_decimal-decimal, copy_back_lem, IsNumeral,
  vals_of_digits, digits_no_nul,
}
use hive_rk.Console.{before_nul}
use hive_rk.Util.Hex.{val_hex}
use hive_rk.Console.{letter_digit, digits, number_to_string, int_to_string, int_to_hex_string}

-- The distance of an `int` from 0.
abbrev pub magnitude : ℕ → ℕ
magnitude n = if negative n then 2 ^ 32 - n else n

-- The text: the sign, digits of the magnitude, the terminator.
pub record PrintsInt (base : ℕ) (digit val : ℕ → ℕ) (n : ℕ) (out : Option (List ℕ)) : Type 0 where
  pub ds : List ℕ
  pub writes : out ≡ some (if negative n then b'-' ∷ ds ++ 0 ∷ [] else ds ++ 0 ∷ [])
  pub reads : value base val 0 ds ≡ magnitude n
  pub digits : All (IsDigit base digit) ds
  pub short : length ds ≤ 10
  pub not_empty : 1 ≤ length ds

module _ (base : ℕ) (digit val : ℕ → ℕ) (two_le : 2 ≤ base)
    (back : (d : ℕ) → d < base → val (digit d) ≡ d) (zero_digit : digit 0 ≡ b'0')
    (wide : 2 ^ 31 < base ^ 10) where
  some_digits : (ds : List ℕ) → 1 ≤ value base val 0 ds → 1 ≤ length ds
  some_digits [] h = absurd (omega arith)
  some_digits (c ∷ ds) h = omega arith

  digits_written :
      (sign : Bool) (n : ℕ) (ds : List ℕ)
      → n < 2 ^ 31
      → peel base digit rounds n [] ≡ some (ds ++ [])
      → copied (signed_temp sign (digits base digit n))
        ≡ some (if sign then b'-' ∷ ds ++ 0 ∷ [] else ds ++ 0 ∷ [])
  unfolding copied signed_temp digits
  digits_written true n ds lt e =
      let s : negative n ≡ false = ground arith in
      let w : copy_back (b'-' ∷ ds ++ []) ≡ b'-' ∷ ds ++ 0 ∷ [] =
        copy_back_lem (b'-' ∷ ds ++ []) ∙ rw (append-nil ds) in
      rw (s, e, w)
  digits_written false n ds lt e =
      let s : negative n ≡ false = ground arith in
      let w : copy_back (ds ++ []) ≡ ds ++ 0 ∷ [] = copy_back_lem (ds ++ []) ∙ rw (append-nil ds) in
      rw (s, e, w)

  printed :
      (num n : ℕ)
      → n ≡ magnitude num
      → 1 ≤ n
      → n < 2 ^ 31
      → PrintsInt base digit val num (copied (signed_temp (negative num) (digits base digit n)))
  printed num n e pos lt =
      let p = peel-Peeled base digit val two_le back rounds n [] (omega arith) in
      record {
        ds = p.ds;
        writes = digits_written (negative num) n p.ds lt p.runs;
        reads = p.reads ∙ e;
        digits = p.digits;
        short = p.fits 10 (omega (arith, wide));
        not_empty = some_digits p.ds (omega (arith, p.reads));
      }

  zero_value : value base val 0 (b'0' ∷ []) ≡ 0
  zero_value = let e : val b'0' ≡ 0 = rw (← zero_digit) (back 0 (omega arith)) in rw e (omega arith)

  number_lem :
      (num : ℕ)
      → num < 2 ^ 32
      → num ≢ 2 ^ 31
      → PrintsInt base digit val num (number_to_string base digit num)
  unfolding number_to_string
  number_lem num lt ne = elim (Bool-cases (num == 0)) [
    | inl z ↦
        let e : num ≡ 0 = ground arith in
        rw e (record {
          ds = b'0' ∷ [];
          writes = refl;
          reads = zero_value;
          digits = ((0, omega arith, sym zero_digit), tt);
          short = omega arith;
          not_empty = omega arith;
        })
    | inr nz ↦ rw nz (
        printed num (if negative num then negate num else num) (ground arith) (ground arith)
          (ground arith))
  ]

-- `int_to_string` of an `int` other than the smallest ends and writes a minus sign if it is negative
-- and decimal digits that read back as its magnitude, at most 10, and the terminator.
pub int_to_string-PrintsInt :
    (num : ℕ)
    → num < 2 ^ 32
    → num ≢ 2 ^ 31
    → PrintsInt 10 decimal val_decimal num (int_to_string num)
unfolding int_to_string
int_to_string-PrintsInt =
    number_lem 10 decimal val_decimal (omega arith) val_decimal-decimal refl (omega arith)

val_hex-letter_digit : (d : ℕ) → d < 16 → val_hex (letter_digit d) ≡ d
val_hex-letter_digit d lt = ground arith

-- `int_to_hex_string` of an `int` other than the smallest ends and writes a minus sign if it is
-- negative and hexadecimal digits that read back as its magnitude, and the terminator.
pub int_to_hex_string-PrintsInt :
    (num : ℕ)
    → num < 2 ^ 32
    → num ≢ 2 ^ 31
    → PrintsInt 16 letter_digit val_hex num (int_to_hex_string num)
unfolding int_to_hex_string
int_to_hex_string-PrintsInt =
    number_lem 16 letter_digit val_hex (omega arith) val_hex-letter_digit refl (omega arith)

before_nul_text : (ds : List ℕ) → All (λ c. 1 ≤ c) ds → before_nul (ds ++ 0 ∷ []) ≡ ds
unfolding before_nul
before_nul_text [] h = refl
before_nul_text (c ∷ ds) h =
    let t : (c == 0) ≡ false = ground (arith, h.0) in rw (t, before_nul_text ds h.1) refl

-- What is printed of a number that is not negative: a decimal numeral.
abbrev pub Printed : ℕ → Type 0
Printed n =
    (text : List ℕ) × (ds : List ℕ) × (int_to_string n ≡ some text)
    × (before_nul text ≡ ds)
    × (value 10 val_decimal 0 ds ≡ n)
    × IsNumeral 10 val_decimal ds

pub int_to_string-Printed : (n : ℕ) → n < 2 ^ 31 → Printed n
int_to_string-Printed n lt =
    let p = int_to_string-PrintsInt n (omega arith) (omega arith) in
    let s : negative n ≡ false = ground arith in
    (
      p.ds ++ 0 ∷ [],
      p.ds,
      rw s at p.writes,
      before_nul_text p.ds (digits_no_nul 10 decimal p.ds (λ d h. omega arith) p.digits),
      rw s at p.reads,
      (p.not_empty, vals_of_digits 10 decimal val_decimal p.ds val_decimal-decimal p.digits),
    )
