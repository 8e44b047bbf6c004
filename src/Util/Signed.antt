-- ===== src/Util/Signed.antt =====
-- Decimal text of the signed types in bees/util/util.c.
use hive_rk.Prelude.{ℕ, ◌-◌, ◌%◌, ◌^◌, ◌≤◌, ◌<◌, ◌≡◌, refl, ◌∙◌, ap}
use hive_rk.Prelude.{List, [], ◌∷◌, ◌++◌, arith, Option, some, length, All}
use hive_rk.Prelude.{◌==◌, if◌then◌else◌, Bool-cases, inl, inr, append-nil, bit_and}
use hive_rk.Prelude.{==_ne, true, false, ltb}
use hive_rk.Prelude.Bits.{bit_and-ones}
use hive_rk.Prelude.Int.{ℤ, pos, neg, signed}
use hive_rk.Util.{peel, copy_back, copied, rounds, decimal, negative, bump_last, bumped}
use hive_rk.Util.{
  signed_temp, print_signed, num_to_str_signed, num_to_str_unsigned, num_to_str, widen,
}
use hive_rk.Util.{i32_type, u32_type, i16_type, u16_type, i8_type, u8_type}
use hive_rk.Util.Digits.{
  val_decimal-decimal, vals_of_digits, not_empty_of_pos, IsNumeral, digits_no_nul, value, IsDigit,
  Peeled, peel-Peeled, val_decimal, copy_back_lem,
}
use hive_rk.Util.Digits.{num_to_str_unsigned-Prints, Prints}

-- What a signed decimal text stands for.
abbrev pub read_signed : List ℕ → ℤ
read_signed [] = pos 0
read_signed (c ∷ cs) =
    if c == b'-' then neg (value 10 val_decimal 0 cs) else pos (value 10 val_decimal 0 (c ∷ cs))

-- The text behind a minus sign, if there is one.
abbrev pub unsigned : List ℕ → List ℕ
unsigned [] = []
unsigned (c ∷ cs) = if c == b'-' then cs else c ∷ cs

-- The bytes written to a buffer are a decimal numeral of at least one digit, behind a minus sign or
-- not, that stands for `n`, of at most 11 bytes, and the terminator, which is not a byte of the text.
pub record PrintsSigned (n : ℤ) (out : Option (List ℕ)) : Type 0 where
  pub text : List ℕ
  pub writes : out ≡ some (text ++ 0 ∷ [])
  pub reads : read_signed text ≡ n
  pub numeral : IsNumeral 10 val_decimal (unsigned text)
  pub short : length text ≤ 11
  pub no_nul : All (λ c. 1 ≤ c) text

read_signed_pos :
    (ds : List ℕ) → All (IsDigit 10 decimal) ds → read_signed ds ≡ pos (value 10 val_decimal 0 ds)
read_signed_pos [] h = refl
read_signed_pos (c ∷ cs) ((d, lt, e), h) = rw (==_ne c b'-' (omega arith))

unsigned_digits : (ds : List ℕ) → All (IsDigit 10 decimal) ds → unsigned ds ≡ ds
unsigned_digits [] h = refl
unsigned_digits (c ∷ cs) ((d, lt, e), h) = rw (==_ne c b'-' (omega arith))

bump_last_zero : (xs : List ℕ) → All (λ c. c < 256) xs → bump_last 0 xs ≡ xs
unfolding bump_last
bump_last_zero [] h = refl
bump_last_zero (c ∷ []) h = refl
bump_last_zero (c ∷ t ∷ []) h = ap (λ n. n ∷ t ∷ []) (omega arith)
bump_last_zero (c ∷ d ∷ t ∷ cs) h = ap (λ l. c ∷ l) (bump_last_zero (d ∷ t ∷ cs) h.1)

bytes_of_digits : (ds : List ℕ) → All (IsDigit 10 decimal) ds → All (λ c. c < 256) (ds ++ 0 ∷ [])
bytes_of_digits [] h = (omega arith, tt)
bytes_of_digits (c ∷ cs) ((d, lt, e), h) = (omega arith, bytes_of_digits cs h)

-- The printing loop without the correction of the last digit.
module _ (num : ℕ) (lt : num < 2 ^ 32) where
  digits_of : Peeled 10 decimal val_decimal num [] (peel 10 decimal rounds num [])
  digits_of = peel-Peeled 10 decimal val_decimal (omega arith) val_decimal-decimal rounds num [] lt

  IsNumeral-digits_of : 1 ≤ num → IsNumeral 10 val_decimal digits_of.ds
  IsNumeral-digits_of one = (
    not_empty_of_pos 10 val_decimal num digits_of.ds one digits_of.reads,
    vals_of_digits 10 decimal val_decimal digits_of.ds val_decimal-decimal digits_of.digits,
  )

  print_plain : 1 ≤ num → PrintsSigned (pos num) (print_signed false 0 num)
  unfolding print_signed bumped copied signed_temp
  print_plain one =
      let p = digits_of in
      let e : p.ds ++ [] ≡ p.ds = append-nil p.ds in
      let w : copy_back (p.ds ++ []) ≡ p.ds ++ 0 ∷ [] = copy_back_lem (p.ds ++ []) ∙ rw e in
      record {
        text = p.ds;
        writes = rw (p.runs, w, bump_last_zero (p.ds ++ 0 ∷ []) (bytes_of_digits p.ds p.digits));
        reads = read_signed_pos p.ds p.digits ∙ ap pos p.reads;
        numeral = rw (unsigned_digits p.ds p.digits) (IsNumeral-digits_of one);
        short = omega (arith, p.fits 10 (omega arith));
        no_nul = digits_no_nul 10 decimal p.ds (λ d h. omega arith) p.digits;
      }

  print_minus : 1 ≤ num → PrintsSigned (neg num) (print_signed true 0 num)
  unfolding print_signed bumped copied signed_temp
  print_minus one =
      let p = digits_of in
      let e : p.ds ++ [] ≡ p.ds = append-nil p.ds in
      let w : copy_back (b'-' ∷ p.ds ++ []) ≡ b'-' ∷ p.ds ++ 0 ∷ [] =
        copy_back_lem (b'-' ∷ p.ds ++ []) ∙ rw e in
      record {
        text = b'-' ∷ p.ds;
        writes = rw (
          p.runs,
          w,
          bump_last_zero (b'-' ∷ p.ds ++ 0 ∷ []) (omega arith, bytes_of_digits p.ds p.digits),
        );
        reads = ap neg p.reads;
        numeral = IsNumeral-digits_of one;
        short = omega (arith, p.fits 10 (omega arith));
        no_nul = (omega arith, digits_no_nul 10 decimal p.ds (λ d h. omega arith) p.digits);
      }

-- `INT_MIN`, whose negation does not fit: its digits are those of `INT_MAX`, the last one more.
smallest : PrintsSigned (neg (2 ^ 31)) (print_signed true 1 2147483647)
unfolding print_signed bumped copied copy_back signed_temp peel bump_last
smallest = record {
  text = b'-' ∷ b'2' ∷ b'1' ∷ b'4' ∷ b'7' ∷ b'4' ∷ b'8' ∷ b'3' ∷ b'6' ∷ b'4' ∷ b'8' ∷ [];
  writes = refl;
  reads = refl;
  numeral = omega arith;
  short = omega arith;
  no_nul = omega arith;
}

module _ (n : ℕ) (lt : n < 2 ^ 32) where
  num_to_str_signed_lem :
      (PrintsSigned (signed 32 n) (num_to_str_signed n 2147483648 2147483647 0xFFFFFFFF))
  unfolding num_to_str_signed
  num_to_str_signed_lem =
      let mask : bit_and n 0xFFFFFFFF ≡ n = omega (arith, bit_and-ones 32 n) in
      rw mask (elim (Bool-cases (n == 0)) [
        | inl z ↦
            let e : n ≡ 0 = ground arith in
            rw e (record {
              text = b'0' ∷ [];
              writes = refl;
              reads = refl;
              numeral = omega arith;
              short = omega arith;
              no_nul = omega arith;
            })
        | inr nz ↦ rw nz (elim (Bool-cases (n == 2147483648)) [
          | inl m ↦ let e : n ≡ 2147483648 = ground arith in rw e smallest
          | inr nm ↦ rw nm (elim (Bool-cases (negative n)) [
            | inl s ↦
                let l : ltb n (2 ^ 31) ≡ false = ground arith in
                let q : (2 ^ 32 - n) % 2 ^ 32 ≡ 2 ^ 32 - n = ground arith in
                rw (s, l, q) (print_minus (2 ^ 32 - n) (ground arith) (ground arith))
            | inr p ↦
                let l : ltb n (2 ^ 31) ≡ true = ground arith in
                rw (p, l) (print_plain n lt (ground arith))
          ])
        ])
      ])

-- `num_to_str` of any int32_t, the smallest included, ends and writes decimal text that stands for
-- the number, of at most 11 bytes, with the terminator behind it.
pub num_to_str-PrintsSigned :
    (n : ℕ) → n < 2 ^ 32 → PrintsSigned (signed 32 n) (num_to_str i32_type n)
unfolding num_to_str
num_to_str-PrintsSigned n lt = num_to_str_signed_lem n lt

-- `num_to_str` at the three unsigned types ends and writes the decimal digits of the number cut to
-- the type's width, at most 10, 5 and 3 of them, with the terminator behind them.
pub num_to_str_unsigned_types :
    (n : ℕ)
    → n < 2 ^ 32
    → Prints 10 decimal val_decimal n 10 (num_to_str u32_type n)
      × Prints 10 decimal val_decimal (n % 2 ^ 16) 5 (num_to_str u16_type n)
      × Prints 10 decimal val_decimal (n % 2 ^ 8) 3 (num_to_str u8_type n)
unfolding num_to_str
num_to_str_unsigned_types n lt = (
  num_to_str_unsigned-Prints 10 n lt (omega arith),
  num_to_str_unsigned-Prints 5 (n % 2 ^ 16) (omega arith) (omega arith),
  num_to_str_unsigned-Prints 3 (n % 2 ^ 8) (omega arith) (omega arith),
)

print_signed_plain :
    (num : ℕ) → num < 2 ^ 32 → print_signed false 0 num ≡ copied (peel 10 decimal rounds num [])
unfolding print_signed bumped copied signed_temp
print_signed_plain num lt =
    let p = digits_of num lt in
    let e : p.ds ++ [] ≡ p.ds = append-nil p.ds in
    let w : copy_back (p.ds ++ []) ≡ p.ds ++ 0 ∷ [] = copy_back_lem (p.ds ++ []) ∙ rw e in
    rw (p.runs, w, bump_last_zero (p.ds ++ 0 ∷ []) (bytes_of_digits p.ds p.digits))

-- Where the mask leaves a number below 2 ^ 31 that is not `min`, the signed routine is the unsigned.
signed_as_unsigned :
    (num0 num min max size : ℕ)
    → bit_and num0 size ≡ num
    → num < 2 ^ 31
    → num < min
    → num_to_str_signed num0 min max size ≡ num_to_str_unsigned num
unfolding num_to_str_signed num_to_str_unsigned
signed_as_unsigned num0 num min max size e lt ne =
    let m : (num == min) ≡ false = ground arith in
    let s : negative num ≡ false = ground arith in
    rw (e, m, s, print_signed_plain num (omega arith))

-- `num_to_str` writes an int16_t and an int8_t as it writes the unsigned number with the same bits:
-- it never writes a minus sign at these types.
pub num_to_str_narrow_signed :
    (n : ℕ)
    → n < 2 ^ 32
    → (num_to_str i16_type n ≡ num_to_str u16_type n)
      × (num_to_str i8_type n ≡ num_to_str u8_type n)
unfolding num_to_str
num_to_str_narrow_signed n lt = (
  signed_as_unsigned (widen 16 n) (n % 2 ^ 16) (2 ^ 32 - 32768) 32767 0x0000FFFF
      (bit_and-ones 16 (widen 16 n) ∙ ground arith) (omega arith) (omega arith),
  signed_as_unsigned (widen 8 n) (n % 2 ^ 8) (2 ^ 32 - 128) 127 0x000000FF
      (bit_and-ones 8 (widen 8 n) ∙ ground arith) (omega arith) (omega arith),
)
