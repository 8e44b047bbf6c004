-- ===== src/Util/Hex.antt =====
-- Hexadecimal and binary text of bees/util/util.c.
use hive_rk.Prelude.{ℕ, zero, suc, ◌+◌, ◌-◌, ◌*◌, ◌/◌, ◌%◌, ◌^◌, ◌≤◌, ◌<◌, ◌≡◌, refl, ◌∙◌, ap, sym}
use hive_rk.Prelude.{List, [], ◌∷◌, ◌++◌, arith, Option, some, length, length-append, All}
use hive_rk.Prelude.{◌==◌, if◌then◌else◌, Bool-cases, inl, inr, append-nil}
use hive_rk.Prelude.{==_ne, ltb, replicate, length-replicate, All-append}
use hive_rk.Prelude.{All-replicate, ◌≢◌, leb, ◌&&◌}
use hive_rk.Prelude.Bits.{bit_and-ones}
use hive_rk.Prelude.Tables.{agree_below, agree_below→eq}
use hive_rk.Util.{peel, copied, rounds, decimal, hex, hex_width, limit, pad_to, padded}
use hive_rk.Util.{num_to_hex, num_to_bin, bitness}
use hive_rk.Util.{u32_type}
use hive_rk.Util.Digits.{value, peel-Peeled, val_decimal, val_decimal-decimal, vals_of_digits}
use hive_rk.Util.Digits.{copy_back_lem}
use hive_rk.Util.Types.{HasWidth, is_i32, is_u32, is_i16, is_u16, is_i8, is_u8}

-- The value of a hexadecimal digit in upper case; 16, which is none, for any other character.
abbrev pub val_hex : ℕ → ℕ
val_hex c =
    if leb b'0' c && leb c b'9'
    then c - b'0'
    else (if leb b'A' c && leb c b'F' then c + 10 - b'A' else 16)

val_hex-hex : (d : ℕ) → d < 16 → val_hex (hex d) ≡ d
unfolding agree_below
val_hex-hex = agree_below→eq (λ d. val_hex (hex d)) (λ d. d) 16 refl

-- The bytes written are exactly `width` digits of the base that read back as `num`, and the terminator.
pub record PrintsFixed (base : ℕ) (val : ℕ → ℕ) (num width : ℕ) (out : Option (List ℕ))
    : Type 0 where
  pub text : List ℕ
  pub writes : out ≡ some (text ++ 0 ∷ [])
  pub reads : value base val 0 text ≡ num
  pub digits : All (λ c. val c < base) text
  pub exact : length text ≡ width

replicate_snoc : (n a : ℕ) (xs : List ℕ) → a ∷ replicate n a ++ xs ≡ replicate n a ++ a ∷ xs
replicate_snoc zero a xs = refl
replicate_snoc (suc n) a xs = ap (λ l. a ∷ l) (replicate_snoc n a xs)

pad_to_lem :
    (fuel width : ℕ) (temp : List ℕ)
    → length temp ≤ width
    → width ≤ length temp + fuel
    → pad_to fuel width temp ≡ replicate (width - length temp) b'0' ++ temp
unfolding pad_to
pad_to_lem zero width temp lo hi = rw e
  where
    e : width - length temp ≡ 0
    e = omega arith
pad_to_lem (suc fuel) width temp lo hi = elim (Bool-cases (ltb (length temp) width)) [
  | inl lt ↦
      let e : width - length temp ≡ suc (width - suc (length temp)) = ground arith in
      rw (lt, e)
        (pad_to_lem fuel width (b'0' ∷ temp) (ground arith) (ground arith)
          ∙ sym (replicate_snoc (width - suc (length temp)) b'0' temp))
  | inr ge ↦ let e : width - length temp ≡ 0 = ground arith in rw (ge, e)
]

value-zeros :
    (base : ℕ) (val : ℕ → ℕ) (n : ℕ) (ds : List ℕ)
    → val b'0' ≡ 0
    → value base val 0 (replicate n b'0' ++ ds) ≡ value base val 0 ds
value-zeros base val zero ds z = refl
value-zeros base val (suc n) ds z =
    let e : 0 * base + val b'0' ≡ 0 = omega arith in
    ap (λ (a : ℕ). value base val a (replicate n b'0' ++ ds)) e ∙ value-zeros base val n ds z

module _ (base : ℕ) (digit val : ℕ → ℕ) (two_le : 2 ≤ base)
    (back : (d : ℕ) → d < base → val (digit d) ≡ d) (zero_digit : digit 0 ≡ b'0') where
  pub fixed_lem :
      (num width : ℕ)
      → num < 2 ^ 32
      → num < base ^ width
      → PrintsFixed base val num width (copied (padded width (peel base digit rounds num [])))
  unfolding copied padded
  fixed_lem num width lt fits =
      let p = peel-Peeled base digit val two_le back rounds num [] lt in
      let e : p.ds ++ [] ≡ p.ds = append-nil p.ds in
      let n : ℕ = width - length p.ds in
      let zeros = pad_to_lem width width p.ds (p.fits width fits) (omega arith) in
      record {
        text = replicate n b'0' ++ p.ds;
        writes = rw (p.runs, e, zeros, copy_back_lem);
        reads = value-zeros base val n p.ds (rw (← zero_digit) (back 0 (omega arith))) ∙ p.reads;
        digits =
            let z : val b'0' ≡ 0 = rw (← zero_digit) (back 0 (omega arith)) in
            All-append (λ c. val c < base) (replicate n b'0') p.ds
              (All-replicate (λ c. val c < base) n b'0' (omega arith))
              (vals_of_digits base digit val p.ds back p.digits);
        exact = omega (
          arith,
          length-append (replicate n b'0') p.ds,
          length-replicate {A = ℕ} n b'0',
          p.fits width fits,
        );
      }

-- The cases of a switch, at the codes of `HasWidth`.
limit_lem : {w type : ℕ} (num : ℕ) → HasWidth w type → num < 2 ^ 32 → limit type num ≡ num % 2 ^ w
unfolding limit
limit_lem num is_i32 lt = omega arith
limit_lem num is_u32 lt = omega arith
limit_lem num is_i16 lt = bit_and-ones 16 num
limit_lem num is_u16 lt = bit_and-ones 16 num
limit_lem num is_i8 lt = bit_and-ones 8 num
limit_lem num is_u8 lt = bit_and-ones 8 num

hex_width_lem : {w type : ℕ} → HasWidth w type → hex_width type ≡ w / 4
unfolding hex_width
hex_width_lem is_i32 = refl
hex_width_lem is_u32 = refl
hex_width_lem is_i16 = refl
hex_width_lem is_u16 = refl
hex_width_lem is_i8 = refl
hex_width_lem is_u8 = refl

bitness_lem : {w type : ℕ} (junk : ℕ) → HasWidth w type → bitness junk type ≡ w
unfolding bitness
bitness_lem junk is_i32 = refl
bitness_lem junk is_u32 = refl
bitness_lem junk is_i16 = refl
bitness_lem junk is_u16 = refl
bitness_lem junk is_i8 = refl
bitness_lem junk is_u8 = refl

-- A number cut to the width fits the digits of the width, and 32 bits.
cut_fits :
    {w type : ℕ} (num : ℕ)
    → HasWidth w type
    → (num % 2 ^ w < 2 ^ 32) × (num % 2 ^ w < 16 ^ (w / 4)) × (num % 2 ^ w < 2 ^ w)
cut_fits num is_i32 = omega arith
cut_fits num is_u32 = omega arith
cut_fits num is_i16 = omega arith
cut_fits num is_u16 = omega arith
cut_fits num is_i8 = omega arith
cut_fits num is_u8 = omega arith

-- `num_to_hex` at each of the six types ends. A number that is not 0 in its type's `w` bits is
-- written with exactly `w / 4` hexadecimal digits, in upper case, that read back as its low `w` bits, and the terminator.
pub num_to_hex-PrintsFixed :
    {w type : ℕ} (num : ℕ)
    → HasWidth w type
    → num < 2 ^ 32
    → num % 2 ^ w ≢ 0
    → PrintsFixed 16 val_hex (num % 2 ^ w) (w / 4) (num_to_hex type num)
unfolding num_to_hex
num_to_hex-PrintsFixed {w} num has lt ne =
    let (a, b, c) = cut_fits num has in
    rw (limit_lem num has lt, hex_width_lem has, ==_ne (num % 2 ^ w) 0 ne)
      (fixed_lem 16 hex val_hex (omega arith) val_hex-hex refl (num % 2 ^ w) (w / 4) a b)

-- The number 0 is written without padding.
pub num_to_hex_zero : num_to_hex u32_type 0 ≡ some (b'0' ∷ 0 ∷ [])
unfolding num_to_hex limit
num_to_hex_zero = refl

zeros_fixed :
    (width : ℕ) → PrintsFixed 2 val_decimal 0 width (some (replicate width b'0' ++ 0 ∷ []))
zeros_fixed width = record {
  text = replicate width b'0';
  writes = refl;
  reads =
      ap (value 2 val_decimal 0) (sym (append-nil (replicate width b'0')))
      ∙ value-zeros 2 val_decimal width [] refl;
  digits = All-replicate (λ c. val_decimal c < 2) width b'0' (omega arith);
  exact = length-replicate {A = ℕ} width b'0';
}

-- `num_to_bin` at each of the six types ends and writes exactly as many binary digits as the type
-- has bits, which read back as the number's bits there, and the terminator; 0 is no exception.
pub num_to_bin-PrintsFixed :
    {w type : ℕ} (junk num : ℕ)
    → HasWidth w type
    → num < 2 ^ 32
    → PrintsFixed 2 val_decimal (num % 2 ^ w) w (num_to_bin junk type num)
unfolding num_to_bin
num_to_bin-PrintsFixed {w} junk num has lt =
    let (a, b, c) = cut_fits num has in
    rw (limit_lem num has lt, bitness_lem junk has)
      (elim (Bool-cases (num % 2 ^ w == 0)) [
        | inl z ↦ let e : num % 2 ^ w ≡ 0 = ground arith in rw e (zeros_fixed w)
        | inr nz ↦ rw nz (
            fixed_lem 2 decimal val_decimal (omega arith)
              (λ d h. val_decimal-decimal d (omega arith)) refl (num % 2 ^ w) w a c)
      ])
