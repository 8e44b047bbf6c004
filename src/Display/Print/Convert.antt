-- ===== src/Display/Print/Convert.antt =====
-- The arguments of `print` in bees/display/display.c, and the text that each conversion shows.
use hive_rk.Prelude.{ℕ, ◌%◌, ◌^◌, ◌<◌, ◌≤◌, ◌≡◌, refl, ◌∙◌, arith}
use hive_rk.Prelude.{◌==◌, leb, inl, inr, Bool-cases}
use hive_rk.Prelude.{List, [], ◌∷◌, ◌++◌, length, All, Option, some, ==_ne}
use hive_rk.Prelude.Int.{signed}
use hive_rk.Util.{num_to_str, num_to_hex, i32_type, u32_type, decimal}
use hive_rk.Util.Digits.{
  value, val_decimal, digits_no_nul, IsNumeral, vals_of_digits, val_decimal-decimal,
}
use hive_rk.Util.Signed.{unsigned}
use hive_rk.Display.Print.{in_buffer}
use hive_rk.Prelude.{Bool, true, false, length-append, ◌+◌}
use hive_rk.Util.Signed.{read_signed, num_to_str-PrintsSigned, num_to_str_unsigned_types}
use hive_rk.Util.Hex.{num_to_hex_zero, val_hex, num_to_hex-PrintsFixed, num_to_bin-PrintsFixed}
use hive_rk.Util.Types.{is_u32}
use hive_rk.Display.Print.{until_nul, printed}
use hive_rk.Display.Print.{Conversion, one_char}
use hive_rk.Display.Print.{string, signed_number, unsigned_number, hexadecimal, binary, pointer}
use hive_rk.Display.Print.{convert}

-- A buffer with a text and the terminator prints as the text.
until_nul_text : (ds : List ℕ) → All (λ c. 1 ≤ c) ds → until_nul (ds ++ 0 ∷ []) ≡ ds
unfolding until_nul
until_nul_text [] h = refl
until_nul_text (c ∷ ds) h = rw (==_ne c 0 (omega (arith, h.0)), until_nul_text ds h.1)

printed_text :
    (spilled : List ℕ → List ℕ) (front ds : List ℕ) (out : Option (List ℕ))
    → out ≡ some (ds ++ 0 ∷ [])
    → All (λ c. 1 ≤ c) ds
    → length ds < 32
    → printed spilled front out ≡ some (front ++ ds)
unfolding printed in_buffer
printed_text spilled front ds out e h short =
    let n : length (ds ++ 0 ∷ []) ≡ length ds + 1 = length-append ds (0 ∷ []) in
    let t : leb (length (ds ++ 0 ∷ [])) 32 ≡ true = ground (arith, n) in
    rw (e, t, until_nul_text ds h)

-- What the buffer of 32 bytes has space for.
abbrev pub fits : Conversion → Bool
fits one_char = true
fits string = true
fits signed_number = true
fits unsigned_number = true
fits hexadecimal = true
fits binary = false
fits pointer = true

-- The text that an argument is shown as; there is no promise for a binary number.
abbrev pub Shows : (ℕ → List ℕ) → Conversion → ℕ → List ℕ → Type 0
Shows text one_char a str = str ≡ a % 2 ^ 8 ∷ []
Shows text string a str = str ≡ text a
Shows text signed_number a str =
    (read_signed str ≡ signed 32 a) × IsNumeral 10 val_decimal (unsigned str)
Shows text unsigned_number a str = (value 10 val_decimal 0 str ≡ a) × IsNumeral 10 val_decimal str
Shows text hexadecimal a str = (value 16 val_hex 0 str ≡ a) × IsNumeral 16 val_hex str
Shows text binary a str = Unit
Shows text pointer a str =
    (ds : List ℕ) × (str ≡ b'0' ∷ b'x' ∷ ds) × (value 16 val_hex 0 ds ≡ a) × IsNumeral 16 val_hex ds

no_nul_of_hex : (ds : List ℕ) → All (λ c. val_hex c < 16) ds → All (λ c. 1 ≤ c) ds
no_nul_of_hex [] h = tt
no_nul_of_hex (c ∷ ds) h =
    let v : val_hex c < 16 = h.0 in let one : 1 ≤ c = ground arith in (one, no_nul_of_hex ds h.1)

hex_text :
    (a : ℕ)
    → a < 2 ^ 32
    → (ds : List ℕ) × (num_to_hex u32_type a ≡ some (ds ++ 0 ∷ []))
      × (value 16 val_hex 0 ds ≡ a)
      × IsNumeral 16 val_hex ds
      × (length ds < 32)
hex_text a lt = elim (Bool-cases (a == 0)) [
  | inl z ↦
      let e : a ≡ 0 = ground arith in
      rw e (b'0' ∷ [], num_to_hex_zero, refl, omega arith, omega arith)
  | inr nz ↦
      let e : a % 2 ^ 32 ≡ a = omega arith in
      let p = num_to_hex-PrintsFixed {w = 32} a is_u32 lt (rw e (ground arith)) in
      let size = p.exact in
      (p.text, p.writes, p.reads ∙ e, (omega (arith, size), p.digits), omega (arith, size))
]

pub convert-Shows :
    (spilled : List ℕ → List ℕ) (text : ℕ → List ℕ) (how : Conversion) (a : ℕ)
    → a < 2 ^ 32
    → (str : List ℕ) × (convert spilled text how a ≡ some str) × Shows text how a str
unfolding convert printed
convert-Shows spilled text one_char a lt = (a % 2 ^ 8 ∷ [], refl, refl)
convert-Shows spilled text string a lt = (text a, refl, refl)
convert-Shows spilled text signed_number a lt =
    let p = num_to_str-PrintsSigned a lt in
    (
      p.text,
      printed_text spilled [] p.text (num_to_str i32_type a) p.writes p.no_nul
          (omega (arith, p.short)),
      (p.reads, p.numeral),
    )
convert-Shows spilled text unsigned_number a lt =
    let p = (num_to_str_unsigned_types a lt).0 in
    (
      p.text,
      printed_text spilled [] p.text (num_to_str u32_type a) p.writes
          (digits_no_nul 10 decimal p.text (λ d h. omega arith) p.digits) (omega (arith, p.short)),
      (
        p.reads,
        (p.not_empty, vals_of_digits 10 decimal val_decimal p.text val_decimal-decimal p.digits),
      ),
    )
convert-Shows spilled text hexadecimal a lt =
    let (ds, writes, reads, numeral, short) = hex_text a lt in
    (
      ds,
      printed_text spilled [] ds (num_to_hex u32_type a) writes (no_nul_of_hex ds numeral.1) short,
      (reads, numeral),
    )
convert-Shows spilled text binary a lt =
    let p = num_to_bin-PrintsFixed {w = 32} 0 a is_u32 lt in
    (until_nul (in_buffer spilled (p.text ++ 0 ∷ [])), rw p.writes refl, tt)
convert-Shows spilled text pointer a lt =
    let (ds, writes, reads, numeral, short) = hex_text a lt in
    (
      b'0' ∷ b'x' ∷ ds,
      printed_text spilled (b'0' ∷ b'x' ∷ []) ds (num_to_hex u32_type a) writes
          (no_nul_of_hex ds numeral.1) short,
      (ds, refl, reads, numeral),
    )
