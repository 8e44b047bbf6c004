-- ===== src/Display/Print/Rounds.antt =====
-- One round of `print` in bees/display/display.c at each piece of a format.
use hive_rk.Prelude.{ℕ, suc, ◌+◌, ◌*◌, ◌/◌, ◌%◌, ◌<◌, ◌≡◌, ◌≢◌, refl, arith}
use hive_rk.Prelude.{◌==◌, true, false}
use hive_rk.Prelude.{List, [], ◌∷◌, ◌++◌, Option, some, ==_ne, bit_and, bit_or}
use hive_rk.Prelude.Bits.{bit_and_15}
use hive_rk.Prelude.Tables.{agree_below, agree_below→eq}
use hive_rk.Display.{default_color}
use hive_rk.Display.Print.{is_hex_digit, hex_to_int, Glyphs, colored, Output}
use hive_rk.Display.Print.{text_color, both_colors, first, recolor, Conversion, one_char}
use hive_rk.Display.Print.{string, signed_number, unsigned_number, hexadecimal, binary, pointer}
use hive_rk.Display.Print.{conversion, convert, before, emit}
use hive_rk.Display.Print.Format.{letter}

hex_to_int-lt : (h : ℕ) → is_hex_digit h ≡ true → hex_to_int h < 16
unfolding is_hex_digit hex_to_int
hex_to_int-lt h e = ground arith

text_color_lem : (t : ℕ) → t < 16 → text_color t ≡ t
unfolding text_color agree_below
text_color_lem = agree_below→eq text_color (λ t. t) 16 refl

background : (b : ℕ) → b < 16 → bit_and (b * 16) 0xF0 ≡ b * 16
unfolding agree_below
background = agree_below→eq (λ b. bit_and (b * 16) 0xF0) (λ b. b * 16) 16 refl

parts : (n : ℕ) → n < 256 → bit_or (n / 16 * 16) (n % 16) ≡ n
unfolding agree_below
parts = agree_below→eq (λ n. bit_or (n / 16 * 16) (n % 16)) (λ n. n) 256 refl

both_colors_lem : (t b : ℕ) → t < 16 → b < 16 → both_colors t b ≡ b * 16 + t
unfolding both_colors
both_colors_lem t b ht hb =
    let n = b * 16 + t in
    let high : n / 16 * 16 ≡ b * 16 = omega arith in
    let low : n % 16 ≡ t = omega arith in
    let m : t % 16 ≡ t = omega arith in
    rw (background b hb, bit_and_15, m) (rw (high, low) at (parts n (omega arith)))

-- The characters that no conversion has.
conversion-letter : (how : Conversion) → conversion (letter how) ≡ some how
unfolding conversion
conversion-letter one_char = refl
conversion-letter string = refl
conversion-letter signed_number = refl
conversion-letter unsigned_number = refl
conversion-letter hexadecimal = refl
conversion-letter binary = refl
conversion-letter pointer = refl

digit_not_dollar : (h : ℕ) → is_hex_digit h ≡ true → (h == b'$') ≡ false
unfolding is_hex_digit
digit_not_dollar h e = ground arith

pub recolor_one :
    (h color : ℕ) (r : List ℕ)
    → is_hex_digit h ≡ true
    → is_hex_digit (first r) ≡ false
    → recolor (h ∷ r) color ≡ (r, hex_to_int h)
unfolding recolor
recolor_one h color r e n =
    rw (digit_not_dollar h e, e, n, text_color_lem (hex_to_int h) (hex_to_int-lt h e))

pub recolor_two :
    (h l color : ℕ) (r : List ℕ)
    → is_hex_digit h ≡ true
    → is_hex_digit l ≡ true
    → recolor (h ∷ l ∷ r) color ≡ (r, hex_to_int l * 16 + hex_to_int h)
unfolding recolor
recolor_two h l color r e n = rw (
  digit_not_dollar h e,
  e,
  n,
  both_colors_lem (hex_to_int h) (hex_to_int l) (hex_to_int-lt h e) (hex_to_int-lt l n),
)

pub recolor_reset : (color : ℕ) (r : List ℕ) → recolor (b'$' ∷ r) color ≡ (b'$' ∷ r, default_color)
unfolding recolor
recolor_reset color r = refl

-- What stands in front of a rest that is printed.
pub before-some :
    (color : ℕ) (str : List ℕ) (gs : Glyphs) (out : Option (List ℕ)) (rest : Output)
    → out ≡ some str
    → rest ≡ some gs
    → before color out rest ≡ some (colored color str ++ gs)
unfolding before
before-some color str gs out rest e f = rw (e, f)

pub before_one :
    (color c : ℕ) (gs : Glyphs) (rest : Output)
    → rest ≡ some gs
    → before color (some (c ∷ [])) rest ≡ some ((c, color) ∷ gs)
unfolding before colored
before_one color c gs rest f = rw f

pub emit_end :
    (spilled : List ℕ → List ℕ) (args : ℕ → ℕ) (text : ℕ → List ℕ) (fuel k color : ℕ)
    → emit spilled args text (suc fuel) [] k color ≡ some []
unfolding emit
emit_end spilled args text fuel k color = refl

-- One round of `print` at each piece.
module _ (spilled : List ℕ → List ℕ) (args : ℕ → ℕ) (text : ℕ → List ℕ) (fuel k color : ℕ)
    (r : List ℕ) where
  pub emit_character :
      (c : ℕ)
      → c ≢ b'%'
      → emit spilled args text (suc fuel) (c ∷ r) k color
        ≡ before color (some (c ∷ [])) (emit spilled args text fuel r k color)
  unfolding emit
  emit_character c ne = rw (==_ne c b'%' ne)

  pub emit_argument :
      (how : Conversion)
      → emit spilled args text (suc fuel) (b'%' ∷ letter how ∷ r) k color
        ≡ before color
            (convert spilled text how (args k))
            (emit spilled args text fuel r (k + 1) color)
  unfolding emit
  emit_argument how = rw (conversion-letter how)

  pub emit_percent :
      emit spilled args text (suc fuel) (b'%' ∷ b'%' ∷ r) k color
      ≡ before color (some (b'%' ∷ [])) (emit spilled args text fuel r k color)
  unfolding emit conversion
  emit_percent = refl

  pub emit-recolor :
      emit spilled args text (suc fuel) (b'%' ∷ b'#' ∷ r) k color
      ≡ emit spilled args text fuel (recolor r color).0 k (recolor r color).1
  unfolding emit conversion
  emit-recolor = refl
