-- ===== src/Display/Print/Format.antt =====
-- The formats of `print` in bees/display/display.c, and what they mean.
use hive_rk.Prelude.{ℕ, ◌+◌, ◌*◌, ◌≡◌, ◌≢◌}
use hive_rk.Prelude.{true, false}
use hive_rk.Prelude.{List, [], ◌∷◌, ◌++◌}
use hive_rk.Display.{default_color}
use hive_rk.Display.Print.{is_hex_digit, hex_to_int, Glyphs, colored}
use hive_rk.Display.Print.{first, Conversion, one_char}
use hive_rk.Display.Print.{string, signed_number, unsigned_number, hexadecimal, binary, pointer}
use hive_rk.Display.Print.Convert.{Shows, fits}

-- What a format consists of: a character, `%` with a conversion, `%%`, and `%#` with the digit of the
-- text's colour, with that and the background's, or with `$`.
pub data Piece : Type 0 where
  character : ℕ → Piece
  argument : Conversion → Piece
  percent : Piece
  foreground : ℕ → Piece
  colors : ℕ → ℕ → Piece
  reset : Piece

abbrev pub letter : Conversion → ℕ
letter one_char = b'c'
letter string = b's'
letter signed_number = b'd'
letter unsigned_number = b'u'
letter hexadecimal = b'x'
letter binary = b'b'
letter pointer = b'p'

abbrev pub format : List Piece → List ℕ
format [] = []
format (character c ∷ ps) = c ∷ format ps
format (argument how ∷ ps) = b'%' ∷ letter how ∷ format ps
format (percent ∷ ps) = b'%' ∷ b'%' ∷ format ps
format (foreground h ∷ ps) = b'%' ∷ b'#' ∷ h ∷ format ps
format (colors h l ∷ ps) = b'%' ∷ b'#' ∷ h ∷ l ∷ format ps
format (reset ∷ ps) = b'%' ∷ b'#' ∷ b'$' ∷ format ps

-- A character is neither `%` nor the terminator, no argument is shown in binary, and behind the one digit of a colour stands no other digit.
abbrev pub IsFormat : List Piece → Type 0
IsFormat [] = Unit
IsFormat (character c ∷ ps) = (c ≢ b'%') × (c ≢ 0) × IsFormat ps
IsFormat (argument how ∷ ps) = (fits how ≡ true) × IsFormat ps
IsFormat (percent ∷ ps) = IsFormat ps
IsFormat (foreground h ∷ ps) =
    (is_hex_digit h ≡ true) × (is_hex_digit (first (format ps)) ≡ false) × IsFormat ps
IsFormat (colors h l ∷ ps) = (is_hex_digit h ≡ true) × (is_hex_digit l ≡ true) × IsFormat ps
IsFormat (reset ∷ ps) = IsFormat ps

-- The characters that a format stands for, from argument `k` and a colour on.
abbrev pub Means : (ℕ → ℕ) → (ℕ → List ℕ) → List Piece → ℕ → ℕ → Glyphs → Type 0
Means args text [] k color gs = gs ≡ []
Means args text (character c ∷ ps) k color gs =
    (rest : Glyphs) × (gs ≡ (c, color) ∷ rest) × Means args text ps k color rest
Means args text (argument how ∷ ps) k color gs =
    (str : List ℕ) × (rest : Glyphs) × (gs ≡ colored color str ++ rest)
    × Shows text how (args k) str
    × Means args text ps (k + 1) color rest
Means args text (percent ∷ ps) k color gs =
    (rest : Glyphs) × (gs ≡ (b'%', color) ∷ rest) × Means args text ps k color rest
Means args text (foreground h ∷ ps) k color gs = Means args text ps k (hex_to_int h) gs
Means args text (colors h l ∷ ps) k color gs =
    Means args text ps k (hex_to_int l * 16 + hex_to_int h) gs
Means args text (reset ∷ ps) k color gs =
    (rest : Glyphs) × (gs ≡ (b'$', default_color) ∷ rest) × Means args text ps k default_color rest
