-- ===== src/Display/Print.antt =====
-- `print` of bees/display/display.c: a format and its arguments become a row of coloured characters,
-- which go to the screen one by one.
pub mod Convert
pub mod Format
pub mod Rounds
pub mod Meaning
pub mod Total
use hive_rk.Prelude.{ℕ, zero, suc, ◌+◌, ◌-◌, ◌*◌, ◌%◌, ◌^◌, ◌==◌, leb, bit_and, bit_or}
use hive_rk.Prelude.{if◌then◌else◌, Bool, ◌||◌, ◌&&◌, List, [], ◌∷◌, ◌++◌, Option, none, some}
use hive_rk.Prelude.{not, length}
use hive_rk.Util.{num_to_str, num_to_hex, num_to_bin, i32_type, u32_type}
use hive_rk.Display.{Screen, default_color, print_char}

unfoldable pub is_hex_digit : ℕ → Bool
is_hex_digit c =
    (leb b'0' c && leb c b'9') || ((leb b'a' c && leb c b'f') || (leb b'A' c && leb c b'F'))

-- -1 for any other character, as a bit pattern.
unfoldable pub hex_to_int : ℕ → ℕ
hex_to_int c =
    if leb b'0' c && leb c b'9'
    then c - b'0'
    else (if leb b'a' c && leb c b'f'
        then c - b'a' + 10
        else (if leb b'A' c && leb c b'F' then c - b'A' + 10 else 2 ^ 32 - 1))

-- A character with the colour that it is printed in.
abbrev pub Glyphs : Type 0
Glyphs = List (ℕ × ℕ)

unfoldable pub colored : ℕ → List ℕ → Glyphs
colored color [] = []
colored color (c ∷ str) = (c, color) ∷ colored color str

-- What `printStr` reads of a buffer: the bytes before the terminator.
unfoldable pub until_nul : List ℕ → List ℕ
until_nul [] = []
until_nul (c ∷ str) = if c == 0 then [] else c ∷ until_nul str

abbrev pub Output : Type 0
Output = Option Glyphs

-- What `printStr` reads of `char buf[32]` after the bytes were written to it. Bytes behind the 32 lie in
-- memory that is used for something else, and what is read there is up to `spilled`.
unfoldable pub in_buffer : (List ℕ → List ℕ) → List ℕ → List ℕ
in_buffer spilled buf = if leb (length buf) 32 then buf else spilled buf

-- What `printStr` prints of a buffer that the utilities module filled, behind `front`.
unfoldable pub printed : (List ℕ → List ℕ) → List ℕ → Option (List ℕ) → Option (List ℕ)
printed spilled front none = none
printed spilled front (some buf) = some (front ++ until_nul (in_buffer spilled buf))

-- The text colour alone, and with a background.
unfoldable pub text_color : ℕ → ℕ
text_color txt = bit_or (bit_and default_color 0xF0) (bit_and txt 0xF)

unfoldable pub both_colors : ℕ → ℕ → ℕ
both_colors txt bg = bit_or (bit_and (bg * 2 ^ 4) 0xF0) (bit_and txt 0xF)

-- `str[index]` and the rest behind it; past the end stands the terminator.
abbrev pub first : List ℕ → ℕ
first [] = 0
first (c ∷ str) = c

abbrev pub behind : List ℕ → List ℕ
behind [] = []
behind (c ∷ str) = str

-- The case of `#`: the format that is left and the colour.
unfoldable pub recolor : List ℕ → ℕ → List ℕ × ℕ
recolor r color =
    let h = first r in
    let r1 = behind r in
    let h1 = first r1 in
    if h == b'$'
    then (r, default_color)
    else (if is_hex_digit h
        then (if is_hex_digit h1
            then (behind r1, both_colors (hex_to_int h) (hex_to_int h1))
            else (r1, text_color (hex_to_int h)))
        else (r, color))

-- A conversion that takes an argument.
pub data Conversion : Type 0 where
  one_char string signed_number unsigned_number hexadecimal binary pointer : Conversion

-- The cases of the switch with an argument.
unfoldable pub conversion : ℕ → Option Conversion
conversion d =
    if d == b'c'
    then some one_char
    else (if d == b's'
        then some string
        else (if (d == b'd') || (d == b'i')
            then some signed_number
            else (if d == b'u'
                then some unsigned_number
                else (if d == b'x'
                    then some hexadecimal
                    else (if d == b'b'
                        then some binary
                        else (if d == b'p' then some pointer else none))))))

-- What is printed for the argument `a`; `text p` is the string at address `p`. The 33 bytes of a binary
-- number do not fit the buffer.
unfoldable pub convert : (List ℕ → List ℕ) → (ℕ → List ℕ) → Conversion → ℕ → Option (List ℕ)
convert spilled text one_char a = some (a % 2 ^ 8 ∷ [])
convert spilled text string a = some (text a)
convert spilled text signed_number a = printed spilled [] (num_to_str i32_type a)
convert spilled text unsigned_number a = printed spilled [] (num_to_str u32_type a)
convert spilled text hexadecimal a = printed spilled [] (num_to_hex u32_type a)
convert spilled text binary a = printed spilled [] (num_to_bin 0 u32_type a)
convert spilled text pointer a = printed spilled (b'0' ∷ b'x' ∷ []) (num_to_hex u32_type a)

-- Glyphs in front of what the rest of the format prints.
unfoldable pub before : ℕ → Option (List ℕ) → Output → Output
before color none rest = none
before color (some str) none = none
before color (some str) (some gs) = some (colored color str ++ gs)

-- `print`: what is printed of the format that is left, from argument `k` on. `args` are the words
-- behind the format. `none` means that the rounds ran out.
unfoldable pub emit : (List ℕ → List ℕ) → (ℕ → ℕ) → (ℕ → List ℕ) → ℕ → List ℕ → ℕ → ℕ → Output
emit spilled args text zero str k color = none
emit spilled args text (suc fuel) [] k color = some []
emit spilled args text (suc fuel) (c ∷ r) k color =
    let d = first r in
    let plain = before color (some (c ∷ [])) (emit spilled args text fuel r k color) in
    let (r', color') = recolor (behind r) color in
    let recolored = emit spilled args text fuel r' k color' in
    let percent =
      before color (some (b'%' ∷ [])) (emit spilled args text fuel (behind r) k color) in
    let other = before color (some (b'%' ∷ [])) (emit spilled args text fuel r k color) in
    if not (c == b'%') then plain else elim (conversion d) [
      | some how ↦
          before color (convert spilled text how (args k))
            (emit spilled args text fuel (behind r) (k + 1) color)
      | none ↦ if d == b'#' then recolored else (if d == b'%' then percent else other)
    ]

-- The whole command: the format's characters and the terminator bound the rounds.
unfoldable pub print : (List ℕ → List ℕ) → (ℕ → ℕ) → (ℕ → List ℕ) → List ℕ → Output
print spilled args text str = emit spilled args text (length str + 1) str 0 default_color

unfoldable pub print_glyphs : Glyphs → Screen → Screen
print_glyphs [] s = s
print_glyphs ((ch, color) ∷ gs) s = print_glyphs gs (print_char ch color s)
