-- ===== src/Display/Tests.antt =====
-- Runs of bees/display/display.c, and its theorems at concrete inputs.
use hive_rk.Prelude.{ℕ, ◌+◌, ◌^◌, ◌≡◌, ◌<◌, refl, List, [], ◌∷◌, arith, inr}
use hive_rk.Prelude.{◌==◌, some, within, if◌then◌else◌}
use hive_rk.Display.{Screen, video_address, print_char, print_str}
use hive_rk.Display.{shift_up}
use hive_rk.Display.Scroll.{blank, shift_up_lem}
use hive_rk.Display.Place.{Places, print_char-Places}
use hive_rk.Display.Text.{with_text, print_str_lem}
use hive_rk.Display.Print.{Glyphs, print, emit, before, colored, conversion, convert, string}
use hive_rk.Display.Print.{one_char, recolor, is_hex_digit, hex_to_int, text_color}
use hive_rk.Display.Print.Format.{Piece, character, argument, percent, foreground, reset}
use hive_rk.Display.Print.Format.{format}
use hive_rk.Display.Print.Total.{print-IsSome}

-- The cursor at a cell of the third row.
abbrev screen : Screen
screen = record { mem = λ a. 0; cursor = 165 }

-- The cursor behind the last cell.
abbrev end_of_screen : Screen
end_of_screen = record { mem = λ a. 0; cursor = 2000 }

abbrev empty : Screen
empty = record { mem = λ a. 0; cursor = 0 }

abbrev words : ℕ → ℕ
words k = if k == 0 then b'q' else 7

words-lt : (k : ℕ) → words k < 2 ^ 32
words-lt k = ground arith

abbrev strings : ℕ → List ℕ
strings a = b'H' ∷ b'i' ∷ []

-- What is read where the bytes do not fit a buffer.
abbrev spill : List ℕ → List ℕ
spill buf = []

abbrev pieces : List Piece
pieces =
    character b'a' ∷ argument one_char ∷ percent ∷ foreground b'C' ∷ argument string ∷ reset ∷ []

-- "a%c%%%#C%s%#$" with a character and a string.
print_runs :
    print spill words strings (format pieces)
    ≡ some ((b'a', 2) ∷ (b'q', 2) ∷ (b'%', 2) ∷ (b'H', 12) ∷ (b'i', 12) ∷ (b'$', 2) ∷ [])
unfolding print emit before colored conversion convert recolor is_hex_digit hex_to_int text_color
print_runs = refl

print_char-Places_example : Places b'A' 7 end_of_screen (print_char b'A' 7 end_of_screen)
print_char-Places_example = print_char-Places b'A' 7 end_of_screen (omega arith) (inr (omega arith))

print_str_lem_example :
    let str : List ℕ = b'H' ∷ b'i' ∷ [] in
    ((print_str str 7 screen).cursor ≡ 167)
    × ((print_str str 7 screen).mem (video_address + 332)
        ≡ with_text (λ a. 0) 165 str 7 (video_address + 332))
print_str_lem_example =
    print_str_lem (b'H' ∷ b'i' ∷ []) 7 (video_address + 332) screen (omega arith) (omega arith)

shift_up_lem_example :
    ((shift_up screen).mem (video_address + 3840) ≡ (
      if within video_address 3840 (video_address + 3840)
      then 0
      else (if within (video_address + 3840) 160 (video_address + 3840)
          then blank (video_address + 3840)
          else 0)))
    × ((shift_up screen).cursor ≡ 165)
shift_up_lem_example = shift_up_lem screen (video_address + 3840)

print-IsSome_example :
    (gs : Glyphs) × (print spill words strings (b'%' ∷ b'z' ∷ b'%' ∷ []) ≡ some gs)
print-IsSome_example = print-IsSome spill words strings (b'%' ∷ b'z' ∷ b'%' ∷ []) words-lt
