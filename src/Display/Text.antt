-- ===== src/Display/Text.antt =====
-- `printStr` of bees/display/display.c on text that fits in front of the end of the screen.
use hive_rk.Prelude.{ℕ, suc, ◌+◌, ◌-◌, ◌*◌, ◌/◌, ◌%◌, ◌≤◌, ◌<◌, ◌≡◌, ◌≢◌, ◌∙◌, arith}
use hive_rk.Prelude.{◌==◌, if◌then◌else◌, leb, inl, inr, Bool-cases, List, [], ◌∷◌, length}
use hive_rk.Prelude.{All, get_or, ==_ne, false}
use hive_rk.Display.{Screen, video_address, print_char, print_str}
use hive_rk.Prelude.{within}
use hive_rk.Display.Place.{print_char-Places, with_cell, color_byte}

-- Neither a new line nor a backspace.
abbrev pub IsPlain : ℕ → Type 0
IsPlain ch = (ch ≢ 10) × (ch ≢ 8)

-- Memory with a text from cell `c` on.
abbrev pub with_text : (ℕ → ℕ) → ℕ → List ℕ → ℕ → ℕ → ℕ
with_text mem c str color a =
    if within (video_address + c * 2) (length str * 2) a
    then (if a % 2 == 0 then get_or str ((a - (video_address + c * 2)) / 2) 0 else color_byte color)
    else mem a

plain_cell :
    (ch color : ℕ) (s : Screen)
    → IsPlain ch
    → s.cursor < 2000
    → ((print_char ch color s).cursor ≡ s.cursor + 1)
      × ((a : ℕ) → (print_char ch color s).mem a ≡ with_cell s.mem s.cursor ch color a)
plain_cell ch color s plain lt =
    let n : (ch == 10) ≡ false = ==_ne ch 10 plain.0 in
    let b : (ch == 8) ≡ false = ==_ne ch 8 plain.1 in
    let l : leb 2000 s.cursor ≡ false = ground arith in
    rw (n, b, l) at (print_char-Places ch color s (omega arith) (inl plain.1))

text_step :
    (m m' : ℕ → ℕ) (c ch color a : ℕ) (str : List ℕ)
    → m' a ≡ with_cell m c ch color a
    → with_text m' (c + 1) str color a ≡ with_text m c (ch ∷ str) color a
text_step m m' c ch color a str e = elim (Bool-cases (a == video_address + c * 2)) [
  | inl here ↦ let z : (a - (video_address + c * 2)) / 2 ≡ 0 = ground arith in rw z (ground arith)
  | inr other ↦ elim (Bool-cases (a == video_address + c * 2 + 1)) [
    | inl next ↦ ground arith
    | inr more ↦ elim (Bool-cases (within (video_address + (c + 1) * 2) (length str * 2) a)) [
      | inl inside ↦
          let z : (a - (video_address + c * 2)) / 2
              ≡ suc ((a - (video_address + (c + 1) * 2)) / 2) =
            ground arith in
          rw z (ground arith)
      | inr out ↦ ground arith
    ]
  ]
]

-- `printStr` of plain characters that fit in front of the end of the screen fills the cells from the
-- cursor on with them, in order and in the colour, moves the cursor behind them and changes nothing
-- else.
pub print_str_lem :
    (str : List ℕ) (color a : ℕ) (s : Screen)
    → All IsPlain str
    → s.cursor + length str ≤ 2000
    → ((print_str str color s).cursor ≡ s.cursor + length str)
      × ((print_str str color s).mem a ≡ with_text s.mem s.cursor str color a)
unfolding print_str
print_str_lem [] color a s plain fits = (omega arith, ground arith)
print_str_lem (ch ∷ str) color a s plain fits =
    let (moved, filled) = plain_cell ch color s plain.0 (omega arith) in
    let ih = print_str_lem str color a (print_char ch color s) plain.1 (omega arith) in
    (
      omega (arith, ih.0),
      ih.1
          ∙ rw moved
              (text_step s.mem (print_char ch color s).mem s.cursor ch color a str (filled a)),
    )
