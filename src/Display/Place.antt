-- ===== src/Display/Place.antt =====
-- `printChar` and `printStr` of bees/display/display.c: where each character goes.
use hive_rk.Prelude.{ℕ, ◌+◌, ◌-◌, ◌*◌, ◌/◌, ◌%◌, ◌^◌, ◌≤◌, ◌<◌, ◌≡◌, ◌≢◌, refl, ◌∙◌, arith}
use hive_rk.Prelude.{◌==◌, if◌then◌else◌, leb, ◌⊎◌, inl, inr, Bool-cases}
use hive_rk.Prelude.{true, false, within}
use hive_rk.Display.{Screen, video_address, default_color, negative, half, set_cursor, get_cursor}
use hive_rk.Display.{set_char, shift_up, place, print_char}
use hive_rk.Display.Scroll.{shift_up_lem}

-- The cursor is at one of the 2000 cells, or just behind the last.
abbrev pub IsOnScreen : Screen → Type 0
IsOnScreen s = s.cursor ≤ 2000

-- A register of two bytes takes the low 16 bits of a cell's number.
pub set_cursor_cell : (c : ℕ) (s : Screen) → c < 65536 → (set_cursor (c * 2) s).cursor ≡ c
unfolding set_cursor half
set_cursor_cell c s lt = ground arith

-- The byte that `setChar` writes for a colour: the default for a negative one.
abbrev pub color_byte : ℕ → ℕ
color_byte color = if negative color then default_color else color % 2 ^ 8

-- Memory with a character in cell `i`.
abbrev pub with_cell : (ℕ → ℕ) → ℕ → ℕ → ℕ → ℕ → ℕ
with_cell mem i ch color a =
    if a == video_address + i * 2
    then ch
    else (if a == video_address + i * 2 + 1 then color_byte color else mem a)

set_char_cell :
    (ch i color a : ℕ) (s : Screen)
    → i ≤ 2000
    → ((set_char ch (i * 2) color s).mem a ≡ with_cell s.mem i ch color a)
      × ((set_char ch (i * 2) color s).cursor ≡ s.cursor)
unfolding set_char
set_char_cell ch i color a s le =
    let at : (video_address + i * 2) % 2 ^ 32 ≡ video_address + i * 2 = omega arith in
    let next : (video_address + i * 2 + 1) % 2 ^ 32 ≡ video_address + i * 2 + 1 = omega arith in
    let even : (i * 2 % 2 == 0) ≡ true = ground arith in rw (at, next, even) (ground arith, refl)

-- The screen and the cursor that a character is placed at: a row higher where the cursor stood behind
-- the last cell.
abbrev pub scrolled : Screen → Screen
scrolled s = if leb 2000 s.cursor then shift_up s else s

abbrev pub start : Screen → ℕ
start s = if leb 2000 s.cursor then s.cursor - 80 else s.cursor

-- What `printChar` leaves, by the character.
abbrev pub Places : ℕ → ℕ → Screen → Screen → Type 0
Places ch color s s' =
    if ch == 10
    then ((s'.cursor ≡ (start s / 80 + 1) * 80) × ((a : ℕ) → s'.mem a ≡ (scrolled s).mem a))
    else (if ch == 8
        then ((s'.cursor ≡ start s - 1)
            × ((a : ℕ) → s'.mem a ≡ with_cell (scrolled s).mem (start s - 1) b' ' color a))
        else ((s'.cursor ≡ start s + 1)
            × ((a : ℕ) → s'.mem a ≡ with_cell (scrolled s).mem (start s) ch color a)))

place_lem :
    (ch color c : ℕ) (s : Screen)
    → c ≤ 2000
    → (ch ≢ 8) ⊎ (1 ≤ c)
    → let s' = place ch color (c * 2) s in
      if ch == 10
      then ((s'.cursor ≡ (c / 80 + 1) * 80) × ((a : ℕ) → s'.mem a ≡ s.mem a))
      else (if ch == 8
          then ((s'.cursor ≡ c - 1) × ((a : ℕ) → s'.mem a ≡ with_cell s.mem (c - 1) b' ' color a))
          else ((s'.cursor ≡ c + 1) × ((a : ℕ) → s'.mem a ≡ with_cell s.mem c ch color a)))
unfolding place set_cursor
place_lem ch color c s le ok = elim (Bool-cases (ch == 10)) [
  | inl nl ↦
      let e : c * 2 + 160 - (c * 2 + 160) % 160 ≡ (c / 80 + 1) * 80 * 2 = omega arith in
      rw (nl, e) (set_cursor_cell ((c / 80 + 1) * 80) s (omega arith), λ a. refl)
  | inr nn ↦ rw nn (elim (Bool-cases (ch == 8)) [
    | inl bs ↦
        let e : (c * 2 + 2 ^ 32 - 2) % 2 ^ 32 ≡ (c - 1) * 2 = ground arith in
        rw (bs, e)
          (
            set_cursor_cell (c - 1) (set_char b' ' ((c - 1) * 2) color s) (omega arith),
            λ a. (set_char_cell b' ' (c - 1) color a s (omega arith)).0,
          )
    | inr nb ↦
        let e : c * 2 + 2 ≡ (c + 1) * 2 = omega arith in
        rw (nb, e)
          (
            set_cursor_cell (c + 1) (set_char ch (c * 2) color s) (omega arith),
            λ a. (set_char_cell ch c color a s le).0,
          )
  ])
]

-- `printChar` with the cursor on the screen, unless it is a backspace at the first cell: from behind
-- the last cell the screen first scrolls and the cursor goes a row up; then a new line takes the
-- cursor to the first cell of the next row, a backspace takes it one cell back and blanks that cell,
-- and any other character fills the cursor's cell and takes it one cell on. Nothing else changes.
pub print_char-Places :
    (ch color : ℕ) (s : Screen)
    → IsOnScreen s
    → (ch ≢ 8) ⊎ (1 ≤ s.cursor)
    → Places ch color s (print_char ch color s)
unfolding print_char get_cursor
print_char-Places ch color s on ok = elim (Bool-cases (leb 2000 s.cursor)) [
  | inl last ↦
      let t : leb 4000 (s.cursor * 2) ≡ true = ground arith in
      let e : s.cursor * 2 - 160 ≡ (s.cursor - 80) * 2 = omega arith in
      rw (last, t, e)
        (place_lem ch color (s.cursor - 80) (shift_up s) (omega arith) (inr (ground arith)))
  | inr more ↦
      let t : leb 4000 (s.cursor * 2) ≡ false = ground arith in
      rw (more, t) (place_lem ch color s.cursor s on ok)
]

module _ (s : Screen) (on : IsOnScreen s) (a : ℕ) (out : within video_address 4000 a ≡ false) where
  scrolled_outside : (scrolled s).mem a ≡ s.mem a
  scrolled_outside = elim (Bool-cases (leb 2000 s.cursor)) [
    | inl last ↦ rw last ((shift_up_lem s a).0 ∙ ground arith)
    | inr more ↦ rw more
  ]

  with_cell_outside :
      (i ch color : ℕ) → i < 2000 → with_cell (scrolled s).mem i ch color a ≡ s.mem a
  with_cell_outside i ch color lt = ground (arith, scrolled_outside)

  start-lt : start s < 2000
  start-lt = ground arith

  placed_outside :
      (ch color : ℕ) (s' : Screen)
      → (ch ≢ 8) ⊎ (1 ≤ s.cursor)
      → Places ch color s s'
      → IsOnScreen s' × (s'.mem a ≡ s.mem a)
  placed_outside ch color s' ok p = elim (Bool-cases (ch == 10)) [
    | inl nl ↦ let q = rw nl at p in (omega (arith, start-lt, q.0), q.1 a ∙ scrolled_outside)
    | inr nn ↦
        let p' = rw nn at p in
        elim (Bool-cases (ch == 8)) [
          | inl bs ↦
              let q = rw bs at p' in
              (
                omega (arith, start-lt, q.0),
                q.1 a ∙ with_cell_outside (start s - 1) b' ' color (omega (arith, start-lt)),
              )
          | inr nb ↦
              let q = rw nb at p' in
              (omega (arith, start-lt, q.0), q.1 a ∙ with_cell_outside (start s) ch color start-lt)
        ]
  ]

-- Under the same conditions `printChar` keeps the cursor on the screen and changes no byte outside it.
pub print_char-IsOnScreen :
    (ch color a : ℕ) (s : Screen)
    → IsOnScreen s
    → (ch ≢ 8) ⊎ (1 ≤ s.cursor)
    → within video_address 4000 a ≡ false
    → IsOnScreen (print_char ch color s) × ((print_char ch color s).mem a ≡ s.mem a)
print_char-IsOnScreen ch color a s on ok out =
    placed_outside s on a out ch color (print_char ch color s) ok
      (print_char-Places ch color s on ok)

-- A backspace with the cursor at the first cell writes a blank to the two bytes in front of the
-- screen, and leaves the cursor at 65535, far behind the last cell.
pub backspace_at_home :
    (color : ℕ) (s : Screen)
    → s.cursor ≡ 0
    → ((print_char 8 color s).cursor ≡ 65535)
      × ((print_char 8 color s).mem (video_address - 2) ≡ b' ')
      × ((print_char 8 color s).mem (video_address - 1) ≡ color_byte color)
unfolding print_char get_cursor place set_cursor set_char half
backspace_at_home color s home = rw home (refl, refl, refl)
