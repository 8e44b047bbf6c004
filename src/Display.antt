-- ===== src/Display.antt =====
-- bees/display/display.c, the VGA text driver: 25 rows of 80 cells at 0xb8000, a cell a byte for the
-- character and one for the colour. The state is memory and the cursor register of the VGA chip; an
-- `int` is its bit pattern of 32 bits.
pub mod Scroll
pub mod Place
pub mod Text
pub mod Cursor
pub mod Print
mod Tests
use hive_rk.Prelude.{ℕ, zero, suc, ◌+◌, ◌-◌, ◌*◌, ◌/◌, ◌%◌, ◌^◌, ◌==◌, ltb, leb, bit_and, bit_or}
use hive_rk.Prelude.{
  if◌then◌else◌, store, Bool, ◌||◌, ◌&&◌, List, [], ◌∷◌, ◌++◌, Option, none, some,
}
use hive_rk.Prelude.{not, length}

abbrev pub video_address : ℕ
video_address = 0xb8000

abbrev pub max_rows : ℕ
max_rows = 25

abbrev pub max_cols : ℕ
max_cols = 80

abbrev pub default_color : ℕ
default_color = 0x02

-- The two bytes of the chip's cursor register make up `cursor`.
pub record Screen : Type 0 where
  pub mem : ℕ → ℕ
  pub cursor : ℕ

abbrev pub negative : ℕ → Bool
negative n = leb (2 ^ 31) n

-- `offset / 2` rounds to zero.
unfoldable pub half : ℕ → ℕ
half offset = if negative offset then 2 ^ 32 - (2 ^ 32 - offset) / 2 else offset / 2

-- The high byte is bits 8 to 15 of the half, the low byte bits 0 to 7.
pub set_cursor : ℕ → Screen → Screen
set_cursor offset s =
    let h = if offset == 0 then 0 else half offset in
    record s { cursor = h / 2 ^ 8 % 2 ^ 8 * 2 ^ 8 + h % 2 ^ 8 }

pub get_cursor : Screen → ℕ
get_cursor s = s.cursor * 2

pub set_char : ℕ → ℕ → ℕ → Screen → Screen
set_char character offset color s =
    let at = (video_address + offset) % 2 ^ 32 in
    let next = (video_address + offset + 1) % 2 ^ 32 in
    if not (offset % 2 == 0) then s else record s {
      mem =
          store (store s.mem at character) next
            (if negative color then default_color else color % 2 ^ 8);
    }

-- `vidmem[s]=vidmem[s+160]` from `s` on, in so many rounds.
pub shift_loop : ℕ → ℕ → (ℕ → ℕ) → ℕ → ℕ
shift_loop zero s mem = mem
shift_loop (suc n) s mem =
    shift_loop n (s + 1) (store mem (video_address + s) (mem (video_address + (s + 160))))

-- The last row becomes blank.
pub blank_loop : ℕ → ℕ → (ℕ → ℕ) → ℕ → ℕ
blank_loop zero s mem = mem
blank_loop (suc n) s mem =
    let last = max_rows * max_cols * 2 - max_cols * 2 in
    blank_loop n (s + 1) (
      store (store mem (video_address + (s * 2 + last)) b' ') (video_address + (s * 2 + 1 + last))
        default_color)

pub shift_up : Screen → Screen
shift_up s =
    let rows = max_rows * max_cols * 2 - max_cols * 2 in
    record s { mem = blank_loop max_cols 0 (shift_loop rows 0 s.mem) }

-- `printChar` behind the scrolling: `offset` is its local variable.
pub place : ℕ → ℕ → ℕ → Screen → Screen
place ch color offset s =
    if ch == 10
    then (let down = offset + max_cols * 2 in set_cursor (down - down % (2 * max_cols)) s)
    else (if ch == 8
        then (let back = (offset + 2 ^ 32 - 2) % 2 ^ 32 in
            set_cursor back (set_char b' ' back color s))
        else set_cursor (offset + 2) (set_char ch offset color s))

pub print_char : ℕ → ℕ → Screen → Screen
print_char ch color s =
    let offset = get_cursor s in
    if leb (max_rows * max_cols * 2) offset
    then place ch color (offset - 2 * max_cols) (shift_up s)
    else place ch color offset s

pub print_str : List ℕ → ℕ → Screen → Screen
print_str [] color s = s
print_str (c ∷ str) color s = print_str str color (print_char c color s)

-- C's remainder of an `int` by a positive one: it has the sign of the dividend.
unfoldable pub remainder : ℕ → ℕ → ℕ
remainder n m = if negative n then (2 ^ 32 - (2 ^ 32 - n) % m) % 2 ^ 32 else n % m

-- `cursor` with mode 0 and with mode 1, then with mode 2: the column and the row that are stored.
pub cursor_set : ℕ → ℕ → Screen → Screen
cursor_set x y s =
    let cursor_x = remainder x max_cols in
    let cursor_y = remainder y max_rows in
    set_cursor ((cursor_y * max_cols * 2 + cursor_x * 2) % 2 ^ 32) s

pub cursor_add : ℕ → ℕ → Screen → Screen
cursor_add x y s =
    let offset = get_cursor s in
    let cursor_y = remainder ((y + offset / 2 / max_cols) % 2 ^ 32) max_rows in
    let cursor_x = remainder ((x + offset / 2 % max_cols) % 2 ^ 32) max_cols in
    set_cursor ((cursor_y * max_cols * 2 + cursor_x * 2) % 2 ^ 32) s

pub cursor_get : Screen → ℕ × ℕ
cursor_get s = let pos = get_cursor s in (pos / 2 % max_cols, pos / 2 / max_cols)

pub clear_loop : ℕ → ℕ → (ℕ → ℕ) → ℕ → ℕ
clear_loop zero i mem = mem
clear_loop (suc n) i mem =
    clear_loop n (i + 1)
      (store (store mem (video_address + i * 2) b' ') (video_address + (i * 2 + 1)) default_color)

pub clear : Screen → Screen
clear s = set_cursor 0 (record s { mem = clear_loop (max_cols * max_rows) 0 s.mem })

-- Command 4; the argument is cut to a char.
pub putc : ℕ → Screen → Screen
putc ch s = print_char (ch % 2 ^ 8) default_color s
