-- ===== src/Display/Cursor.antt =====
-- The cursor command of bees/display/display.c.
use hive_rk.Prelude.{ℕ, ◌+◌, ◌*◌, ◌/◌, ◌%◌, ◌^◌, ◌<◌, ◌≡◌, refl, arith}
use hive_rk.Display.{Screen, set_cursor, get_cursor, cursor_set, cursor_add, cursor_get, remainder}
use hive_rk.Display.Place.{set_cursor_cell}

cell_of :
    (col row c : ℕ)
    → col < 80
    → row < 25
    → c ≡ row * 80 + col
    → ◌≡◌ {A = ℕ × ℕ} (c * 2 / 2 % 80, c * 2 / 2 / 80) (col, row)
cell_of col row c hx hy e =
    let x : c * 2 / 2 % 80 ≡ col = omega arith in
    let y : c * 2 / 2 / 80 ≡ row = omega arith in rw (x, y)

set_cursor_at :
    (col row : ℕ) (s : Screen)
    → col < 80
    → row < 25
    → cursor_get (set_cursor (row * 80 * 2 + col * 2) s) ≡ (col, row)
unfolding cursor_get get_cursor
set_cursor_at col row s hx hy =
    let e : row * 80 * 2 + col * 2 ≡ (row * 80 + col) * 2 = omega arith in
    rw e (
      cell_of col row (set_cursor ((row * 80 + col) * 2) s).cursor hx hy
        (set_cursor_cell (row * 80 + col) s (omega arith)))

remainder_lem : (n m : ℕ) → n < 2 ^ 31 → remainder n m ≡ n % m
unfolding remainder
remainder_lem n m lt = ground arith

-- What mode 0 sets mode 2 reads, cut to the screen, for positive arguments; memory does not change.
pub cursor_get-cursor_set :
    (x y : ℕ) (s : Screen)
    → x < 2 ^ 31
    → y < 2 ^ 31
    → (cursor_get (cursor_set x y s) ≡ (x % 80, y % 25)) × ((cursor_set x y s).mem ≡ s.mem)
unfolding cursor_set set_cursor
cursor_get-cursor_set x y s hx hy =
    let e : (y % 25 * 80 * 2 + x % 80 * 2) % 2 ^ 32 ≡ y % 25 * 80 * 2 + x % 80 * 2 = omega arith in
    rw (remainder_lem x 80 hx, remainder_lem y 25 hy, e)
      (set_cursor_at (x % 80) (y % 25) s (omega arith) (omega arith), refl)

get_cursor-lt : (s : Screen) → s.cursor < 65536 → get_cursor s < 131072
unfolding get_cursor
get_cursor-lt s on = omega arith

moved_to :
    (x y p : ℕ) (s : Screen)
    → p < 131072
    → x < 2 ^ 30
    → y < 2 ^ 30
    → cursor_get (
        set_cursor
          ((remainder ((y + p / 2 / 80) % 2 ^ 32) 25 * 80 * 2
              + remainder ((x + p / 2 % 80) % 2 ^ 32) 80 * 2)
            % 2 ^ 32)
          s)
      ≡ ((x + p / 2 % 80) % 80, (y + p / 2 / 80) % 25)
moved_to x y p s hp hx hy =
    let ex : (x + p / 2 % 80) % 2 ^ 32 ≡ x + p / 2 % 80 = omega arith in
    let ey : (y + p / 2 / 80) % 2 ^ 32 ≡ y + p / 2 / 80 = omega arith in
    let col = (x + p / 2 % 80) % 80 in
    let row = (y + p / 2 / 80) % 25 in
    let e : (row * 80 * 2 + col * 2) % 2 ^ 32 ≡ row * 80 * 2 + col * 2 = omega arith in
    rw
      (
        ex,
        ey,
        remainder_lem (x + p / 2 % 80) 80 (omega arith),
        remainder_lem (y + p / 2 / 80) 25 (omega arith),
        e,
      )
      (set_cursor_at col row s (omega arith) (omega arith))

-- Mode 1 moves the cursor by `x` columns and `y` rows, where positive arguments do not overflow: the
-- columns go round within the row and the rows go round within the screen.
pub cursor_get-cursor_add :
    (x y : ℕ) (s : Screen)
    → s.cursor < 65536
    → x < 2 ^ 30
    → y < 2 ^ 30
    → let (col, row) = cursor_get s in
      cursor_get (cursor_add x y s) ≡ ((x + col) % 80, (y + row) % 25)
unfolding cursor_add cursor_get
cursor_get-cursor_add x y s on hx hy = moved_to x y (get_cursor s) s (get_cursor-lt s on) hx hy
