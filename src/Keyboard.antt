-- ===== src/Keyboard.antt =====
-- bees/keyboard/keyboard.c: scan codes become key events in a ring of 64, which readers empty. The
-- children prove what the translation gives and that the ring is a queue.
pub mod Event
pub mod Maps
pub mod Ring
pub mod Script
mod Tests
use hive_rk.Prelude.{ℕ, zero, suc, ◌+◌, ◌-◌, ◌*◌, ◌/◌, ◌%◌, ◌^◌, ◌==◌, ltb, bit_and, bit_or, ◌||◌}
use hive_rk.Prelude.{if◌then◌else◌, store, List, [], ◌∷◌, Bool}

abbrev pub kmod_shift : ℕ
kmod_shift = 2 ^ 0

abbrev pub kflag_release : ℕ
kflag_release = 2 ^ 0

-- The fields are bytes, so none of the shifts passes 32 bits.
unfoldable pub make_key_event : ℕ → ℕ → ℕ → ℕ → ℕ
make_key_event ascii scancode mods flags =
    bit_or (bit_or (bit_or ascii (scancode * 2 ^ 8)) (mods * 2 ^ 16)) (flags * 2 ^ 24)

-- GlobalData
pub record GlobalData : Type 0 where
  pub buffer : ℕ → ℕ
  pub head : ℕ
  pub tail : ℕ
  pub shift : ℕ

-- A switch whose cases return: the result at the first case that fits, 0 by default.
pub switch : List (ℕ × ℕ) → ℕ → ℕ
switch [] sc = 0
switch ((c, r) ∷ cases) sc = if sc == c then r else switch cases sc

abbrev pub key_cases : List (ℕ × ℕ)
key_cases =
    (0x02, b'1')
    ∷ (0x03, b'2')
    ∷ (0x04, b'3')
    ∷ (0x05, b'4')
    ∷ (0x06, b'5')
    ∷ (0x07, b'6')
    ∷ (0x08, b'7')
    ∷ (0x09, b'8')
    ∷ (0x0A, b'9')
    ∷ (0x0B, b'0')
    ∷ (0x0C, b'-')
    ∷ (0x0D, b'=')
    ∷ (0x10, b'q')
    ∷ (0x11, b'w')
    ∷ (0x12, b'e')
    ∷ (0x13, b'r')
    ∷ (0x14, b't')
    ∷ (0x15, b'y')
    ∷ (0x16, b'u')
    ∷ (0x17, b'i')
    ∷ (0x18, b'o')
    ∷ (0x19, b'p')
    ∷ (0x1A, b'[')
    ∷ (0x1B, b']')
    ∷ (0x1E, b'a')
    ∷ (0x1F, b's')
    ∷ (0x20, b'd')
    ∷ (0x21, b'f')
    ∷ (0x22, b'g')
    ∷ (0x23, b'h')
    ∷ (0x24, b'j')
    ∷ (0x25, b'k')
    ∷ (0x26, b'l')
    ∷ (0x27, b';')
    ∷ (0x28, 39)
    ∷ (0x29, b'`')
    ∷ (0x2C, b'z')
    ∷ (0x2D, b'x')
    ∷ (0x2E, b'c')
    ∷ (0x2F, b'v')
    ∷ (0x30, b'b')
    ∷ (0x31, b'n')
    ∷ (0x32, b'm')
    ∷ (0x33, b',')
    ∷ (0x34, b'.')
    ∷ (0x35, b'/')
    ∷ (0x39, b' ')
    ∷ (0x0E, 8)
    ∷ (0x1C, 10)
    ∷ (0x0F, 9)
    ∷ []

abbrev pub shift_cases : List (ℕ × ℕ)
shift_cases =
    (0x02, b'!')
    ∷ (0x03, b'@')
    ∷ (0x04, b'#')
    ∷ (0x05, b'$')
    ∷ (0x06, b'%')
    ∷ (0x07, b'^')
    ∷ (0x08, b'&')
    ∷ (0x09, b'*')
    ∷ (0x0A, b'(')
    ∷ (0x0B, b')')
    ∷ (0x0C, b'_')
    ∷ (0x0D, b'+')
    ∷ (0x10, b'Q')
    ∷ (0x11, b'W')
    ∷ (0x12, b'E')
    ∷ (0x13, b'R')
    ∷ (0x14, b'T')
    ∷ (0x15, b'Y')
    ∷ (0x16, b'U')
    ∷ (0x17, b'I')
    ∷ (0x18, b'O')
    ∷ (0x19, b'P')
    ∷ (0x1A, b'{')
    ∷ (0x1B, b'}')
    ∷ (0x1E, b'A')
    ∷ (0x1F, b'S')
    ∷ (0x20, b'D')
    ∷ (0x21, b'F')
    ∷ (0x22, b'G')
    ∷ (0x23, b'H')
    ∷ (0x24, b'J')
    ∷ (0x25, b'K')
    ∷ (0x26, b'L')
    ∷ (0x27, b':')
    ∷ (0x28, 34)
    ∷ (0x29, b'~')
    ∷ (0x2C, b'Z')
    ∷ (0x2D, b'X')
    ∷ (0x2E, b'C')
    ∷ (0x2F, b'V')
    ∷ (0x30, b'B')
    ∷ (0x31, b'N')
    ∷ (0x32, b'M')
    ∷ (0x33, b'<')
    ∷ (0x34, b'>')
    ∷ (0x35, b'?')
    ∷ (0x39, b' ')
    ∷ (0x0E, 8)
    ∷ (0x1C, 10)
    ∷ (0x0F, 9)
    ∷ []

unfoldable pub key_map : ℕ → ℕ
unfolding switch
key_map = switch key_cases

unfoldable pub shift_map : ℕ → ℕ
unfolding switch
shift_map = switch shift_cases

-- The shift field after a key: the two shift keys set it to `!released`.
pub next_shift : ℕ → ℕ → ℕ → ℕ
next_shift shift sc released =
    if (sc == 42) || (sc == 54) then (if released == 0 then 1 else 0) else shift

-- The event that the handler builds from the shift field and the second byte that it reads.
pub event : ℕ → ℕ → ℕ → ℕ
event shift sc released =
    make_key_event (if shift == 0 then key_map sc else shift_map sc) sc
      (if shift == 0 then 0 else kmod_shift) (if released == 0 then 0 else kflag_release)

-- `global->buffer[global->head] = key` and the step of the head.
unfoldable pub enqueue : ℕ → GlobalData → GlobalData
enqueue key g = record g { buffer = store g.buffer g.head key; head = (g.head + 1) % 64 }

-- The two bytes are what the two reads of port 0x60 give; the first is not used.
unfoldable pub interrupt_handler : ℕ → ℕ → GlobalData → GlobalData
interrupt_handler scancode byte g =
    let released = bit_and byte 0x80 in
    let sc = bit_and byte 0x7F in
    let shift = next_shift g.shift sc released in
    enqueue (event shift sc released) (record g { shift = shift })

-- The module's storage after `bee_init`, which then registers the handler and unmasks its line.
pub init : GlobalData → GlobalData
init g = record g { head = 0; tail = 0; shift = 0 }

-- What is stored through `output`, and the new state.
pub get_key : GlobalData → ℕ × GlobalData
get_key g =
    if g.head == g.tail then (0, g) else (g.buffer g.tail, record g { tail = (g.tail + 1) % 64 })

pub is_there_data : GlobalData → ℕ
is_there_data g = if g.head == g.tail then 0 else 1
