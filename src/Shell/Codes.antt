-- ===== src/Shell/Codes.antt =====
-- queen/main.c, the scan codes of the control console.
use hive_rk.Prelude.{ℕ, ◌/◌, ◌%◌, ◌^◌, ◌==◌, if◌then◌else◌, List, [], ◌∷◌}
use hive_rk.Prelude.{◌<◌, ◌≡◌, refl}
use hive_rk.Prelude.Tables.{agree_below, agree_below→eq}
use hive_rk.Keyboard.{key_map}

-- `scancode_to_ascii`: 0 where the initializer says nothing.
abbrev pub scancode_entries : List (ℕ × ℕ)
scancode_entries =
    (0x02, b'1')
    ∷ (0x03, b'2')
    ∷ (0x04, b'3')
    ∷ (0x05, b'4')
    ∷ (0x06, b'5')
    ∷ (0x07, b'6')
    ∷ (0x08, b'7')
    ∷ (0x09, b'8')
    ∷ (0x0A, b'9')
    ∷ (0x0B, b'0')
    ∷ (0x0C, b'-')
    ∷ (0x0D, b'=')
    ∷ (0x1A, b'[')
    ∷ (0x1B, b']')
    ∷ (0x27, b';')
    ∷ (0x28, 39)
    ∷ (0x29, b'`')
    ∷ (0x2B, 92)
    ∷ (0x33, b',')
    ∷ (0x34, b'.')
    ∷ (0x35, b'/')
    ∷ (0x10, b'q')
    ∷ (0x11, b'w')
    ∷ (0x12, b'e')
    ∷ (0x13, b'r')
    ∷ (0x14, b't')
    ∷ (0x15, b'y')
    ∷ (0x16, b'u')
    ∷ (0x17, b'i')
    ∷ (0x18, b'o')
    ∷ (0x19, b'p')
    ∷ (0x1E, b'a')
    ∷ (0x1F, b's')
    ∷ (0x20, b'd')
    ∷ (0x21, b'f')
    ∷ (0x22, b'g')
    ∷ (0x23, b'h')
    ∷ (0x24, b'j')
    ∷ (0x25, b'k')
    ∷ (0x26, b'l')
    ∷ (0x2C, b'z')
    ∷ (0x2D, b'x')
    ∷ (0x2E, b'c')
    ∷ (0x2F, b'v')
    ∷ (0x30, b'b')
    ∷ (0x31, b'n')
    ∷ (0x32, b'm')
    ∷ (0x39, b' ')
    ∷ (0x1C, 10)
    ∷ (0x0E, 8)
    ∷ []

unfoldable pub entry : List (ℕ × ℕ) → ℕ → ℕ
entry [] sc = 0
entry ((code, char) ∷ rest) sc = if code == sc then char else entry rest sc

unfoldable pub scancode_to_char : ℕ → ℕ
unfolding entry
scancode_to_char sc = if sc / 2 ^ 7 % 2 == 1 then 0 else entry scancode_entries sc

-- The console gives the keys the characters that the keyboard module gives them without shift, and
-- none when a key is released; but tab, which only the module knows, and the backslash, which only
-- the console knows.
pub scancode_to_char_agrees :
    (sc : ℕ)
    → sc < 256
    → scancode_to_char sc ≡ (
        if sc == 0x0F
        then 0
        else (if sc == 0x2B then 92 else (if sc / 2 ^ 7 == 1 then 0 else key_map sc)))
unfolding agree_below scancode_to_char key_map
scancode_to_char_agrees sc lt =
    agree_below→eq scancode_to_char
      (λ s.
        if s == 0x0F
        then 0
        else (if s == 0x2B then 92 else (if s / 2 ^ 7 == 1 then 0 else key_map s)))
      256 refl sc lt
