-- ===== src/Keyboard/Maps.antt =====
-- The two key maps of bees/keyboard/keyboard.c side by side.
use hive_rk.Prelude.{ℕ, ◌-◌, ◌<◌, ◌≡◌, refl, ◌==◌, leb, ◌&&◌, if◌then◌else◌}
use hive_rk.Prelude.Tables.{agree_below, agree_below→eq}
use hive_rk.Keyboard.{key_map, shift_map}

-- 1 where the map has a character.
abbrev pub has_char : ℕ → ℕ
has_char c = if c == 0 then 0 else 1

-- What shift makes of a lower-case letter.
abbrev pub upper : ℕ → ℕ
upper c = if leb b'a' c && leb c b'z' then c - 32 else 0

abbrev pub letter : ℕ → ℕ → ℕ
letter c d = if leb b'a' c && leb c b'z' then d else 0

-- Shift does not change which keys give a character, and it turns every letter into its capital.
pub shift_map_agrees :
    (sc : ℕ)
    → sc < 256
    → (has_char (shift_map sc) ≡ has_char (key_map sc))
      × (letter (key_map sc) (shift_map sc) ≡ upper (key_map sc))
unfolding agree_below key_map shift_map
shift_map_agrees sc lt = (
  agree_below→eq (λ s. has_char (shift_map s)) (λ s. has_char (key_map s)) 256 refl sc lt,
  agree_below→eq (λ s. letter (key_map s) (shift_map s)) (λ s. upper (key_map s)) 256 refl sc lt,
)
