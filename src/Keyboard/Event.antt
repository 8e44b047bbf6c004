-- ===== src/Keyboard/Event.antt =====
-- The fields of a key event of bees/keyboard/keyboard.c.
use hive_rk.Prelude.{ℕ, ◌+◌, ◌*◌, ◌/◌, ◌%◌, ◌^◌, ◌<◌, ◌≡◌, ◌≢◌, refl, arith, bit_and, ◌==◌}
use hive_rk.Prelude.{if◌then◌else◌, ◌⊎◌, ==_refl, ◌∙◌}
use hive_rk.Prelude.Bits.{bit_or_field, bit_and-ones}
use hive_rk.Prelude.Tables.{agree_below, agree_below→eq}
use hive_rk.Keyboard.{GlobalData, make_key_event, event, next_shift, interrupt_handler, enqueue}
use hive_rk.Keyboard.{key_map, shift_map}

pub make_key_event_sum :
    (ascii scancode mods flags : ℕ)
    → ascii < 256
    → scancode < 256
    → mods < 256
    → flags < 256
    → make_key_event ascii scancode mods flags
      ≡ ascii + scancode * 2 ^ 8 + mods * 2 ^ 16 + flags * 2 ^ 24
unfolding make_key_event
make_key_event_sum a s m f ha hs hm hf =
    let e1 = bit_or_field 8 a s ha in
    let e2 = bit_or_field 16 (a + s * 2 ^ 8) m (omega arith) in
    let e3 = bit_or_field 24 (a + s * 2 ^ 8 + m * 2 ^ 16) f (omega arith) in rw (e1, e2) e3

-- The four bytes of an event are the four arguments, in order from the lowest, and it fits 32 bits.
pub make_key_event_fields :
    (ascii scancode mods flags : ℕ)
    → ascii < 256
    → scancode < 256
    → mods < 256
    → flags < 256
    → let e = make_key_event ascii scancode mods flags in
      (e % 2 ^ 8 ≡ ascii)
      × (e / 2 ^ 8 % 2 ^ 8 ≡ scancode)
      × (e / 2 ^ 16 % 2 ^ 8 ≡ mods)
      × (e / 2 ^ 24 ≡ flags)
      × (e < 2 ^ 32)
make_key_event_fields a s m f ha hs hm hf = omega (arith, make_key_event_sum a s m f ha hs hm hf)

release_bit : (byte : ℕ) → byte < 256 → bit_and byte 0x80 ≡ byte / 128 * 128
unfolding agree_below
release_bit = agree_below→eq (λ b. bit_and b 0x80) (λ b. b / 128 * 128) 256 refl

key_map-lt : (sc : ℕ) → sc < 128 → key_map sc % 256 ≡ key_map sc
unfolding agree_below key_map
key_map-lt = agree_below→eq (λ sc. key_map sc % 256) key_map 128 refl

shift_map-lt : (sc : ℕ) → sc < 128 → shift_map sc % 256 ≡ shift_map sc
unfolding agree_below shift_map
shift_map-lt = agree_below→eq (λ sc. shift_map sc % 256) shift_map 128 refl

-- What one interrupt with the byte `byte` leaves: the shift field follows the two shift keys, the
-- event in the cell at the old head has the character, the scan code, the modifiers and the release
-- flag as its bytes, and the head steps round.
pub record Handles (byte : ℕ) (g g' : GlobalData) : Type 0 where
  pub shift_key :
      (byte % 128 ≡ 42) ⊎ (byte % 128 ≡ 54) → g'.shift ≡ (if byte / 128 == 0 then 1 else 0)
  pub other_key : byte % 128 ≢ 42 → byte % 128 ≢ 54 → g'.shift ≡ g.shift
  pub ascii :
      g'.buffer g.head % 2 ^ 8
      ≡ (if g'.shift == 0 then key_map (byte % 128) else shift_map (byte % 128))
  pub scancode : g'.buffer g.head / 2 ^ 8 % 2 ^ 8 ≡ byte % 128
  pub mods : g'.buffer g.head / 2 ^ 16 % 2 ^ 8 ≡ (if g'.shift == 0 then 0 else 1)
  pub flags : g'.buffer g.head / 2 ^ 24 ≡ byte / 128
  pub others : (i : ℕ) → i ≢ g.head → g'.buffer i ≡ g.buffer i
  pub head : g'.head ≡ (g.head + 1) % 64
  pub tail : g'.tail ≡ g.tail

shift_lem :
    (byte shift : ℕ)
    → byte < 256
    → let s = next_shift shift (byte % 128) (byte / 128 * 128) in
      ((byte % 128 ≡ 42) ⊎ (byte % 128 ≡ 54) → s ≡ (if byte / 128 == 0 then 1 else 0))
      × (byte % 128 ≢ 42 → byte % 128 ≢ 54 → s ≡ shift)
unfolding next_shift
shift_lem byte shift lt = (λ h. ground arith, λ a b. ground arith)

event_fields :
    (byte shift : ℕ)
    → byte < 256
    → let e = event shift (byte % 128) (byte / 128 * 128) in
      (e % 2 ^ 8 ≡ (if shift == 0 then key_map (byte % 128) else shift_map (byte % 128)))
      × (e / 2 ^ 8 % 2 ^ 8 ≡ byte % 128)
      × (e / 2 ^ 16 % 2 ^ 8 ≡ (if shift == 0 then 0 else 1))
      × (e / 2 ^ 24 ≡ byte / 128)
unfolding event
event_fields byte shift lt =
    let sc : ℕ = byte % 128 in
    let k = key_map-lt sc (omega arith) in
    let s = shift_map-lt sc (omega arith) in
    let flag : (if byte / 128 * 128 == 0 then 0 else 1) ≡ byte / 128 = ground arith in
    let f =
      make_key_event_fields (if shift == 0 then key_map sc else shift_map sc) sc
        (if shift == 0 then 0 else 1) (if byte / 128 * 128 == 0 then 0 else 1) (ground arith)
        (omega arith) (ground arith) (ground arith) in
    (f.0, f.1, f.2, f.3 ∙ flag)

-- Each interrupt stores the event of the byte that the second read of the port gives, whatever the
-- first read gives.
pub interrupt_handler-Handles :
    (scancode byte : ℕ) (g : GlobalData)
    → byte < 256
    → Handles byte g (interrupt_handler scancode byte g)
unfolding interrupt_handler enqueue
interrupt_handler-Handles scancode byte g lt =
    let s = shift_lem byte g.shift lt in
    let f = event_fields byte (next_shift g.shift (byte % 128) (byte / 128 * 128)) lt in
    rw (release_bit byte lt, bit_and-ones 7 byte)
      (record {
        shift_key = s.0;
        other_key = s.1;
        ascii = rw ==_refl f.0;
        scancode = rw ==_refl f.1;
        mods = rw ==_refl f.2;
        flags = rw ==_refl f.3;
        others = λ i ne. ground arith;
        head = refl;
        tail = refl;
      })
