-- ===== src/Display/Scroll.antt =====
-- Scrolling and clearing in bees/display/display.c, byte by byte.
use hive_rk.Prelude.{ℕ, zero, suc, ◌+◌, ◌*◌, ◌%◌, ◌≡◌, refl, ◌∙◌, ap, arith, ◌==◌}
use hive_rk.Prelude.{if◌then◌else◌, store, within, Bool-cases, inl, inr}
use hive_rk.Display.{Screen, video_address, default_color, shift_loop, blank_loop, shift_up}
use hive_rk.Display.{clear_loop, clear, set_cursor}

-- What a blank cell holds at an address of the screen: the character at even ones, else the colour.
abbrev pub blank : ℕ → ℕ
blank a = if a % 2 == 0 then b' ' else default_color

shift_step :
    (n s a : ℕ) (mem : ℕ → ℕ)
    → (if within (video_address + (s + 1)) n a
        then store mem (video_address + s) (mem (video_address + (s + 160))) (a + 160)
        else store mem (video_address + s) (mem (video_address + (s + 160))) a)
      ≡ (if within (video_address + s) (suc n) a then mem (a + 160) else mem a)
shift_step n s a mem = elim (Bool-cases (a == video_address + s)) [
  | inl e ↦
      let here : mem (a + 160) ≡ mem (video_address + (s + 160)) = ap mem (ground arith) in
      ground (arith, here)
  | inr ne ↦ ground arith
]

shift_loop_lem :
    (n s a : ℕ) (mem : ℕ → ℕ)
    → shift_loop n s mem a ≡ (if within (video_address + s) n a then mem (a + 160) else mem a)
unfolding shift_loop
shift_loop_lem zero s a mem = ground arith
shift_loop_lem (suc n) s a mem =
    shift_loop_lem n (s + 1) a (store mem (video_address + s) (mem (video_address + (s + 160))))
    ∙ shift_step n s a mem

blank_loop_lem :
    (n s a : ℕ) (mem : ℕ → ℕ)
    → blank_loop n s mem a
      ≡ (if within (video_address + 3840 + s * 2) (n * 2) a then blank a else mem a)
unfolding blank_loop
blank_loop_lem zero s a mem = ground arith
blank_loop_lem (suc n) s a mem = blank_loop_lem n (s + 1) a _ ∙ ground arith

-- `shiftUp` moves each of the 24 lower rows one row up, makes the last row blank, and changes no byte
-- outside the screen and not the cursor.
pub shift_up_lem :
    (s : Screen) (a : ℕ)
    → ((shift_up s).mem a ≡ (
        if within video_address 3840 a
        then s.mem (a + 160)
        else (if within (video_address + 3840) 160 a then blank a else s.mem a)))
      × ((shift_up s).cursor ≡ s.cursor)
unfolding shift_up
shift_up_lem s a = (
  blank_loop_lem 80 0 a (shift_loop 3840 0 s.mem) ∙ ground (arith, shift_loop_lem 3840 0 a s.mem),
  refl,
)

clear_loop_lem :
    (n i a : ℕ) (mem : ℕ → ℕ)
    → clear_loop n i mem a ≡ (if within (video_address + i * 2) (n * 2) a then blank a else mem a)
unfolding clear_loop
clear_loop_lem zero i a mem = ground arith
clear_loop_lem (suc n) i a mem = clear_loop_lem n (i + 1) a _ ∙ ground arith

-- `clear` makes every cell of the screen blank, puts the cursor home and changes nothing else.
pub clear_lem :
    (s : Screen) (a : ℕ)
    → ((clear s).mem a ≡ (if within video_address 4000 a then blank a else s.mem a))
      × ((clear s).cursor ≡ 0)
unfolding clear set_cursor
clear_lem s a = (clear_loop_lem 2000 0 a s.mem, refl)
