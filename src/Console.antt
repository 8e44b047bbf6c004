-- ===== src/Console.antt =====
-- The text output in bees/interrupt/basicInterrupts.h, which queen/main.c repeats: it needs no other
-- module. Memory holds the VGA cells from 0xb8000 on.
pub mod Numbers
pub mod Layout
mod Tests
use hive_rk.Prelude.{ℕ, zero, suc, ◌+◌, ◌-◌, ◌*◌, ◌/◌, ◌%◌, ◌^◌, ◌==◌, ltb, bit_and, bit_or}
use hive_rk.Prelude.{if◌then◌else◌, store, List, [], ◌∷◌, ◌++◌, Option, none, some, ◌>>=◌}
use hive_rk.Util.{peel, decimal, rounds, negative, negate, signed_temp, copied}

abbrev pub vidmem : ℕ
vidmem = 0xb8000

-- The loop that clears the screen, from byte `s` on, in so many rounds.
pub clear_from : ℕ → ℕ → (ℕ → ℕ) → ℕ → ℕ
clear_from zero s mem = mem
clear_from (suc n) s mem = clear_from n (s + 1) (store mem (vidmem + s) 0)

pub sys_clear : (ℕ → ℕ) → ℕ → ℕ
sys_clear mem = clear_from 4000 0 mem

-- `SYSprint` swaps the halves of its colour byte.
unfoldable pub swapped : ℕ → ℕ
swapped color = bit_or (bit_and (color / 2 ^ 4) 0xF) (bit_and (color * 2 ^ 4) 0xF0)

-- The loop of `SYSprint`: `vp` and `nl` are its local variables, the colour is swapped.
pub print_from : ℕ → ℕ → ℕ → ℕ → ℕ → List ℕ → (ℕ → ℕ) → ℕ → ℕ
print_from x y color vp nl [] mem = mem
print_from x y color vp nl (c ∷ str) mem =
    if c == 10
    then print_from x y color (160 * y + x * 2 + (nl + 1) * 160) (nl + 1) str mem
    else print_from x y color (vp + 2) nl str
        (store (store mem (vidmem + vp) c) (vidmem + (vp + 1)) color)

pub sys_print : List ℕ → ℕ → ℕ → ℕ → (ℕ → ℕ) → ℕ → ℕ
sys_print str x y color mem = print_from x y (swapped color) (160 * y + x * 2) 0 str mem

-- `int_to_hex_string` has its own digits.
abbrev pub letter_digit : ℕ → ℕ
letter_digit digit = if ltb digit 10 then digit + b'0' else digit - 10 + b'A'

-- The loop over the digits: it has no round for a number that is still negative.
unfoldable pub digits : ℕ → (ℕ → ℕ) → ℕ → Option (List ℕ)
digits base digit num = if negative num then some [] else peel base digit rounds num []

-- `int_to_string` and `int_to_hex_string`, which differ in the base and its digits.
pub number_to_string : ℕ → (ℕ → ℕ) → ℕ → Option (List ℕ)
number_to_string base digit num =
    if num == 0
    then some (b'0' ∷ 0 ∷ [])
    else (let n = if negative num then negate num else num in
        copied (signed_temp (negative num) (digits base digit n)))

pub int_to_string : ℕ → Option (List ℕ)
int_to_string num = number_to_string 10 decimal num

pub int_to_hex_string : ℕ → Option (List ℕ)
int_to_hex_string num = number_to_string 16 letter_digit num

-- What is printed of a buffer: the bytes in front of its first 0.
unfoldable pub before_nul : List ℕ → List ℕ
before_nul [] = []
before_nul (c ∷ text) = if c == 0 then [] else c ∷ before_nul text

-- `SYSprintI` and `SYSprintX`; `none` is a number that is not written.
unfoldable pub sys_print_i : ℕ → ℕ → ℕ → ℕ → (ℕ → ℕ) → Option (ℕ → ℕ)
sys_print_i num x y color mem = do
  text ← int_to_string num
  some (sys_print (before_nul text) x y color mem)

unfoldable pub sys_print_x : ℕ → ℕ → ℕ → ℕ → (ℕ → ℕ) → Option (ℕ → ℕ)
sys_print_x num x y color mem = do
  text ← int_to_hex_string num
  some (sys_print (before_nul text) x y color mem)

-- The loop of the core's `printERR`, from byte `vp` of the screen on.
pub print_err_from : ℕ → List ℕ → (ℕ → ℕ) → ℕ → ℕ
print_err_from vp [] mem = mem
print_err_from vp (c ∷ str) mem =
    print_err_from (vp + 2) str (store (store mem (vidmem + vp) c) (vidmem + (vp + 1)) 4)

pub print_err : List ℕ → ℕ → (ℕ → ℕ) → ℕ → ℕ
print_err str y mem = print_err_from (160 * y) str mem
