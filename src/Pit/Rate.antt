-- ===== src/Pit/Rate.antt =====
-- The rate that bees/PIT/PIT.c sets.
use hive_rk.Prelude.{ℕ, ◌+◌, ◌*◌, ◌/◌, ◌%◌, ◌^◌, ◌≤◌, ◌<◌, ◌≡◌, refl, arith, ◌==◌, if◌then◌else◌}
use hive_rk.Prelude.{false, leb, List, [], ◌∷◌, Option, some}
use hive_rk.Prelude.Tables.{agree_below, agree_below→eq}
use hive_rk.Ports.{Action, outb}
use hive_rk.Pit.{GlobalData, pit_frequency, program, set_frequency}
use native.Mathlib.Nat.{le-div_iff_mul-le, div-lt_iff_lt-mul, div-mul-le_self, mul_comm}

-- What `set_frequency` writes to the chip: the command, then the low and the high byte of a divisor.
pub record Sets (f divisor : ℕ) (out : Option (GlobalData × List Action)) (before : GlobalData)
    : Type 0 where
  pub low : ℕ
  pub high : ℕ
  pub writes :
      out
      ≡ some (record before { freq_hz = f }, outb 0x43 0x36 ∷ outb 0x40 low ∷ outb 0x40 high ∷ [])
  pub low_byte : low < 256
  pub high_byte : high < 256
  pub value : low + high * 256 ≡ divisor

sets_lem :
    (f : ℕ) (global : GlobalData)
    → 1 ≤ f
    → Sets f (pit_frequency / f % 2 ^ 16) (set_frequency f global) global
unfolding set_frequency program
sets_lem f global pos =
    let t : (f == 0) ≡ false = ground arith in
    let divisor = pit_frequency / f % 2 ^ 16 in
    record {
      low = divisor % 2 ^ 8;
      high = divisor / 2 ^ 8;
      writes = rw t;
      low_byte = omega arith;
      high_byte = omega arith;
      value = omega arith;
    }

-- From 19 Hz to the chip's own frequency the divisor fits its 16 bits: `set_frequency` stores the rate,
-- writes the divisor's low and high byte, and the chip's frequency over that divisor is no lower than
-- the rate.
pub set_frequency-Sets :
    (f : ℕ) (global : GlobalData)
    → 19 ≤ f
    → f ≤ pit_frequency
    → Sets f (pit_frequency / f) (set_frequency f global) global
      × (f ≤ pit_frequency / (pit_frequency / f))
set_frequency-Sets f global low high =
    let pos : 1 ≤ pit_frequency / f = (le-div_iff_mul-le (omega arith)).1 (omega arith) in
    let fits : pit_frequency / f < 2 ^ 16 = (div-lt_iff_lt-mul (omega arith)).1 (omega arith) in
    let cut : pit_frequency / f % 2 ^ 16 ≡ pit_frequency / f = omega arith in
    (
      rw cut at (sets_lem f global (omega arith)),
      (le-div_iff_mul-le pos).1
          (omega (arith, mul_comm (pit_frequency / f) f, div-mul-le_self pit_frequency f)),
    )

abbrev not_cut : ℕ → ℕ
not_cut f =
    if f == 0 then 0 else (if leb (pit_frequency / f) (pit_frequency / f % 2 ^ 16) then 1 else 0)

not_cut_below : (f : ℕ) → f < 19 → not_cut f ≡ 0
unfolding agree_below
not_cut_below = agree_below→eq not_cut (λ f. 0) 19 refl

-- Below 19 Hz, 0 excepted, the divisor does not fit: its low 16 bits are written, which are a smaller
-- divisor, but the rate that `sleep` counts with is the one that was asked for.
pub set_frequency_cut :
    (f : ℕ) (global : GlobalData)
    → 1 ≤ f
    → f < 19
    → Sets f (pit_frequency / f % 2 ^ 16) (set_frequency f global) global
      × (pit_frequency / f % 2 ^ 16 < pit_frequency / f)
set_frequency_cut f global pos lt = (sets_lem f global pos, ground (arith, not_cut_below f lt))
