-- ===== src/Pit.antt =====
-- bees/PIT/PIT.c, the timer module: a count of ticks, a function that each tick calls, and the rate of
-- the timer chip. The tables of the interrupt module and the ports are models of their own.
pub mod Ticks
pub mod Rate
mod Tests
use hive_rk.Prelude.{ℕ, zero, suc, ◌+◌, ◌-◌, ◌*◌, ◌/◌, ◌%◌, ◌^◌, ◌==◌, ltb, if◌then◌else◌}
use hive_rk.Prelude.{List, [], ◌∷◌, ◌++◌, Option, none, some}
use hive_rk.Ports.{Action, outb, invoke, pic_unmask_irq}

abbrev pub pit_frequency : ℕ
pit_frequency = 1193182

-- `tick_handler` is 0 for none.
pub record GlobalData : Type 0 where
  pub ticks : ℕ
  pub tick_handler : ℕ
  pub freq_hz : ℕ

unfoldable pub interrupt_handler : GlobalData → GlobalData × List Action
interrupt_handler global = (
  record global { ticks = (global.ticks + 1) % 2 ^ 32 },
  if global.tick_handler == 0 then [] else invoke global.tick_handler ∷ [],
)

-- The divisor of 16 bits, and the three writes that set it.
unfoldable pub program : ℕ → List Action
program frequency =
    let divisor = pit_frequency / frequency % 2 ^ 16 in
    outb 0x43 0x36 ∷ outb 0x40 (divisor % 2 ^ 8) ∷ outb 0x40 (divisor / 2 ^ 8) ∷ []

-- `bee_init` behind the allocation. The registration of the handler for vector 32, which stands
-- between the writes, is the interrupt module's.
pub init : (ℕ → ℕ) → GlobalData × List Action
init inb =
    let frequency : ℕ = 100 in
    (
      record { ticks = 0; tick_handler = 0; freq_hz = frequency },
      program frequency ++ pic_unmask_irq inb 0,
    )

-- The sum and the product are of uint32_t.
unfoldable pub target_ticks : ℕ → GlobalData → ℕ
target_ticks ms global = (global.ticks + global.freq_hz * ms % 2 ^ 32 / 1000) % 2 ^ 32

-- `while(global->ticks < target_ticks)`: only an interrupt changes the count, and there are at most
-- `fuel` of them. The result is what is left of the fuel and the data.
pub wait : ℕ → ℕ → GlobalData → Option (ℕ × GlobalData)
wait zero target global = if ltb global.ticks target then none else some (0, global)
wait (suc fuel) target global =
    let rest = wait fuel target (interrupt_handler global).0 in
    if ltb global.ticks target then rest else some (suc fuel, global)

pub sleep : ℕ → ℕ → GlobalData → Option (ℕ × GlobalData)
sleep fuel ms global = wait fuel (target_ticks ms global) global

pub register_handler : ℕ → GlobalData → GlobalData
register_handler handler global = record global { tick_handler = handler }

unfoldable pub get_ticks : GlobalData → ℕ
get_ticks global = global.ticks

-- A frequency of 0 is stored, and then the division raises the CPU's divide error: `none`.
pub set_frequency : ℕ → GlobalData → Option (GlobalData × List Action)
set_frequency frequency global =
    if frequency == 0 then none else some (record global { freq_hz = frequency }, program frequency)
