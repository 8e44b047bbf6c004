-- ===== src/System.antt =====
-- bees/interrupt/itr.c with the two modules that register with it, bees/PIT/PIT.c and
-- bees/keyboard/keyboard.c: the whole of their `bee_init` behind the allocations, and an interrupt that
-- goes through the table of registered handlers to the module's own handler. The masks of the
-- interrupt controllers are hardware: that a line's interrupt comes is the caller's choice.
pub mod Routing
mod Tests
use hive_rk.Prelude.{ℕ, ◌+◌, ◌%◌, ◌^◌, ◌==◌, if◌then◌else◌, List, ◌++◌, Option, some, ◌>>=◌}
use hive_rk.Ports.{Action, pic_unmask_irq}
use hive_rk.Interrupt.{Machine, register_interrupt, isr_handler}
use hive_rk.Keyboard
use hive_rk.Pit

-- `calls` is what the timer's handler calls.
pub record System : Type 0 where
  pub machine : Machine
  pub keyboard : Keyboard.GlobalData
  pub timer : Pit.GlobalData
  pub calls : List Action

-- `core->baseAdr+(u32)interrupt_handler`
abbrev pub entry : ℕ → ℕ → ℕ
entry base handler = (base + handler) % 2 ^ 32

pub keyboard_init : (ℕ → ℕ) → ℕ → ℕ → System → Option System
keyboard_init inb base handler s = do
  m ← register_interrupt 33 0x8E (entry base handler) s.machine
  some (record s {
    machine = record m { trace = m.trace ++ pic_unmask_irq inb 1 };
    keyboard = Keyboard.init s.keyboard;
  })

pub timer_init : (ℕ → ℕ) → ℕ → ℕ → System → Option System
timer_init inb base handler s = do
  let frequency : ℕ = 100
  let written = record s.machine { trace = s.machine.trace ++ Pit.program frequency }
  m ← register_interrupt 32 0x8E (entry base handler) written
  some (record s {
    machine = record m { trace = m.trace ++ pic_unmask_irq inb 0 };
    timer = record { ticks = 0; tick_handler = 0; freq_hz = frequency };
  })

-- The routine at an address, where the two modules' handlers are at `timer` and `keyboard`; the bytes
-- are what the reads of port 0x60 give.
unfoldable pub routine : ℕ → ℕ → ℕ → ℕ → ℕ → System → System
routine timer keyboard address scancode sc s =
    let (timer_data, calls) = Pit.interrupt_handler s.timer in
    if address == timer
    then record s { timer = timer_data; calls = s.calls ++ calls }
    else (if address == keyboard
        then record s { keyboard = Keyboard.interrupt_handler scancode sc s.keyboard }
        else s)

-- An interrupt comes only where the CPU takes interrupts.
pub interrupt : ℕ → ℕ → ℕ → ℕ → ℕ → System → System
interrupt timer keyboard int_no scancode sc s =
    let address = s.machine.global.handler_functions int_no in
    let called = routine timer keyboard address scancode sc s in
    if s.machine.enabled then record called { machine = isr_handler int_no s.machine } else s
