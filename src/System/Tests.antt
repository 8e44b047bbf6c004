-- ===== src/System/Tests.antt =====
-- Interrupts through the table of bees/interrupt/itr.c at concrete inputs.
use hive_rk.Prelude.{true, false, ◌==◌, if◌then◌else◌, ◌≡◌, refl, arith, List, [], ◌∷◌, some, ◌>>=◌}
use hive_rk.Ports.{outb, invoke}
use hive_rk.Interrupt.{no_entry, isr_handler}
use hive_rk.Keyboard
use hive_rk.Pit
use hive_rk.System.{System, keyboard_init, timer_init, routine, interrupt}
use hive_rk.System.Routing.{Event, tick, key, deliver, Delivers, deliver-Delivers}

abbrev fresh : System
fresh = record {
  machine = record {
    global = record { idt = λ i. no_entry; handler_functions = λ i. 0 };
    enabled = false;
    mem = λ a. 7;
    trace = [];
  };
  keyboard = record { buffer = λ i. 0; head = 5; tail = 3; shift = 1 };
  timer = record { ticks = 9; tick_handler = 0; freq_hz = 0 };
  calls = [];
}

-- The handlers of both modules are registered.
abbrev wired : System
wired = record fresh {
  machine = record fresh.machine {
    global = record fresh.machine.global {
      handler_functions = λ i. if i == 32 then 0x20040 else (if i == 33 then 0x30080 else 0);
    };
    enabled = true;
  };
}

-- Two ticks around the key A.
abbrev events : List Event
events = tick ∷ key 0 0x1E ∷ tick ∷ []

events_run :
    ((deliver 0x20040 0x30080 events wired).timer.ticks ≡ 11)
    × ((deliver 0x20040 0x30080 events wired).keyboard.head ≡ 6)
    × ((deliver 0x20040 0x30080 events wired).machine.trace
        ≡ invoke 0x20040
          ∷ outb 0x20 0x20
          ∷ invoke 0x30080
          ∷ outb 0x20 0x20
          ∷ invoke 0x20040
          ∷ outb 0x20 0x20
          ∷ [])
unfolding interrupt routine isr_handler Pit.interrupt_handler Keyboard.interrupt_handler
    Keyboard.enqueue
events_run = (refl, refl, refl)

deliver-Delivers_example :
    (s' : System) × ((timer_init (λ p. 0xFF) 0x20000 0x40 fresh
        >>= keyboard_init (λ p. 0xFF) 0x30000 0x80)
      ≡ some s')
    × (s'.timer.ticks ≡ 0)
    × (s'.keyboard ≡ Keyboard.init fresh.keyboard)
    × Delivers events s' (deliver 0x20040 0x30080 events s')
deliver-Delivers_example =
    deliver-Delivers (λ p. 0xFF) 0x20000 0x40 0x30000 0x80 events fresh (omega arith) (omega arith)
      (omega arith)
