-- ===== src/System/Routing.antt =====
-- Which module an interrupt reaches after the inits of bees/PIT/PIT.c and bees/keyboard/keyboard.c.
use hive_rk.Prelude.{◌<◌, ℕ, suc, ◌+◌, ◌%◌, ◌^◌, ◌≡◌, ◌≢◌, refl, ◌∙◌, arith}
use hive_rk.Prelude.{◌==◌, ◌&&◌, inl, inr, Bool-cases, ==_ne}
use hive_rk.Prelude.{true, false, List, [], ◌∷◌, ◌++◌, length, some, ◌>>=◌}
use hive_rk.Ports.{Action, outb, invoke, load_idt, halt}
use hive_rk.Interrupt.{Machine, register_interrupt, isr_handler, acknowledge}
use hive_rk.Interrupt.Dispatch.{acknowledged}
use hive_rk.Keyboard
use hive_rk.Pit
use hive_rk.System.{System, entry, keyboard_init, timer_init, routine, interrupt}

-- The timer's interrupt, or the keyboard's with the two bytes that its handler reads.
pub data Event : Type 0 where
  tick : Event
  key : ℕ → ℕ → Event

abbrev pub deliver : ℕ → ℕ → List Event → System → System
deliver timer keyboard [] s = s
deliver timer keyboard (tick ∷ es) s = deliver timer keyboard es (interrupt timer keyboard 32 0 0 s)
deliver timer keyboard (key a b ∷ es) s =
    deliver timer keyboard es (interrupt timer keyboard 33 a b s)

-- The ticks alone, and the keys alone.
abbrev pub ticks_in : List Event → ℕ
ticks_in [] = 0
ticks_in (tick ∷ es) = suc (ticks_in es)
ticks_in (key a b ∷ es) = ticks_in es

abbrev pub keys_in : List Event → Keyboard.GlobalData → Keyboard.GlobalData
keys_in [] g = g
keys_in (tick ∷ es) g = keys_in es g
keys_in (key a b ∷ es) g = keys_in es (Keyboard.interrupt_handler a b g)

acknowledged-append :
    (port : ℕ) (xs ys : List Action)
    → acknowledged port (xs ++ ys) ≡ acknowledged port xs + acknowledged port ys
acknowledged-append port [] ys = omega arith
acknowledged-append port (outb p b ∷ xs) ys = elim (Bool-cases (p == port && b == 0x20)) [
  | inl end ↦ rw end (omega (arith, acknowledged-append port xs ys))
  | inr other ↦ rw other (acknowledged-append port xs ys)
]
acknowledged-append port (invoke f ∷ xs) ys = acknowledged-append port xs ys
acknowledged-append port (load_idt b l ∷ xs) ys = acknowledged-append port xs ys
acknowledged-append port (halt ∷ xs) ys = acknowledged-append port xs ys

-- The handlers of the two vectors are the modules', and interrupts are enabled.
record Wired (timer keyboard : ℕ) (m : Machine) : Type 0 where
  timer_line : m.global.handler_functions 32 ≡ timer
  keyboard_line : m.global.handler_functions 33 ≡ keyboard
  enabled : m.enabled ≡ true

-- What the events leave of a system: the data of both modules, the acknowledgements, and memory.
pub record Delivers (events : List Event) (before after : System) : Type 0 where
  pub ticks : Pit.get_ticks after.timer ≡ (before.timer.ticks + ticks_in events) % 2 ^ 32
  pub keys : after.keyboard ≡ keys_in events before.keyboard
  pub ends :
      acknowledged 0x20 after.machine.trace ≡ acknowledged 0x20 before.machine.trace + length events
  pub memory : after.machine.mem ≡ before.machine.mem

-- A machine after an interrupt whose handler is registered.
abbrev called : ℕ → ℕ → Machine → Machine
called handler int_no m = record m { trace = m.trace ++ invoke handler ∷ acknowledge int_no }

isr_handler-called :
    (int_no handler : ℕ) (m : Machine)
    → m.global.handler_functions int_no ≡ handler
    → handler ≢ 0
    → isr_handler int_no m ≡ called handler int_no m
unfolding isr_handler
isr_handler-called int_no handler m e ne =
    let h : (handler == 0) ≡ false = ==_ne handler 0 ne in rw (e, h) refl

interrupt_tick :
    (timer keyboard : ℕ) (s : System)
    → timer ≢ 0
    → Wired timer keyboard s.machine
    → interrupt timer keyboard 32 0 0 s ≡ record s {
      machine = called timer 32 s.machine;
      timer = (Pit.interrupt_handler s.timer).0;
      calls = s.calls ++ (Pit.interrupt_handler s.timer).1;
    }
unfolding interrupt routine
interrupt_tick timer keyboard s ne wired =
    let self : (timer == timer) ≡ true = ground arith in
    rw (isr_handler-called 32 timer s.machine wired.timer_line ne, wired.timer_line, self)
      (rw wired.enabled refl)

interrupt_key :
    (timer keyboard a b : ℕ) (s : System)
    → timer ≢ keyboard
    → keyboard ≢ 0
    → Wired timer keyboard s.machine
    → interrupt timer keyboard 33 a b s ≡ record s {
      machine = called keyboard 33 s.machine;
      keyboard = Keyboard.interrupt_handler a b s.keyboard;
    }
unfolding interrupt routine
interrupt_key timer keyboard a b s apart ne wired =
    let self : (keyboard == keyboard) ≡ true = ground arith in
    let other : (keyboard == timer) ≡ false = ground arith in
    rw (isr_handler-called 33 keyboard s.machine wired.keyboard_line ne)
      (rw (wired.keyboard_line, other, self) (rw wired.enabled refl))

deliver_lem :
    (timer keyboard : ℕ) (events : List Event) (s : System)
    → timer ≢ keyboard
    → timer ≢ 0
    → keyboard ≢ 0
    → s.timer.ticks < 2 ^ 32
    → Wired timer keyboard s.machine
    → Delivers events s (deliver timer keyboard events s)
unfolding Pit.get_ticks Pit.interrupt_handler
deliver_lem timer keyboard [] s apart t0 k0 small wired = record {
  ticks = omega arith;
  keys = refl;
  ends = omega arith;
  memory = refl;
}
deliver_lem timer keyboard (tick ∷ es) s apart t0 k0 small wired =
    let s' : System = record s {
      machine = called timer 32 s.machine;
      timer = (Pit.interrupt_handler s.timer).0;
      calls = s.calls ++ (Pit.interrupt_handler s.timer).1;
    } in
    let w : Wired timer keyboard s'.machine = record {
      timer_line = wired.timer_line;
      keyboard_line = wired.keyboard_line;
      enabled = wired.enabled;
    } in
    let rest = deliver_lem timer keyboard es s' apart t0 k0 (omega arith) w in
    let end = acknowledged-append 0x20 s.machine.trace (invoke timer ∷ acknowledge 32) in
    rw (interrupt_tick timer keyboard s t0 wired) (record {
      ticks = rest.ticks ∙ omega arith;
      keys = rest.keys;
      ends = omega (arith, rest.ends, end);
      memory = rest.memory;
    })
deliver_lem timer keyboard (key a b ∷ es) s apart t0 k0 small wired =
    let s' : System = record s {
      machine = called keyboard 33 s.machine;
      keyboard = Keyboard.interrupt_handler a b s.keyboard;
    } in
    let w : Wired timer keyboard s'.machine = record {
      timer_line = wired.timer_line;
      keyboard_line = wired.keyboard_line;
      enabled = wired.enabled;
    } in
    let rest = deliver_lem timer keyboard es s' apart t0 k0 small w in
    let end = acknowledged-append 0x20 s.machine.trace (invoke keyboard ∷ acknowledge 33) in
    rw (interrupt_key timer keyboard a b s apart k0 wired) (record {
      ticks = rest.ticks;
      keys = rest.keys;
      ends = omega (arith, rest.ends, end);
      memory = rest.memory;
    })

-- After the `bee_init` of the timer and then of the keyboard module, with their handlers at two
-- addresses that are not 0, each of any sequence of timer and key interrupts reaches its own module
-- alone: the timer has counted the ticks modulo 2 ^ 32 and the keyboard holds what its handler makes of
-- the keys in their order. The first controller is told the end of each interrupt once, and memory stays.
pub deliver-Delivers :
    (inb : ℕ → ℕ) (base_t handler_t base_k handler_k : ℕ) (events : List Event) (s : System)
    → entry base_t handler_t ≢ entry base_k handler_k
    → entry base_t handler_t ≢ 0
    → entry base_k handler_k ≢ 0
    → (s' : System) × ((timer_init inb base_t handler_t s >>= keyboard_init inb base_k handler_k)
        ≡ some s')
      × (s'.timer.ticks ≡ 0)
      × (s'.keyboard ≡ Keyboard.init s.keyboard)
      × Delivers events s' (deliver (entry base_t handler_t) (entry base_k handler_k) events s')
unfolding timer_init keyboard_init register_interrupt
deliver-Delivers inb base_t handler_t base_k handler_k events s apart t0 k0 = (
  _,
  refl,
  refl,
  refl,
  deliver_lem (entry base_t handler_t) (entry base_k handler_k) events _ apart t0 k0 (omega arith)
      (record { timer_line = refl; keyboard_line = refl; enabled = refl }),
)
