-- ===== src/Interrupt/Tests.antt =====
-- Runs of bees/interrupt/itr.c, and its theorems at concrete inputs.
use hive_rk.Prelude.{ℕ, ◌+◌, ◌*◌, ◌%◌, ◌^◌, ◌<◌, ◌≡◌, ◌≢◌, refl, arith, if◌then◌else◌}
use hive_rk.Prelude.{true, [], ◌∷◌, ◌++◌, some}
use hive_rk.Ports.{outb, invoke, halt}
use hive_rk.Interrupt.{GlobalData, Machine, no_entry, system_flags, idt_init, register_interrupt}
use hive_rk.Interrupt.{bee_init, isr_handler, acknowledge}
use hive_rk.Interrupt.Gates.{IsGate, vector_stub}
use hive_rk.Interrupt.Setup.{is_basic, bee_init_lem}
use hive_rk.Interrupt.Dispatch.{acknowledged, isr_handler-register_interrupt}

abbrev junk : Machine
junk = record {
  global = record { idt = λ i. no_entry; handler_functions = λ i. 0 };
  enabled = true;
  mem = λ a. 7;
  trace = [];
}

-- An interrupt of the keyboard's line, with and without a handler.
keyboard_runs :
    ((isr_handler 33 (record junk {
      global = record { idt = λ i. no_entry; handler_functions = λ i. 0x5000 };
    })).trace
      ≡ invoke 0x5000 ∷ outb 0x20 0x20 ∷ [])
    × ((isr_handler 44 junk).trace ≡ halt ∷ invoke 0 ∷ outb 0xA0 0x20 ∷ outb 0x20 0x20 ∷ [])
unfolding isr_handler hive_rk.Interrupt.unhandled_interrupt
keyboard_runs = (refl, refl)

bee_init_lem_example :
    (m' : Machine) × (bee_init
        (λ p. 0xB8)
        (λ n. n * 16)
        (λ n. n * 16 + 8)
        (λ n. n)
        0x10000
        0x9000
        junk
      ≡ some m')
    × (m'.enabled ≡ true)
    × ((i : ℕ)
        → i < 256
        → IsGate
            ((0x10000 + vector_stub (λ n. n * 16) (λ n. n * 16 + 8) i) % 2 ^ 32)
            system_flags
            (m'.global.idt i)
          × (m'.global.handler_functions i ≡ (if is_basic i then (0x10000 + i) % 2 ^ 32 else 0)))
bee_init_lem_example =
    bee_init_lem (λ p. 0xB8) (λ n. n * 16) (λ n. n * 16 + 8) (λ n. n) 0x10000 0x9000 junk

isr_handler-register_interrupt_example :
    (m' : Machine) × (register_interrupt 40 0x8E 0x5000 junk ≡ some m')
    × (m'.enabled ≡ true)
    × ((isr_handler 40 m').trace ≡ [] ++ invoke 0x5000 ∷ acknowledge 40)
    × ((isr_handler 40 m').mem ≡ junk.mem)
    × (acknowledged 0x20 (acknowledge 40) ≡ 1)
    × (acknowledged 0xA0 (acknowledge 40) ≡ 1)
    × ((j : ℕ) → j ≢ 40 → (isr_handler j m').trace ≡ (isr_handler j junk).trace)
isr_handler-register_interrupt_example =
    isr_handler-register_interrupt 40 0x8E 0x5000 junk (omega arith) (omega arith)
