-- ===== src/Interrupt.antt =====
-- bees/interrupt/itr.c and basicInterrupts.h, the interrupt module: the table of gates that the CPU
-- reads, the table of registered handlers, and the handler that every stub calls. The addresses of
-- the stubs (bees/interrupt/isr.asm) and of the basic handlers are the linker's and are parameters,
-- as is what `inb` reads.
pub mod Gates
pub mod Setup
pub mod Basic
pub mod Dispatch
mod Tests
use hive_rk.Prelude.{ℕ, zero, suc, ◌+◌, ◌-◌, ◌*◌, ◌/◌, ◌%◌, ◌^◌, ◌==◌, ltb, leb, ◌&&◌}
use hive_rk.Prelude.{
  if◌then◌else◌, store, List, [], ◌∷◌, ◌++◌, Bool, true, false, Option, none, some, ◌>>=◌,
}
use hive_rk.Ports.{Action, outb, invoke, load_idt, halt}
use hive_rk.Console.{sys_clear, sys_print}

-- idt_entry_t
pub record IdtEntry : Type 0 where
  pub offset_low : ℕ
  pub selector : ℕ
  pub zero_byte : ℕ
  pub flags : ℕ
  pub offset_high : ℕ

-- GlobalDataStruct without `idt_ptr`, which only the instruction that loads it reads.
pub record GlobalData : Type 0 where
  pub idt : ℕ → IdtEntry
  pub handler_functions : ℕ → ℕ

-- IDT_FLAG_PRESENT | IDT_FLAG_RING0 | IDT_FLAG_GATE_32BIT_INT
abbrev pub system_flags : ℕ
system_flags = 0x8E

-- A handler of 0 in both fields.
abbrev pub no_entry : IdtEntry
no_entry = record { offset_low = 0; selector = 0; zero_byte = 0; flags = 0; offset_high = 0 }

pub set_idt_gate : ℕ → ℕ → ℕ → GlobalData → GlobalData
set_idt_gate n handler flags global = record global {
  idt = store global.idt n (record {
    offset_low = handler % 2 ^ 16;
    selector = 0x08;
    zero_byte = 0;
    flags = flags;
    offset_high = handler / 2 ^ 16 % 2 ^ 16;
  });
}

-- The statements `set_idt_gate(global, n, core->baseAdr + stub, systemFlags)` for consecutive `n`.
pub install : ℕ → ℕ → (ℕ → ℕ) → ℕ → GlobalData → GlobalData
install zero n stub base global = global
install (suc count) n stub base global =
    install count (n + 1) stub base (set_idt_gate n ((base + stub n) % 2 ^ 32) system_flags global)

pub isr_install : (ℕ → ℕ) → ℕ → GlobalData → GlobalData
isr_install isr base global = install 32 0 isr base global

pub irq_install : (ℕ → ℕ) → ℕ → GlobalData → GlobalData
irq_install irq base global = install 16 32 (λ n. irq (n - 32)) base global

pub install_extra_isr : (ℕ → ℕ) → ℕ → GlobalData → GlobalData
install_extra_isr isr base global = install 208 48 isr base global

-- The loop of `idt_init`, from `i` on, in so many rounds.
pub wipe : ℕ → ℕ → GlobalData → GlobalData
wipe zero i global = global
wipe (suc n) i global = wipe n (i + 1) (record global {
  idt = store global.idt i no_entry;
  handler_functions = store global.handler_functions i 0;
})

-- The two masks are read first and written back last.
abbrev pub pic_remap : (ℕ → ℕ) → List Action
pic_remap inb =
    let a1 = inb 0x21 in
    let a2 = inb 0xA1 in
    outb 0x20 0x11
    ∷ outb 0xA0 0x11
    ∷ outb 0x21 0x20
    ∷ outb 0xA1 0x28
    ∷ outb 0x21 0x04
    ∷ outb 0xA1 0x02
    ∷ outb 0x21 0x01
    ∷ outb 0xA1 0x01
    ∷ outb 0x21 a1
    ∷ outb 0xA1 a2
    ∷ []

abbrev pub pic_mask_all : List Action
pic_mask_all = outb 0x21 0xFF ∷ outb 0xA1 0xFF ∷ []

-- The module's data, the interrupt flag of the CPU, memory, and what was done outside of them.
pub record Machine : Type 0 where
  pub global : GlobalData
  pub enabled : Bool
  pub mem : ℕ → ℕ
  pub trace : List Action

-- `table` is the address of `global->idt`; an entry has 8 bytes.
pub idt_init : (ℕ → ℕ) → (ℕ → ℕ) → (ℕ → ℕ) → ℕ → ℕ → Machine → Machine
idt_init inb isr irq base table m =
    let cleared = isr_install isr base (wipe 256 0 m.global) in
    record m {
      global = install_extra_isr isr base (irq_install irq base cleared);
      enabled = false;
      trace = m.trace ++ (pic_remap inb ++ (load_idt table (256 * 8 - 1) ∷ pic_mask_all));
    }

-- C tests no bound: with an id behind the table it writes outside of it, which is `none`.
unfoldable pub register_interrupt : ℕ → ℕ → ℕ → Machine → Option Machine
register_interrupt id flags handler m =
    let g = m.global in
    if ltb id 256
    then some (record m {
      global = record {
        idt = store g.idt id (record (g.idt id) { flags = flags % 2 ^ 8 });
        handler_functions = store g.handler_functions id handler;
      };
      enabled = true;
    })
    else none

-- The text in `UNHANDLED_INTERRUPT`, without the terminator.
abbrev pub unhandled_digits : ℕ → List ℕ
unhandled_digits i =
    if i == 0
    then b'0' ∷ []
    else (if ltb i 10
        then (i + b'0') ∷ []
        else (if ltb i 100
            then (i / 10 % 10 + b'0') ∷ (i % 10 + b'0') ∷ []
            else (i / 100 % 10 + b'0') ∷ (i / 10 % 10 + b'0') ∷ (i % 10 + b'0') ∷ []))

abbrev pub unhandled_front : List ℕ
unhandled_front =
    b'!' ∷ b' ' ∷ b'U' ∷ b'n' ∷ b'h' ∷ b'a' ∷ b'n' ∷ b'd' ∷ b'l' ∷ b'e' ∷ b'd' ∷ b' ' ∷ b'I' ∷ b'n'
    ∷ b't' ∷ b'e' ∷ b'r' ∷ b'r' ∷ b'u' ∷ b'p' ∷ b't' ∷ b':' ∷ b' ' ∷ []

abbrev pub unhandled_text : ℕ → List ℕ
unhandled_text i = unhandled_front ++ (unhandled_digits i ++ b' ' ∷ b'!' ∷ [])

pub unhandled_interrupt : ℕ → Machine → Machine
unhandled_interrupt i m = record m {
  mem = sys_print (unhandled_text i) 0 0 0x40 (sys_clear m.mem);
  trace = m.trace ++ halt ∷ [];
}

-- The acknowledgement: the second controller first for its own lines.
abbrev pub acknowledge : ℕ → List Action
acknowledge int_no =
    if ltb 31 int_no && ltb int_no 48
    then (if leb 40 int_no then outb 0xA0 0x20 ∷ outb 0x20 0x20 ∷ [] else outb 0x20 0x20 ∷ [])
    else []

-- A handler that was not registered is called too, at address 0, when the CPU wakes from `hlt`.
unfoldable pub isr_handler : ℕ → Machine → Machine
isr_handler int_no m =
    let handler = m.global.handler_functions int_no in
    let m1 = if handler == 0 then unhandled_interrupt int_no m else m in
    record m1 { trace = m1.trace ++ invoke handler ∷ acknowledge int_no }

-- `registerBASIC`: each goes through the core to `register_interrupt`, which the core calls with the
-- three arguments. A result of `none` of the first ends the chain.
pub register_basic : (ℕ → ℕ) → ℕ → Machine → Option Machine
register_basic handle base m = do
  let entry : ℕ → ℕ = λ n. (base + handle n) % 2 ^ 32
  m0 ← register_interrupt 0 system_flags (entry 0) m
  m3 ← register_interrupt 3 system_flags (entry 3) m0
  m6 ← register_interrupt 6 system_flags (entry 6) m3
  m8 ← register_interrupt 8 system_flags (entry 8) m6
  register_interrupt 13 system_flags (entry 13) m8

-- The setup behind the core's allocation of the module's data.
pub bee_init : (ℕ → ℕ) → (ℕ → ℕ) → (ℕ → ℕ) → (ℕ → ℕ) → ℕ → ℕ → Machine → Option Machine
bee_init inb isr irq handle base table m =
    register_basic handle base (record (idt_init inb isr irq base table m) { enabled = true })
