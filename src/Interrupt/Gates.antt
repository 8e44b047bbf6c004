-- ===== src/Interrupt/Gates.antt =====
-- The gates that bees/interrupt/itr.c installs.
use hive_rk.Prelude.{ℕ, zero, suc, ◌+◌, ◌-◌, ◌*◌, ◌/◌, ◌%◌, ◌^◌, ◌<◌, ◌≡◌, refl, ◌∙◌, ap, arith}
use hive_rk.Prelude.{◌==◌, if◌then◌else◌, inl, inr, Bool-cases, store, within, true, false}
use hive_rk.Interrupt.{IdtEntry, GlobalData, system_flags, no_entry, set_idt_gate, install, wipe}
use hive_rk.Interrupt.{isr_install, irq_install, install_extra_isr}

-- A present 32-bit interrupt gate of the kernel's code segment, with the CPU's reading of the address.
abbrev pub IsGate : ℕ → ℕ → IdtEntry → Type 0
IsGate handler flags e =
    (e.offset_low + e.offset_high * 2 ^ 16 ≡ handler)
    × (e.selector ≡ 8)
    × (e.zero_byte ≡ 0)
    × (e.flags ≡ flags)

abbrev pub gate : ℕ → IdtEntry
gate handler = record {
  offset_low = handler % 2 ^ 16;
  selector = 0x08;
  zero_byte = 0;
  flags = system_flags;
  offset_high = handler / 2 ^ 16 % 2 ^ 16;
}

pub gate-IsGate : (handler : ℕ) → handler < 2 ^ 32 → IsGate handler system_flags (gate handler)
gate-IsGate handler lt = (omega arith, refl, refl, refl)

install_lem :
    (count n base i : ℕ) (stub : ℕ → ℕ) (g : GlobalData)
    → ((install count n stub base g).idt i
        ≡ (if within n count i then gate ((base + stub i) % 2 ^ 32) else g.idt i))
      × ((install count n stub base g).handler_functions ≡ g.handler_functions)
unfolding install set_idt_gate
install_lem zero n base i stub g = (ground arith, refl)
install_lem (suc count) n base i stub g =
    let next = set_idt_gate n ((base + stub n) % 2 ^ 32) system_flags g in
    let (idt, handlers) = install_lem count (n + 1) base i stub next in
    (
      idt ∙ elim (Bool-cases (n == i)) [
        | inl here ↦
            let e : n ≡ i = ground arith in
            let behind : within (n + 1) count i ≡ false = ground arith in
            let within' : within n (suc count) i ≡ true = ground arith in
            rw (behind, within', here) (ap (λ k. gate ((base + stub k) % 2 ^ 32)) e)
        | inr other ↦ ground arith
      ],
      handlers,
    )

wipe_lem :
    (count n i : ℕ) (g : GlobalData)
    → ((wipe count n g).idt i ≡ (if within n count i then no_entry else g.idt i))
      × ((wipe count n g).handler_functions i
          ≡ (if within n count i then 0 else g.handler_functions i))
unfolding wipe
wipe_lem zero n i g = (ground arith, ground arith)
wipe_lem (suc count) n i g =
    let next : GlobalData = record {
      idt = store g.idt n no_entry;
      handler_functions = store g.handler_functions n 0;
    } in
    let (idt, handlers) = wipe_lem count (n + 1) i next in
    (idt ∙ ground arith, handlers ∙ ground arith)

-- The stub of a vector.
abbrev pub vector_stub : (ℕ → ℕ) → (ℕ → ℕ) → ℕ → ℕ
vector_stub isr irq i = if within 32 16 i then irq (i - 32) else isr i

-- The tables after the four loops of `idt_init`.
abbrev pub set_up : (ℕ → ℕ) → (ℕ → ℕ) → ℕ → GlobalData → GlobalData
set_up isr irq base g =
    install_extra_isr isr base (irq_install irq base (isr_install isr base (wipe 256 0 g)))

pub set_up_lem :
    (isr irq : ℕ → ℕ) (base i : ℕ) (g : GlobalData)
    → i < 256
    → ((set_up isr irq base g).idt i ≡ gate ((base + vector_stub isr irq i) % 2 ^ 32))
      × ((set_up isr irq base g).handler_functions i ≡ 0)
unfolding install_extra_isr irq_install isr_install
set_up_lem isr irq base i g lt =
    let wiped = wipe 256 0 g in
    let one = install 32 0 isr base wiped in
    let two = install 16 32 (λ n. irq (n - 32)) base one in
    let (a, ha) = install_lem 32 0 base i isr wiped in
    let (b, hb) = install_lem 16 32 base i (λ n. irq (n - 32)) one in
    let (c, hc) = install_lem 208 48 base i isr two in
    let (w, hw) = wipe_lem 256 0 i g in
    (
      c ∙ elim (Bool-cases (within 48 208 i)) [
        | inl extra ↦ let n : within 32 16 i ≡ false = ground arith in rw (extra, n)
        | inr low ↦ rw low (
            b ∙ elim (Bool-cases (within 32 16 i)) [
              | inl irqs ↦ rw irqs
              | inr isrs ↦ let first : within 0 32 i ≡ true = ground arith in rw isrs (a ∙ rw first)
            ])
      ],
      rw (hc, hb, ha) (hw ∙ ground arith),
    )
