-- ===== src/Interrupt/Dispatch.antt =====
-- What an interrupt does: `isr_handler` of bees/interrupt/itr.c.
use hive_rk.Prelude.{ℕ, ◌<◌, ◌≡◌, ◌≢◌, refl, arith}
use hive_rk.Prelude.{◌==◌, if◌then◌else◌, leb, ltb, ◌&&◌, inl, inr, Bool-cases, within}
use hive_rk.Prelude.{true, false, List, [], ◌∷◌, ◌++◌, some, ==_ne, suc}
use hive_rk.Ports.{Action, outb, invoke, load_idt, halt}
use hive_rk.Interrupt.{Machine, register_interrupt, isr_handler, unhandled_interrupt}
use hive_rk.Interrupt.Setup.{registered}
use hive_rk.Interrupt.{acknowledge}

-- How often the end of an interrupt is written to a controller's command port.
abbrev pub acknowledged : ℕ → List Action → ℕ
acknowledged port [] = 0
acknowledged port (outb p b ∷ rest) =
    if p == port && b == 0x20 then suc (acknowledged port rest) else acknowledged port rest
acknowledged port (invoke f ∷ rest) = acknowledged port rest
acknowledged port (load_idt base limit ∷ rest) = acknowledged port rest
acknowledged port (halt ∷ rest) = acknowledged port rest

acknowledge_lem :
    (n : ℕ)
    → (acknowledged 0x20 (acknowledge n) ≡ (if within 32 16 n then 1 else 0))
      × (acknowledged 0xA0 (acknowledge n) ≡ (if within 40 8 n then 1 else 0))
acknowledge_lem n = elim (Bool-cases (within 32 16 n)) [
  | inl line ↦
      let t : (ltb 31 n && ltb n 48) ≡ true = ground arith in
      rw (t, line)
        (elim (Bool-cases (leb 40 n)) [
          | inl second ↦ rw second (refl, ground arith)
          | inr one ↦ rw one (refl, ground arith)
        ])
  | inr no_line ↦
      let t : (ltb 31 n && ltb n 48) ≡ false = ground arith in rw (t, no_line) (refl, ground arith)
]

-- After a registration under a vector with a handler that is not 0, that vector's interrupt calls the
-- handler once and then acknowledges: once to the first controller exactly for the vectors 32 to 47,
-- once to the second exactly for 40 to 47. Memory stays, and what the interrupts of the other vectors
-- call and write to ports is what it was before the registration.
pub isr_handler-register_interrupt :
    (id flags handler : ℕ) (m : Machine)
    → id < 256
    → handler ≢ 0
    → (m' : Machine) × (register_interrupt id flags handler m ≡ some m')
      × (m'.enabled ≡ true)
      × ((isr_handler id m').trace ≡ m.trace ++ invoke handler ∷ acknowledge id)
      × ((isr_handler id m').mem ≡ m.mem)
      × (acknowledged 0x20 (acknowledge id) ≡ (if within 32 16 id then 1 else 0))
      × (acknowledged 0xA0 (acknowledge id) ≡ (if within 40 8 id then 1 else 0))
      × ((j : ℕ) → j ≢ id → (isr_handler j m').trace ≡ (isr_handler j m).trace)
unfolding register_interrupt isr_handler unhandled_interrupt
isr_handler-register_interrupt id flags handler m lt ne =
    let inside : ltb id 256 ≡ true = ground arith in
    let self : (id == id) ≡ true = ground arith in
    let some_handler : (handler == 0) ≡ false = ==_ne handler 0 ne in
    let (first, second) = acknowledge_lem id in
    (
      registered id flags handler m,
      rw inside,
      refl,
      rw (self, some_handler),
      rw (self, some_handler),
      first,
      second,
      λ j other.
          let apart : (id == j) ≡ false = ground arith in
          rw apart (elim (Bool-cases (m.global.handler_functions j == 0)) [
            | inl unhandled ↦ rw unhandled
            | inr handled ↦ rw handled
          ]),
    )
