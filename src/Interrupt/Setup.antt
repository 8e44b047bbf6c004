-- ===== src/Interrupt/Setup.antt =====
-- What `bee_init` of bees/interrupt/itr.c leaves.
use hive_rk.Prelude.{ℕ, ◌+◌, ◌-◌, ◌*◌, ◌%◌, ◌^◌, ◌<◌, ◌≡◌, refl, ◌∙◌, ap, arith, sym}
use hive_rk.Prelude.{◌==◌, if◌then◌else◌, ◌||◌, ◌≢◌, inl, inr, Bool-cases, store}
use hive_rk.Prelude.{true, false, Bool, List, [], ◌∷◌, ◌++◌, Option, none, some}
use hive_rk.Ports.{Action, outb, invoke, load_idt, halt, last_out}
use hive_rk.Interrupt.{Machine, system_flags, pic_remap, pic_mask_all, idt_init}
use hive_rk.Interrupt.{register_interrupt, register_basic, bee_init}
use hive_rk.Interrupt.Gates.{IsGate, gate-IsGate, set_up_lem, vector_stub}

last_out-append :
    (port : ℕ) (xs ys : List Action) (last : Option ℕ)
    → last_out port (xs ++ ys) last ≡ last_out port ys (last_out port xs last)
last_out-append port [] ys last = refl
last_out-append port (outb p b ∷ xs) ys last =
    last_out-append port xs ys (if p == port then some b else last)
last_out-append port (invoke f ∷ xs) ys last = last_out-append port xs ys last
last_out-append port (load_idt b l ∷ xs) ys last = last_out-append port xs ys last
last_out-append port (halt ∷ xs) ys last = last_out-append port xs ys last

module _ (inb isr irq : ℕ → ℕ) (base table : ℕ) (m : Machine) where
  -- `idt_init` leaves at each of the 256 vectors a present gate whose address is the vector's stub (an
  -- interrupt line's from 32 to 47), no handler, interrupts disabled, and every line of both
  -- controllers masked.
  pub idt_init_lem :
      (i : ℕ)
      → i < 256
      → let m' = idt_init inb isr irq base table m in
        IsGate ((base + vector_stub isr irq i) % 2 ^ 32) system_flags (m'.global.idt i)
        × (m'.global.handler_functions i ≡ 0)
        × (m'.enabled ≡ false)
        × (last_out 0x21 m'.trace none ≡ some 0xFF)
        × (last_out 0xA1 m'.trace none ≡ some 0xFF)
  unfolding idt_init
  idt_init_lem i lt =
      let (e, h) = set_up_lem isr irq base i m.global lt in
      let handler = (base + vector_stub isr irq i) % 2 ^ 32 in
      let done = pic_remap inb ++ (load_idt table (256 * 8 - 1) ∷ pic_mask_all) in
      (
        rw e (gate-IsGate handler (omega arith)),
        h,
        refl,
        last_out-append 0x21 m.trace done none,
        last_out-append 0xA1 m.trace done none,
      )

-- The vectors with a basic handler.
abbrev pub is_basic : ℕ → Bool
is_basic i = i == 0 || (i == 3 || (i == 6 || (i == 8 || i == 13)))

-- A machine after one more registration.
abbrev pub registered : ℕ → ℕ → ℕ → Machine → Machine
registered id flags handler m =
    let g = m.global in
    record m {
      global = record {
        idt = store g.idt id (record (g.idt id) { flags = flags % 2 ^ 8 });
        handler_functions = store g.handler_functions id handler;
      };
      enabled = true;
    }

keeps_IsGate :
    (id handler h i : ℕ) (m : Machine)
    → IsGate h system_flags (m.global.idt i)
    → IsGate h system_flags ((registered id system_flags handler m).global.idt i)
keeps_IsGate id handler h i m (address, selector, zero, flags) = elim (Bool-cases (id == i)) [
  | inl here ↦ let e : id ≡ i = ground arith in rw here (rw e (address, selector, zero, refl))
  | inr other ↦ rw other (address, selector, zero, flags)
]

register_basic_lem :
    (handle : ℕ → ℕ) (base : ℕ) (m : Machine)
    → let entry : ℕ → ℕ = λ n. (base + handle n) % 2 ^ 32 in
      let m3 = registered 3 system_flags (entry 3) (registered 0 system_flags (entry 0) m) in
      let m8 = registered 8 system_flags (entry 8) (registered 6 system_flags (entry 6) m3) in
      register_basic handle base m ≡ some (registered 13 system_flags (entry 13) m8)
unfolding register_basic register_interrupt
register_basic_lem handle base m = refl

store_entry :
    (entry : ℕ → ℕ) (k i old new : ℕ)
    → (k ≢ i → old ≡ new)
    → (k ≡ i → new ≡ entry i)
    → (if k == i then entry k else old) ≡ new
store_entry entry k i old new other here = elim (Bool-cases (k == i)) [
  | inl e ↦ let p : k ≡ i = ground arith in rw e (ap entry p ∙ sym (here p))
  | inr n ↦ rw n (other (ground arith))
]

basic_handlers :
    (entry : ℕ → ℕ) (i : ℕ) (f : ℕ → ℕ)
    → f i ≡ 0
    → store
        (store (store (store (store f 0 (entry 0)) 3 (entry 3)) 6 (entry 6)) 8 (entry 8))
        13
        (entry 13)
        i
      ≡ (if is_basic i then entry i else 0)
basic_handlers entry i f h =
    let v : ℕ = if is_basic i then entry i else 0 in
    store_entry entry 13 i _ v
      (λ n13.
        store_entry entry 8 i _ v
          (λ n8.
            store_entry entry 6 i _ v
              (λ n6.
                store_entry entry 3 i _ v
                  (λ n3. store_entry entry 0 i _ v (λ n0. ground (arith, h)) (λ e. ground arith))
                  (λ e. ground arith))
              (λ e. ground arith))
          (λ e. ground arith))
      (λ e. ground arith)

-- `bee_init` ends with interrupts enabled, a present gate to the stub at each of the 256 vectors, the
-- basic handlers at the vectors 0, 3, 6, 8 and 13 and no handler at any other.
pub bee_init_lem :
    (inb isr irq handle : ℕ → ℕ) (base table : ℕ) (m : Machine)
    → (m' : Machine) × (bee_init inb isr irq handle base table m ≡ some m')
      × (m'.enabled ≡ true)
      × ((i : ℕ)
          → i < 256
          → IsGate ((base + vector_stub isr irq i) % 2 ^ 32) system_flags (m'.global.idt i)
            × (m'.global.handler_functions i
                ≡ (if is_basic i then (base + handle i) % 2 ^ 32 else 0)))
unfolding bee_init
bee_init_lem inb isr irq handle base table m =
    let entry : ℕ → ℕ = λ n. (base + handle n) % 2 ^ 32 in
    let m' = record (idt_init inb isr irq base table m) { enabled = true } in
    let m0 = registered 0 system_flags (entry 0) m' in
    let m3 = registered 3 system_flags (entry 3) m0 in
    let m6 = registered 6 system_flags (entry 6) m3 in
    let m8 = registered 8 system_flags (entry 8) m6 in
    (
      registered 13 system_flags (entry 13) m8,
      register_basic_lem handle base m',
      refl,
      λ i lt.
          let (g, h, off, low, high) = idt_init_lem inb isr irq base table m i lt in
          let stub = (base + vector_stub isr irq i) % 2 ^ 32 in
          (
            keeps_IsGate 13 (entry 13) stub i m8 (
                keeps_IsGate 8 (entry 8) stub i m6 (
                  keeps_IsGate 6 (entry 6) stub i m3
                    (keeps_IsGate 3 (entry 3) stub i m0 (keeps_IsGate 0 (entry 0) stub i m' g)))),
            basic_handlers entry i m'.global.handler_functions h,
          ),
    )
