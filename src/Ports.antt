-- ===== src/Ports.antt =====
-- What the code does outside of memory: bees/beeUtil.h's `outb`, calls of a registered function, and
-- the instructions that it writes in assembly. What `inb` reads of a port is a parameter.
pub mod Mask
use hive_rk.Prelude.{
  ℕ, zero, suc, ◌+◌, ◌-◌, ◌*◌, ◌%◌, ◌^◌, ltb, if◌then◌else◌, bit_and, List, [], ◌∷◌,
}
use hive_rk.Prelude.{Option, none, some, ◌==◌, ◌++◌}

pub data Action : Type 0 where
  outb : ℕ → ℕ → Action
  invoke : ℕ → Action
  load_idt : ℕ → ℕ → Action
  halt : Action

-- `pic_unmask_irq`: `~(1 << (irq % 8))` cut to the byte that was read.
unfoldable pub unmasked : ℕ → ℕ → ℕ
unmasked irq mask = bit_and mask (255 - 2 ^ (irq % 8))

unfoldable pub pic_unmask_irq : (ℕ → ℕ) → ℕ → List Action
pic_unmask_irq inb irq =
    let port = if ltb irq 8 then 0x21 else 0xA1 in outb port (unmasked irq (inb port)) ∷ []

-- The byte that was last written to a port.
abbrev pub last_out : ℕ → List Action → Option ℕ → Option ℕ
last_out port [] last = last
last_out port (outb p b ∷ rest) last = last_out port rest (if p == port then some b else last)
last_out port (invoke f ∷ rest) last = last_out port rest last
last_out port (load_idt base limit ∷ rest) last = last_out port rest last
last_out port (halt ∷ rest) last = last_out port rest last
