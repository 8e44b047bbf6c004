-- ===== src/Ports/Mask.antt =====
-- The interrupt mask that `pic_unmask_irq` writes.
use hive_rk.Prelude.{ℕ, ◌+◌, ◌-◌, ◌*◌, ◌/◌, ◌%◌, ◌^◌, ◌<◌, ◌≡◌, refl, arith, bit_and, if◌then◌else◌}
use hive_rk.Prelude.{ltb, [], ◌∷◌, Bool-cases, inl, inr}
use hive_rk.Prelude.Tables.{agree_below, agree_below→eq}
use hive_rk.Ports.{outb, unmasked, pic_unmask_irq}

-- A byte without the bit `k`.
abbrev pub without_bit : ℕ → ℕ → ℕ
without_bit k mask = mask - mask / 2 ^ k % 2 * 2 ^ k

-- Every byte and every bit, as the number `mask * 8 + k`.
masks : (n : ℕ) → n < 2048 → bit_and (n / 8) (255 - 2 ^ (n % 8)) ≡ without_bit (n % 8) (n / 8)
unfolding agree_below
masks =
    agree_below→eq (λ n. bit_and (n / 8) (255 - 2 ^ (n % 8))) (λ n. without_bit (n % 8) (n / 8))
      2048 refl

unmasked_lem : (k mask : ℕ) → k < 8 → mask < 256 → bit_and mask (255 - 2 ^ k) ≡ without_bit k mask
unmasked_lem k mask hk hm =
    let q : (mask * 8 + k) / 8 ≡ mask = omega arith in
    let r : (mask * 8 + k) % 8 ≡ k = omega arith in
    rw (q, r) at (masks (mask * 8 + k) (omega arith))

-- `pic_unmask_irq` of one of the 16 lines writes one byte, to the line's own controller: the mask that
-- it read there without the line's bit. It keeps all other lines as they were.
pub pic_unmask_irq_lem :
    (inb : ℕ → ℕ) (irq : ℕ)
    → irq < 16
    → inb 0x21 < 256
    → inb 0xA1 < 256
    → pic_unmask_irq inb irq ≡ (
        if ltb irq 8
        then outb 0x21 (without_bit irq (inb 0x21)) ∷ []
        else outb 0xA1 (without_bit (irq - 8) (inb 0xA1)) ∷ [])
unfolding pic_unmask_irq unmasked
pic_unmask_irq_lem inb irq lt first second = elim (Bool-cases (ltb irq 8)) [
  | inl low ↦
      let k : irq % 8 ≡ irq = ground arith in
      rw (low, k, unmasked_lem irq (inb 0x21) (ground arith) first)
  | inr high ↦
      let k : irq % 8 ≡ irq - 8 = ground arith in
      rw (high, k, unmasked_lem (irq - 8) (inb 0xA1) (ground arith) second)
]
