-- ===== src/Loader/Words.antt =====
-- `load_4B` and `store_4B` of queen/main.c.
use hive_rk.Prelude.{ℕ, ◌+◌, ◌*◌, ◌%◌, ◌^◌, ◌<◌, ◌≡◌, refl, ◌∙◌, arith, bit_and}
use hive_rk.Prelude.Bits.{bit_or_field, bit_and-ones, bit_and_shift}
use hive_rk.Prelude.Tables.{agree_below, agree_below→eq}
use hive_rk.Loader.{load_4b, store_4b}

mask_8 : (b : ℕ) → b < 256 → bit_and (b * 2 ^ 8) 0xFF00 ≡ b * 2 ^ 8
unfolding agree_below
mask_8 = agree_below→eq (λ b. bit_and (b * 2 ^ 8) 0xFF00) (λ b. b * 2 ^ 8) 256 refl

mask_16 : (b : ℕ) → b < 256 → bit_and (b * 2 ^ 16) 0xFF0000 ≡ b * 2 ^ 16
unfolding agree_below
mask_16 = agree_below→eq (λ b. bit_and (b * 2 ^ 16) 0xFF0000) (λ b. b * 2 ^ 16) 256 refl

mask_24 : (b : ℕ) → b < 256 → bit_and (b * 2 ^ 24) 0xFF000000 ≡ b * 2 ^ 24
unfolding agree_below
mask_24 = agree_below→eq (λ b. bit_and (b * 2 ^ 24) 0xFF000000) (λ b. b * 2 ^ 24) 256 refl

-- Four bytes, the lowest first, make up the word.
pub load_4b_lem :
    (mem : ℕ → ℕ) (ptr a b c d : ℕ)
    → mem ptr ≡ a
    → mem (ptr + 1) ≡ b
    → mem (ptr + 2) ≡ c
    → mem (ptr + 3) ≡ d
    → a < 256
    → b < 256
    → c < 256
    → d < 256
    → load_4b mem ptr ≡ a + b * 2 ^ 8 + c * 2 ^ 16 + d * 2 ^ 24
unfolding load_4b
load_4b_lem mem ptr a b c d ea eb ec ed la lb lc ld =
    rw (ea, eb, ec, ed, mask_8 b lb, mask_16 c lc, mask_24 d ld)
      (rw (
        bit_or_field 8 a b la,
        bit_or_field 16 (a + b * 2 ^ 8) c (omega arith),
        bit_or_field 24 (a + b * 2 ^ 8 + c * 2 ^ 16) d (omega arith),
      ))

high_8 : (a : ℕ) → bit_and a 0xFF00 % 2 ^ 8 ≡ 0
high_8 a = omega (arith, bit_and_shift 8 a 0xFF)

high_16 : (a : ℕ) → bit_and a 0xFF0000 % 2 ^ 8 ≡ 0
high_16 a = omega (arith, bit_and_shift 16 a 0xFF)

high_24 : (a : ℕ) → bit_and a 0xFF000000 % 2 ^ 8 ≡ 0
high_24 a = omega (arith, bit_and_shift 24 a 0xFF)

-- `load_4B` of what `store_4B` stored is the low byte of the word: the other three bytes are stored
-- as 0.
pub load_4b-store_4b :
    (v ptr : ℕ) (mem : ℕ → ℕ) → v < 2 ^ 32 → load_4b (store_4b v ptr mem) ptr ≡ v % 2 ^ 8
unfolding store_4b
load_4b-store_4b v ptr mem lt =
    let low : bit_and v 0xFF ≡ v % 2 ^ 8 = bit_and-ones 8 v in
    load_4b_lem (store_4b v ptr mem) ptr (v % 2 ^ 8) 0 0 0 (ground (arith, low))
      (ground (arith, high_8 (v * 2 ^ 8 % 2 ^ 32))) (ground (arith, high_16 (v * 2 ^ 16 % 2 ^ 32)))
      (ground (arith, high_24 (v * 2 ^ 24 % 2 ^ 32))) (omega arith) (omega arith) (omega arith)
      (omega arith)
    ∙ omega arith
