-- ===== src/Disk/Sector.antt =====
-- `ata_read_sector_safe` of queen/main.c: which sector it reads, and to where.
use hive_rk.Prelude.{ℕ, zero, suc, ◌+◌, ◌-◌, ◌*◌, ◌/◌, ◌%◌, ◌^◌, ◌<◌, ◌≡◌, refl, ◌∙◌, arith}
use hive_rk.Prelude.{◌==◌, if◌then◌else◌, true, false, none, some, store, within}
use hive_rk.Prelude.{Bool-cases, inl, inr, bit_and, bit_or}
use hive_rk.Prelude.Bits.{bit_and-ones, bit_and_15}
use hive_rk.Prelude.Tables.{agree_below, agree_below→eq}
use hive_rk.Disk.{Drive, registers, selected, store_words, ata_read_sector}

-- Byte `k` of a sector: the low half of a word comes first.
abbrev pub byte_of : (ℕ → ℕ) → ℕ → ℕ
byte_of words k = if k % 2 == 0 then words (k / 2) % 2 ^ 8 else words (k / 2) / 2 ^ 8 % 2 ^ 8

store_words_lem :
    (n i buf a : ℕ) (words mem : ℕ → ℕ)
    → store_words n i buf words mem a
      ≡ (if within (buf + 2 * i) (2 * n) a then byte_of words (a - buf) else mem a)
unfolding store_words
store_words_lem zero i buf a words mem = ground arith
store_words_lem (suc n) i buf a words mem =
    let low = store mem (buf + 2 * i) (words i % 2 ^ 8) in
    let high = store low (buf + 2 * i + 1) (words i / 2 ^ 8 % 2 ^ 8) in
    store_words_lem n (i + 1) buf a words high ∙ stored
  where
    stored :
        (if within (buf + 2 * (i + 1)) (2 * n) a
          then byte_of words (a - buf)
          else store
              (store mem (buf + 2 * i) (words i % 2 ^ 8))
              (buf + 2 * i + 1)
              (words i / 2 ^ 8 % 2 ^ 8)
              a)
        ≡ (if within (buf + 2 * i) (2 * suc n) a then byte_of words (a - buf) else mem a)
    stored = elim (Bool-cases (buf + 2 * i == a)) [
      | inl t ↦ let h : (a - buf) / 2 ≡ i = ground arith in rw h (ground arith)
      | inr t ↦ elim (Bool-cases (buf + 2 * i + 1 == a)) [
        | inl u ↦ let h : (a - buf) / 2 ≡ i = ground arith in rw h (ground arith)
        | inr u ↦ ground arith
      ]
    ]

-- The drive takes the low 28 bits of the number of the sector.
head_of : (x : ℕ) → x < 16 → bit_or 0xE0 x % 16 ≡ x
unfolding agree_below
head_of x lt = agree_below→eq (λ y. bit_or 0xE0 y % 16) (λ y. y) 16 refl x lt

pub registers_lem : (lba : ℕ) → selected (registers lba) ≡ lba % 2 ^ 28
unfolding registers
registers_lem lba =
    let h : bit_and (lba / 2 ^ 24) 0xF ≡ lba / 2 ^ 24 % 16 = bit_and_15 (lba / 2 ^ 24) in
    let l : bit_and lba 0xFF ≡ lba % 2 ^ 8 = bit_and-ones 8 lba in
    let m : bit_and (lba / 2 ^ 8) 0xFF ≡ lba / 2 ^ 8 % 2 ^ 8 = bit_and-ones 8 (lba / 2 ^ 8) in
    let hi : bit_and (lba / 2 ^ 16) 0xFF ≡ lba / 2 ^ 16 % 2 ^ 8 = bit_and-ones 8 (lba / 2 ^ 16) in
    let top = head_of (lba / 2 ^ 24 % 16) (omega arith) in rw (h, l, m, hi) (omega (arith, top))

-- Byte `a` of the disk.
abbrev pub disk_byte : Drive → ℕ → ℕ
disk_byte drive a = byte_of (drive.words (a / 512)) (a % 512)

-- Reading a sector that the drive has, of the first 2 ^ 28, stores its bytes at `buf` and changes no
-- other byte.
pub ata_read_sector_lem :
    (drive : Drive) (lba buf : ℕ) (mem : ℕ → ℕ)
    → lba < 2 ^ 28
    → drive.fails lba ≡ false
    → (mem' : ℕ → ℕ) × (ata_read_sector drive lba buf mem ≡ some mem')
      × ((k : ℕ) → k < 512 → mem' (buf + k) ≡ disk_byte drive (lba * 512 + k))
      × ((a : ℕ) → within buf 512 a ≡ false → mem' a ≡ mem a)
unfolding ata_read_sector
ata_read_sector_lem drive lba buf mem small fine =
    let s : selected (registers lba) ≡ lba = registers_lem lba ∙ omega arith in
    let stored = λ (a : ℕ). store_words_lem 256 0 buf a (drive.words lba) mem in
    (
      store_words 256 0 buf (drive.words lba) mem,
      rw (s, fine) refl,
      λ k lt.
          let w : within (buf + 2 * 0) (2 * 256) (buf + k) ≡ true = ground arith in
          let e : buf + k - buf ≡ k = omega arith in
          let q : (lba * 512 + k) / 512 ≡ lba = omega arith in
          let r : (lba * 512 + k) % 512 ≡ k = omega arith in
          rw (q, r) (rw (w, e) at (stored (buf + k))),
      λ a out.
          let w : within (buf + 2 * 0) (2 * 256) a ≡ false = ground arith in rw w at (stored a),
    )

pub ata_read_sector_fails :
    (drive : Drive) (lba buf : ℕ) (mem : ℕ → ℕ)
    → lba < 2 ^ 28
    → drive.fails lba ≡ true
    → ata_read_sector drive lba buf mem ≡ none
unfolding ata_read_sector
ata_read_sector_fails drive lba buf mem small bad =
    let s : selected (registers lba) ≡ lba = registers_lem lba ∙ omega arith in rw (s, bad) refl
