-- ===== src/Disk/Sample.antt =====
-- A disk with one module in sector 1, which ends with the magic number as build.sh appends it, and no
-- sector from 3 on.
use hive_rk.Prelude.{ℕ, ◌+◌, ◌-◌, ◌*◌, ◌≤◌, ◌<◌, ◌≡◌, refl, arith, ◌==◌, leb, if◌then◌else◌}
use hive_rk.Prelude.{false, List, [], ◌∷◌, ◌++◌, get_or, replicate, Bool-cases, inl, inr}
use hive_rk.Prelude.Tables.{agree_below, agree_below→eq}
use hive_rk.Loader.Header.{Meta, layout, IsMeta, Holds}
use hive_rk.Disk.{Drive, is_magic}
use hive_rk.Disk.Sector.{disk_byte}
use hive_rk.Disk.Search.{magic_at}
use hive_rk.Disk.Load.{IsNext}

abbrev pub start_meta : Meta
start_meta = record {
  format = 0;
  bee_id = 9;
  name = b's' ∷ b't' ∷ b'a' ∷ b'r' ∷ b't' ∷ replicate 27 0;
  priority = 4;
  funcs = record { id = 1; func = 0x120 } ∷ [];
  init = 0x80;
}

pub start_meta-IsMeta : IsMeta start_meta
start_meta-IsMeta = record {
  id = omega arith;
  name = refl;
  count = omega arith;
  init = omega arith;
  funcs = omega arith;
}

abbrev image : List ℕ
image = layout start_meta ++ (0x3A ∷ 0x44 ∷ 0xBE ∷ 0xE0 ∷ [])

abbrev pub floppy : Drive
floppy = record {
  fails = λ s. leb 3 s;
  words = λ s k. if s == 1 then get_or image (2 * k) 0 + 256 * get_or image (2 * k + 1) 0 else 0;
}

magic_number : ℕ → ℕ → ℕ
unfolding is_magic
magic_number from k = if magic_at floppy (from + k) then 1 else 0

quiet :
    (from n c : ℕ)
    → ((k : ℕ) → k < n → magic_number from k ≡ 0)
    → from ≤ c
    → c < from + n
    → magic_at floppy c ≡ false
unfolding magic_number
quiet from n c h le lt =
    let e : from + (c - from) ≡ c = omega arith in
    let z = rw e at (h (c - from) (omega arith)) in
    elim (Bool-cases (magic_at floppy c)) [ inl t ↦ absurd (omega (arith, rw t at z)) | inr t ↦ t ]

pub quiet_inside : (c : ℕ) → 516 ≤ c → c < 570 → magic_at floppy c ≡ false
unfolding agree_below magic_number
quiet_inside c le lt =
    quiet 516 54 c (λ k lt'. agree_below→eq (magic_number 516) (λ i. 0) 54 refl k lt') le
      (omega arith)

pub quiet_behind : (c : ℕ) → 574 ≤ c → c < 1024 → magic_at floppy c ≡ false
unfolding agree_below magic_number
quiet_behind c le lt =
    quiet 574 450 c (λ k lt'. agree_below→eq (magic_number 574) (λ i. 0) 450 refl k lt') le
      (omega arith)

pub start_bytes : Holds (disk_byte floppy) 512 (layout start_meta)
start_bytes = omega arith

pub start-IsNext : IsNext floppy 512 512 570
unfolding is_magic
start-IsNext = record {
  begin = refl;
  end = refl;
  behind = omega arith;
  longer = omega arith;
  positive = omega arith;
  first = λ c le lt. absurd (omega arith);
  next = quiet_inside;
  near = omega arith;
  near_end = omega arith;
  on_disk = omega arith;
  fine = λ s le lt. ground arith;
}
