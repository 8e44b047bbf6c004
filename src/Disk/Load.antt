-- ===== src/Disk/Load.antt =====
-- `BEE_SCAN_AND_LOAD` of queen/main.c: the next module of the disk, in memory.
use hive_rk.Prelude.{ℕ, zero, suc, ◌+◌, ◌-◌, ◌*◌, ◌/◌, ◌%◌, ◌^◌, ◌≤◌, ◌<◌, ◌≡◌, refl, ◌∙◌, arith}
use hive_rk.Prelude.{◌==◌, ltb, true, false, within}
use hive_rk.Prelude.{Bool-cases, inl, inr}
use hive_rk.Disk.{Drive, find_bee, Loading, read_then, load_sectors}
use hive_rk.Disk.{sector_end, load_between, bee_scan_and_load}
use hive_rk.Disk.Sector.{disk_byte, ata_read_sector_lem}
use hive_rk.Disk.Search.{magic_at, find_bee-IsFirst, find_bee_none, Ends}

sector_end_lem : (e : ℕ) → (e ≤ sector_end e * 512) × (sector_end e * 512 < e + 512)
unfolding sector_end
sector_end_lem e = elim (Bool-cases (ltb 0 (e % 512))) [
  | inl t ↦ rw t (ground arith, ground arith)
  | inr t ↦ rw t (ground arith, ground arith)
]

module _ (drive : Drive) where
  -- The sectors from one on are at `p` in memory, and what is in front of them is as before.
  load_sectors_lem :
      (n i sector p : ℕ) (mem : ℕ → ℕ)
      → sector + i + n ≤ 2 ^ 28
      → p + (i + n) * 512 ≤ 2 ^ 32
      → ((s : ℕ) → sector + i ≤ s → s < sector + i + n → drive.fails s ≡ false)
      → (mem' : ℕ → ℕ) × (load_sectors n i drive sector p mem ≡ (true, mem'))
        × ((k : ℕ)
            → i * 512 ≤ k
            → k < (i + n) * 512
            → mem' (p + k) ≡ disk_byte drive (sector * 512 + k))
        × ((a : ℕ) → a < p + i * 512 → mem' a ≡ mem a)
  unfolding load_sectors read_then
  load_sectors_lem zero i sector p mem small room fine =
      (mem, refl, λ k le lt. absurd (omega arith), λ a lt. refl)
  load_sectors_lem (suc n) i sector p mem small room fine =
      let (one, e, bytes, keeps) =
        ata_read_sector_lem drive (sector + i) (p + i * 512) mem (omega arith)
          (fine (sector + i) (omega arith) (omega arith)) in
      let (mem', e', bytes', keeps') =
        load_sectors_lem n (i + 1) sector p one (omega arith) (omega arith)
          (λ s le lt. fine s (omega arith) (omega arith)) in
      let m : (sector + i) % 2 ^ 32 ≡ sector + i = omega arith in
      let m' : (p + i * 512) % 2 ^ 32 ≡ p + i * 512 = omega arith in
      (
        mem',
        rw (m, m', e) e',
        λ k le lt. elim (Bool-cases (ltb k ((i + 1) * 512))) [
          | inl t ↦
              let q : p + i * 512 + (k - i * 512) ≡ p + k = omega arith in
              let r : (sector + i) * 512 + (k - i * 512) ≡ sector * 512 + k = omega arith in
              keeps' (p + k) (ground arith) ∙ rw (q, r) at (bytes (k - i * 512) (ground arith))
          | inr t ↦ bytes' k (ground arith) (omega arith)
        ],
        λ a lt.
            let w : within (p + i * 512) 512 a ≡ false = ground arith in
            keeps' a (omega arith) ∙ keeps a w,
      )

  -- The next module on the disk behind `from`: it begins with the magic number at `a`, and the next
  -- magic number, at `b`, ends it.
  pub record IsNext (from a b : ℕ) : Type 0 where
    pub begin : magic_at drive a ≡ true
    pub end : magic_at drive b ≡ true
    pub behind : from ≤ a
    pub longer : a + 4 ≤ b
    pub positive : 1 ≤ a
    pub first : (c : ℕ) → from ≤ c → c < a → magic_at drive c ≡ false
    pub next : (c : ℕ) → a + 4 ≤ c → c < b → magic_at drive c ≡ false
    pub near : a < (from / 512 + 102400) * 512
    pub near_end : b < ((a + 4) / 512 + 102400) * 512
    pub on_disk : b / 512 + 102402 < 2 ^ 23
    pub fine : (s : ℕ) → from / 512 ≤ s → s ≤ b / 512 + 1 → drive.fails s ≡ false

  -- What loading it leaves.
  pub record IsLoaded (a b address : ℕ) (s s' : Loading) : Type 0 where
    pub bytes : (k : ℕ) → k < b + 4 - a → s'.mem (address + k) ≡ disk_byte drive (a + k)
    pub others : (q : ℕ) → q < s.memory → s'.mem q ≡ s.mem q
    pub free : address + (b + 4 - a) ≤ s'.memory
    pub above : s.memory ≤ address
    pub used : s'.memory ≤ s.memory + (b - a) + 1536
    pub seen : s'.last_end ≡ b + 4

  -- Where the sectors of a module lie.
  load_between_lem :
      (a b : ℕ) (s : Loading)
      → a + 4 ≤ b
      → s.last_end ≡ b + 4
      → b / 512 + 102402 < 2 ^ 23
      → ((s : ℕ) → a / 512 ≤ s → s ≤ b / 512 + 1 → drive.fails s ≡ false)
      → s.memory + (b - a) + 1536 < 2 ^ 32
      → (address : ℕ) × (s' : Loading) × (load_between drive s.memory a (b + 4) s ≡ (address, s'))
        × IsLoaded a b address s s'
  unfolding load_between
  load_between_lem a b s longer seen on_disk fine room =
      let (up, low) = sector_end_lem (b + 4) in
      let sectors = sector_end (b + 4) - a / 512 in
      let (mem', e, bytes, keeps) =
        load_sectors_lem sectors 0 (a / 512) s.memory s.mem (omega arith) (omega arith)
          (λ t le lt. fine t (omega arith) (omega arith)) in
      let n : (sector_end (b + 4) + 2 ^ 32 - a / 512) % 2 ^ 32 ≡ sectors = omega arith in
      let m : (s.memory + a % 512) % 2 ^ 32 ≡ s.memory + a % 512 = omega arith in
      let m' : (s.memory + 512 * sectors) % 2 ^ 32 ≡ s.memory + 512 * sectors = omega arith in
      (
        s.memory + a % 512,
        record s { mem = mem'; memory = s.memory + 512 * sectors },
        rw (n, e, m, m') refl,
        record {
          bytes = λ k lt.
              let q : s.memory + (a % 512 + k) ≡ s.memory + a % 512 + k = omega arith in
              let r : a / 512 * 512 + (a % 512 + k) ≡ a + k = omega arith in
              rw (q, r) at (bytes (a % 512 + k) (omega arith) (omega arith));
          others = λ q lt. keeps q (omega arith);
          free = omega arith;
          above = omega arith;
          used = omega arith;
          seen = seen;
        },
      )

  -- `BEE_SCAN_AND_LOAD` of the next module on the disk, with its buffer at `MEMORY`, returns an
  -- address in front of the new `MEMORY` where the bytes of the module stand, from the first magic
  -- number to the end of the second, and leaves memory in front of the old `MEMORY` alone. The next
  -- search goes on behind the second magic number. Memory has room for the module and three sectors.
  pub bee_scan_and_load-IsLoaded :
      (a b : ℕ) (buf : ℕ → ℕ) (s : Loading)
      → IsNext s.last_end a b
      → s.memory + (b - a) + 1536 < 2 ^ 32
      → (address : ℕ) × (s' : Loading) × (bee_scan_and_load drive buf s.memory s ≡ (address, s'))
        × IsLoaded a b address s s'
  unfolding bee_scan_and_load
  bee_scan_and_load-IsLoaded a b buf s next room =
      let (address, s', e, loaded) =
        load_between_lem a b (record s { last_end = b + 4 }) next.longer refl next.on_disk
          (λ t le lt. next.fine t (omega (arith, next.behind)) lt) room in
      let start : find_bee drive s.last_end 102400 buf ≡ a =
        find_bee-IsFirst drive s.last_end 102400 a buf
          (omega (arith, next.behind, next.longer, next.on_disk)) next.behind next.near next.begin
          (λ t le lt. next.fine t le (omega (arith, next.longer))) next.first in
      let w : (a + 4) % 2 ^ 32 ≡ a + 4 = omega (arith, next.longer, next.on_disk) in
      let stop : find_bee drive (a + 4) 102400 buf ≡ b =
        find_bee-IsFirst drive (a + 4) 102400 b buf (omega (arith, next.longer, next.on_disk))
          next.longer next.near_end next.end
          (λ t le lt. next.fine t (omega (arith, next.behind)) lt) next.next in
      let w' : (b + 4) % 2 ^ 32 ≡ b + 4 = omega (arith, next.on_disk) in
      let t : (a == 0) ≡ false = ground (arith, next.positive) in
      let u : (b + 4 == 0) ≡ false = ground arith in
      (
        address,
        s',
        rw (start, w, stop, w', t, u) e,
        record {
          bytes = loaded.bytes;
          others = loaded.others;
          free = loaded.free;
          above = loaded.above;
          used = loaded.used;
          seen = loaded.seen;
        },
      )

  -- Where no magic number follows, `BEE_SCAN_AND_LOAD` returns 0 and changes nothing.
  pub bee_scan_and_load_none :
      (e p : ℕ) (buf : ℕ → ℕ) (s : Loading)
      → s.last_end / 512 + 102400 < 2 ^ 23
      → Ends drive 102400 (s.last_end / 512) e
      → ((c : ℕ) → s.last_end ≤ c → c < e → magic_at drive c ≡ false)
      → bee_scan_and_load drive buf p s ≡ (0, s)
  unfolding bee_scan_and_load
  bee_scan_and_load_none e p buf s small ends other =
      let start : find_bee drive s.last_end 102400 buf ≡ 0 =
        find_bee_none drive s.last_end 102400 e buf small ends other in
      rw start refl
