-- ===== src/Disk.antt =====
-- queen/main.c, the disk: the reading of a sector through the drive's registers, the search for a
-- module's magic number, and the loading of what lies up to the next one. The drive is a parameter.
pub mod Sector
pub mod Search
pub mod Load
pub mod Sample
mod Tests
use hive_rk.Prelude.{ℕ, zero, suc, ◌+◌, ◌-◌, ◌*◌, ◌/◌, ◌%◌, ◌^◌, ◌==◌, ltb, if◌then◌else◌}
use hive_rk.Prelude.{Bool, true, false, ◌&&◌, Option, none, some, ◌>>=◌, store, bit_and, bit_or}

-- What the drive answers to READ SECTOR: whether it reports an error for a sector, and its words.
pub record Drive : Type 0 where
  pub fails : ℕ → Bool
  pub words : ℕ → ℕ → ℕ

-- The registers that select a sector: `outb` to 0x1F6, 0x1F3, 0x1F4 and 0x1F5.
pub record Registers : Type 0 where
  pub head : ℕ
  pub low : ℕ
  pub mid : ℕ
  pub high : ℕ

unfoldable pub registers : ℕ → Registers
registers lba = record {
  head = bit_or 0xE0 (bit_and (lba / 2 ^ 24) 0xF);
  low = bit_and lba 0xFF;
  mid = bit_and (lba / 2 ^ 8) 0xFF;
  high = bit_and (lba / 2 ^ 16) 0xFF;
}

-- The sector that the drive takes from them, in its mode of 28 bits.
abbrev pub selected : Registers → ℕ
selected r = r.low + r.mid * 2 ^ 8 + r.high * 2 ^ 16 + r.head % 16 * 2 ^ 24

-- The loop over the words of a sector, from word `i` on, in so many rounds.
pub store_words : ℕ → ℕ → ℕ → (ℕ → ℕ) → (ℕ → ℕ) → ℕ → ℕ
store_words zero i buf words mem = mem
store_words (suc n) i buf words mem =
    let low = store mem (buf + 2 * i) (words i % 2 ^ 8) in
    store_words n (i + 1) buf words (store low (buf + 2 * i + 1) (words i / 2 ^ 8 % 2 ^ 8))

-- `ata_read_sector_safe`: memory with the sector at `buf`, or `none` for its -1.
pub ata_read_sector : Drive → ℕ → ℕ → (ℕ → ℕ) → Option (ℕ → ℕ)
ata_read_sector drive lba buf mem =
    let sector = selected (registers lba) in
    if drive.fails sector then none else some (store_words 256 0 buf (drive.words sector) mem)

-- The four bytes that a module starts with and ends with.
unfoldable pub is_magic : (ℕ → ℕ) → ℕ → Bool
is_magic buf j =
    (buf j == 0x3A) && (buf (j + 1) == 0x44) && (buf (j + 2) == 0xBE) && (buf (j + 3) == 0xE0)

-- The loop of `find_bee` over the places of a sector, from `j` on, in so many rounds.
pub scan_sector : ℕ → ℕ → (ℕ → ℕ) → Option ℕ
scan_sector zero j buf = none
scan_sector (suc n) j buf =
    let rest = scan_sector n (j + 1) buf in if is_magic buf j then some j else rest

-- The sector and the one behind it, in the two halves of `buf`.
abbrev pub read_two : Drive → ℕ → (ℕ → ℕ) → Option (ℕ → ℕ)
read_two drive sector buf = do
  first ← ata_read_sector drive sector 0 buf
  ata_read_sector drive ((sector + 1) % 2 ^ 32) 512 first

-- What a round of `find_bee` leads to: a reading that failed ends the search with 0, and so does the
-- magic number at its address; else the search goes on.
unfoldable pub found_at : ℕ → Option ℕ → ℕ → ℕ
found_at sector none rest = rest
found_at sector (some j) rest = (sector * 512 + j) % 2 ^ 32

unfoldable pub search_in : Option (ℕ → ℕ) → ℕ → ℕ → ((ℕ → ℕ) → ℕ) → ℕ
search_in none sector start rest = 0
search_in (some buf) sector start rest =
    found_at sector (scan_sector (512 - start) start buf) (rest buf)

-- The loop of `find_bee` over the sectors, in so many rounds; `start` is where it begins in the first.
pub search : ℕ → Drive → ℕ → ℕ → (ℕ → ℕ) → ℕ
search zero drive sector start buf = 0
search (suc n) drive sector start buf =
    search_in (read_two drive sector buf) sector start
      (λ buf'. search n drive ((sector + 1) % 2 ^ 32) 0 buf')

-- `find_bee`; `buf` is what its buffer holds before.
pub find_bee : Drive → ℕ → ℕ → (ℕ → ℕ) → ℕ
find_bee drive byte_address search_limit buf =
    search search_limit drive (byte_address / 512) (byte_address % 512) buf

-- Memory, the bump pointer `MEMORY`, and the static `last_end` of `BEE_SCAN_AND_LOAD`.
pub record Loading : Type 0 where
  pub mem : ℕ → ℕ
  pub memory : ℕ
  pub last_end : ℕ

abbrev pub search_limit : ℕ
search_limit = 1024 * 100

-- What a reading leaves, and what is done then: after one that failed memory is as it was.
unfoldable pub read_then : Option (ℕ → ℕ) → (ℕ → ℕ) → ((ℕ → ℕ) → Bool × (ℕ → ℕ)) → Bool × (ℕ → ℕ)
read_then none mem rest = (false, mem)
read_then (some mem') mem rest = rest mem'

-- The loop over the sectors of a module from number `i` on, in so many rounds: whether all were read,
-- and memory.
pub load_sectors : ℕ → ℕ → Drive → ℕ → ℕ → (ℕ → ℕ) → Bool × (ℕ → ℕ)
load_sectors zero i drive sector_start buffer_index mem = (true, mem)
load_sectors (suc n) i drive sector_start buffer_index mem =
    read_then
      (ata_read_sector drive ((sector_start + i) % 2 ^ 32) ((buffer_index + i * 512) % 2 ^ 32) mem)
      mem (λ mem'. load_sectors n (i + 1) drive sector_start buffer_index mem')

-- `sectorEnd`: the first sector behind a byte's place.
pub sector_end : ℕ → ℕ
sector_end end = end / 512 + (if ltb 0 (end % 512) then 1 else 0)

-- Behind the search: the sectors from the one of `start` up to the one of `end`, both bytes.
pub load_between : Drive → ℕ → ℕ → ℕ → Loading → ℕ × Loading
load_between drive buffer_index start end s =
    let sector_start = start / 512 in
    let count = (sector_end end + 2 ^ 32 - sector_start) % 2 ^ 32 in
    let loaded = load_sectors count 0 drive sector_start buffer_index s.mem in
    if loaded.0
    then (
      (buffer_index + start % 512) % 2 ^ 32,
      record s { mem = loaded.1; memory = (s.memory + 512 * count) % 2 ^ 32 },
    )
    else (0, record s { mem = loaded.1 })

-- `BEE_SCAN_AND_LOAD`: the address of the module, or 0. `buf` is what the buffer of `find_bee` holds.
pub bee_scan_and_load : Drive → (ℕ → ℕ) → ℕ → Loading → ℕ × Loading
bee_scan_and_load drive buf buffer_index s =
    let start = find_bee drive s.last_end search_limit buf in
    let end = (find_bee drive ((start + 4) % 2 ^ 32) search_limit buf + 4) % 2 ^ 32 in
    let s' = record s { last_end = end } in
    if start == 0
    then (0, s)
    else (if end == 0 then (0, s') else load_between drive buffer_index start end s')
