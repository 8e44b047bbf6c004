-- ===== src/Disk/Search.antt =====
-- `find_bee` of queen/main.c: the first magic number from an address on.
use hive_rk.Prelude.{ℕ, zero, suc, ◌+◌, ◌-◌, ◌*◌, ◌/◌, ◌%◌, ◌^◌, ◌≤◌, ◌<◌, ◌≡◌, refl, ◌∙◌, arith}
use hive_rk.Prelude.{◌==◌, ltb, Bool, true, false, none, some, within}
use hive_rk.Prelude.{Bool-cases, inl, inr, ◌⊎◌}
use hive_rk.Disk.{Drive, is_magic, scan_sector, read_two, found_at, search_in, search}
use hive_rk.Disk.{find_bee}
use hive_rk.Disk.Sector.{disk_byte, ata_read_sector_lem, ata_read_sector_fails}

module _ (buf : ℕ → ℕ) where
  scan_first :
      (n j k : ℕ)
      → j ≤ k
      → k < j + n
      → is_magic buf k ≡ true
      → ((i : ℕ) → j ≤ i → i < k → is_magic buf i ≡ false)
      → scan_sector n j buf ≡ some k
  unfolding scan_sector
  scan_first zero j k le lt here before = absurd (omega arith)
  scan_first (suc n) j k le lt here before = elim (Bool-cases (j == k)) [
    | inl t ↦ let p : j ≡ k = ground arith in rw (p, here) refl
    | inr t ↦
        let no_magic = before j (omega arith) (ground arith) in
        rw no_magic (
          scan_first n (j + 1) k (ground arith) (omega arith) here
            (λ i le' lt'. before i (omega arith) lt'))
  ]

  scan_none :
      (n j : ℕ)
      → ((i : ℕ) → j ≤ i → i < j + n → is_magic buf i ≡ false)
      → scan_sector n j buf ≡ none
  unfolding scan_sector
  scan_none zero j other = refl
  scan_none (suc n) j other =
      let no_magic = other j (omega arith) (omega arith) in
      rw no_magic (scan_none n (j + 1) (λ i le lt. other i (omega arith) (omega arith)))

is_magic_same :
    (f g : ℕ → ℕ) (i j : ℕ)
    → ((k : ℕ) → k < 4 → f (i + k) ≡ g (j + k))
    → is_magic f i ≡ is_magic g j
unfolding is_magic
is_magic_same f g i j same =
    let z : i + 0 ≡ i = omega arith in
    let z' : j + 0 ≡ j = omega arith in
    let e0 : f i ≡ g j = rw (z, z') at (same 0 (omega arith)) in
    rw (e0, same 1 (omega arith), same 2 (omega arith), same 3 (omega arith)) refl

module _ (drive : Drive) where
  -- Both sectors of a round are read.
  read_two_lem :
      (sector : ℕ) (buf : ℕ → ℕ)
      → sector + 1 < 2 ^ 28
      → drive.fails sector ≡ false
      → drive.fails (sector + 1) ≡ false
      → (buf' : ℕ → ℕ) × (read_two drive sector buf ≡ some buf')
        × ((k : ℕ) → k < 1024 → buf' k ≡ disk_byte drive (sector * 512 + k))
  read_two_lem sector buf small fine fine' =
      let (first, e, low, other) = ata_read_sector_lem drive sector 0 buf (omega arith) fine in
      let m : (sector + 1) % 2 ^ 32 ≡ sector + 1 = omega arith in
      let (second, e', high, keeps) =
        ata_read_sector_lem drive (sector + 1) 512 first small fine' in
      (
        second,
        rw (e, m, e') refl,
        λ k lt. elim (Bool-cases (ltb k 512)) [
          | inl t ↦
              let w : within 512 512 k ≡ false = ground arith in
              let z : 0 + k ≡ k = omega arith in keeps k w ∙ rw z at (low k (ground arith))
          | inr t ↦
              let z : 512 + (k - 512) ≡ k = ground arith in
              let q : (sector + 1) * 512 + (k - 512) ≡ sector * 512 + k = ground arith in
              rw (z, q) at (high (k - 512) (omega arith))
        ],
      )

  read_two_fails :
      (sector : ℕ) (buf : ℕ → ℕ)
      → sector + 1 < 2 ^ 28
      → drive.fails (sector + 1) ≡ true
      → read_two drive sector buf ≡ none
  read_two_fails sector buf small bad = elim (Bool-cases (drive.fails sector)) [
    | inl t ↦ rw (ata_read_sector_fails drive sector 0 buf (omega arith) t) refl
    | inr t ↦
        let (first, e, low, other) = ata_read_sector_lem drive sector 0 buf (omega arith) t in
        let m : (sector + 1) % 2 ^ 32 ≡ sector + 1 = omega arith in
        rw (e, m) (ata_read_sector_fails drive (sector + 1) 512 first small bad)
  ]

  -- A magic number on the disk, at a byte.
  abbrev pub magic_at : ℕ → Bool
  magic_at a = is_magic (disk_byte drive) a

  -- What a round sees of the disk.
  module _ (sector start : ℕ) (buf : ℕ → ℕ)
      (same : (k : ℕ) → k < 1024 → buf k ≡ disk_byte drive (sector * 512 + k)) where
    magic-same : (k : ℕ) → k < 512 → is_magic buf k ≡ magic_at (sector * 512 + k)
    magic-same k lt = is_magic_same buf (disk_byte drive) k (sector * 512 + k) λ i i_lt.
        let z : sector * 512 + k + i ≡ sector * 512 + (k + i) = omega arith in
        rw z (same (k + i) (omega arith))

    round_first :
        (a : ℕ)
        → sector * 512 + start ≤ a
        → a < sector * 512 + 512
        → magic_at a ≡ true
        → ((b : ℕ) → sector * 512 + start ≤ b → b < a → magic_at b ≡ false)
        → scan_sector (512 - start) start buf ≡ some (a - sector * 512)
    round_first a le lt here before =
        let z : sector * 512 + (a - sector * 512) ≡ a = omega arith in
        scan_first buf (512 - start) start (a - sector * 512) (omega arith) (omega arith)
          (rw (magic-same (a - sector * 512) (omega arith), z) here)
          (λ i le' lt'.
            rw (magic-same i (omega arith)) (before (sector * 512 + i) (omega arith) (omega arith)))

    round_none :
        start ≤ 512
        → ((b : ℕ) → sector * 512 + start ≤ b → b < sector * 512 + 512 → magic_at b ≡ false)
        → scan_sector (512 - start) start buf ≡ none
    round_none le other = scan_none buf (512 - start) start λ i le' lt'.
        rw (magic-same i (omega arith)) (other (sector * 512 + i) (omega arith) (omega arith))

  search_first :
      (n sector start a : ℕ) (buf : ℕ → ℕ)
      → sector + n < 2 ^ 23
      → start ≤ 512
      → sector * 512 + start ≤ a
      → a < (sector + n) * 512
      → magic_at a ≡ true
      → ((s : ℕ) → sector ≤ s → s ≤ a / 512 + 1 → drive.fails s ≡ false)
      → ((b : ℕ) → sector * 512 + start ≤ b → b < a → magic_at b ≡ false)
      → search n drive sector start buf ≡ a
  unfolding search search_in found_at
  search_first zero sector start a buf small in_sector le lt here fine before = absurd (omega arith)
  search_first (suc n) sector start a buf small in_sector le lt here fine before =
      let (buf', e, same) =
        read_two_lem sector buf (omega arith) (fine sector (omega arith) (omega arith))
          (fine (sector + 1) (omega arith) (omega arith)) in
      elim (Bool-cases (ltb a (sector * 512 + 512))) [
        | inl t ↦
            let found = round_first sector start buf' same a le (ground arith) here before in
            rw (e, found) (omega arith)
        | inr t ↦
            let missed =
              round_none sector start buf' same in_sector
                λ b le' lt'. before b le' (ground arith) in
            let m : (sector + 1) % 2 ^ 32 ≡ sector + 1 = omega arith in
            rw (e, missed, m)
              (search_first n (sector + 1) 0 a buf' (omega arith) (omega arith) (ground arith)
                (omega arith) here (λ s le' lt'. fine s (omega arith) lt')
                (λ b le' lt'. before b (omega arith) lt'))
      ]

  read_two-none :
      (sector : ℕ) (buf : ℕ → ℕ)
      → sector + 1 < 2 ^ 28
      → drive.fails sector ≡ true
      → read_two drive sector buf ≡ none
  read_two-none sector buf small bad =
      rw (ata_read_sector_fails drive sector 0 buf (omega arith) bad) refl

  -- The search from a sector on has an end in front of byte `e`: its limit, or a sector that cannot
  -- be read, and which is read together with the one in front of it.
  abbrev pub Ends : ℕ → ℕ → ℕ → Type 0
  Ends n sector e =
      ((sector + n) * 512 ≤ e)
      ⊎ ((f : ℕ) × (drive.fails f ≡ true) × (sector ≤ f) × (f * 512 ≤ e + 512))

  Ends-later :
      (n sector e : ℕ)
      → drive.fails sector ≡ false
      → drive.fails (sector + 1) ≡ false
      → Ends (suc n) sector e
      → (sector * 512 + 512 ≤ e) × Ends n (sector + 1) e
  Ends-later n sector e fine fine' (inl far) = (omega arith, inl (omega arith))
  Ends-later n sector e fine fine' (inr (f, bad, le, near)) = elim (Bool-cases (f == sector)) [
    | inl t ↦ absurd (contra f sector t bad fine)
    | inr t ↦ elim (Bool-cases (f == sector + 1)) [
      | inl u ↦ absurd (contra f (sector + 1) u bad fine')
      | inr u ↦ (ground arith, inr (f, bad, ground arith, near))
    ]
  ]
    where
      contra : (f s : ℕ) → (f == s) ≡ true → drive.fails f ≡ true → drive.fails s ≡ false → ⊥
      contra f s t bad fine = let p : f ≡ s = ground arith in cc

  search_none :
      (n sector start e : ℕ) (buf : ℕ → ℕ)
      → sector + n < 2 ^ 23
      → start ≤ 512
      → Ends n sector e
      → ((b : ℕ) → sector * 512 + start ≤ b → b < e → magic_at b ≡ false)
      → search n drive sector start buf ≡ 0
  unfolding search search_in found_at
  search_none zero sector start e buf small in_sector ends other = refl
  search_none (suc n) sector start e buf small in_sector ends other =
      elim (Bool-cases (drive.fails sector)) [
        | inl t ↦ rw (read_two-none sector buf (omega arith) t) refl
        | inr t ↦ elim (Bool-cases (drive.fails (sector + 1))) [
          | inl u ↦ rw (read_two_fails sector buf (omega arith) u) refl
          | inr u ↦
              let (near, ends') = Ends-later n sector e t u ends in
              let (buf', runs, same) = read_two_lem sector buf (omega arith) t u in
              let missed =
                round_none sector start buf' same in_sector λ b le lt. other b le (omega arith) in
              let m : (sector + 1) % 2 ^ 32 ≡ sector + 1 = omega arith in
              rw (runs, missed, m)
                (search_none n (sector + 1) 0 e buf' (omega arith) (omega arith) ends'
                  (λ b le lt. other b (omega arith) lt))
        ]
      ]

  -- `find_bee` returns the first magic number from an address on, if it starts in front of the
  -- limit, also where it reaches into the next sector, and if the sectors up to the one behind it
  -- can be read.
  pub find_bee-IsFirst :
      (byte_address search_limit a : ℕ) (buf : ℕ → ℕ)
      → byte_address / 512 + search_limit < 2 ^ 23
      → byte_address ≤ a
      → a < (byte_address / 512 + search_limit) * 512
      → magic_at a ≡ true
      → ((s : ℕ) → byte_address / 512 ≤ s → s ≤ a / 512 + 1 → drive.fails s ≡ false)
      → ((b : ℕ) → byte_address ≤ b → b < a → magic_at b ≡ false)
      → find_bee drive byte_address search_limit buf ≡ a
  unfolding find_bee
  find_bee-IsFirst byte_address search_limit a buf small le lt here fine before =
      search_first search_limit (byte_address / 512) (byte_address % 512) a buf small (omega arith)
        (omega arith) lt here fine λ b le' lt'. before b (omega arith) lt'

  -- `find_bee` returns 0 where there is no magic number from an address up to the limit, or up to the
  -- sector in front of one that cannot be read.
  pub find_bee_none :
      (byte_address search_limit e : ℕ) (buf : ℕ → ℕ)
      → byte_address / 512 + search_limit < 2 ^ 23
      → Ends search_limit (byte_address / 512) e
      → ((b : ℕ) → byte_address ≤ b → b < e → magic_at b ≡ false)
      → find_bee drive byte_address search_limit buf ≡ 0
  unfolding find_bee
  find_bee_none byte_address search_limit e buf small ends other =
      search_none search_limit (byte_address / 512) (byte_address % 512) e buf small (omega arith)
        ends λ b le lt. other b (omega arith) lt
