-- ===== src/Shell/Bees.antt =====
-- The command `list-bees` of queen/main.c.
use hive_rk.Prelude.{ℕ, zero, suc, ◌+◌, ◌*◌, ◌≤◌, ◌<◌, ◌≡◌, ◌≢◌, refl, arith}
use hive_rk.Prelude.{◌==◌, if◌then◌else◌, true, false, Option, some, Bool-cases, inl, inr}
use hive_rk.Prelude.{List, [], ◌∷◌, length}
use hive_rk.Console.{sys_print}
use hive_rk.Names.{BeeName, Page}
use hive_rk.Names.Chain.{IsEntry, Lists}
use hive_rk.Shell.{text_from, sys_shift, list_row, list_from}

module _ (pages : ℕ → Page) (top : ℕ) where
  -- The names from a place on, which may be the end of a page.
  abbrev pub ListsAt : ℕ → ℕ → List BeeName → Type 0
  ListsAt cur s [] = if s == 14 then (pages cur).next_page ≡ 0 else Lists pages top cur s []
  ListsAt cur s (x ∷ xs) =
      if s == 14
      then ((pages cur).next_page ≢ 0) × Lists pages top (pages cur).next_page 0 (x ∷ xs)
      else Lists pages top cur s (x ∷ xs)

  abbrev pub Counts : Option (ℕ × (ℕ → ℕ)) → ℕ → Type 0
  Counts out n = (mem : ℕ → ℕ) × (out ≡ some (n, mem))

  -- Behind the second name of a row.
  row_end :
      (y : BeeName) (xs : List BeeName) (cur s : ℕ)
      → s < 13
      → Lists pages top cur (s + 1) (y ∷ xs)
      → ListsAt cur (s + 2) xs
  row_end y [] cur s lt h = elim (Bool-cases (s + 1 == 13)) [
    | inl t ↦ let u : (s + 2 == 14) ≡ true = ground arith in rw u (rw t at h).1.0
    | inr t ↦
        let u : (s + 2 == 14) ≡ false = ground arith in
        let n : s + 1 + 1 ≡ s + 2 = omega arith in rw u (rw n at (rw t at h).1)
  ]
  row_end y (x ∷ xs) cur s lt h = elim (Bool-cases (s + 1 == 13)) [
    | inl t ↦
        let u : (s + 2 == 14) ≡ true = ground arith in
        let g = (rw t at h).1 in
        let ne : (pages cur).next_page ≢ 0 = ground (arith, g.0) in rw u (ne, g.2)
    | inr t ↦
        let u : (s + 2 == 14) ≡ false = ground arith in
        let n : s + 1 + 1 ≡ s + 2 = omega arith in rw u (rw n at (rw t at h).1)
  ]

  -- What the rounds behind a row lead to.
  abbrev Rest : (ℕ → (ℕ → ℕ) → Option (ℕ × (ℕ → ℕ))) → ℕ → ℕ → ℕ → List BeeName → Type 0
  Rest rest cur s total [] = Unit
  Rest rest cur s total (x ∷ []) = Unit
  Rest rest cur s total (x ∷ y ∷ xs) =
      (m : ℕ → ℕ) → ListsAt cur (s + 2) xs → Counts (rest (total + 2) m) (total + 2 + length xs)

  there :
      (x : BeeName) (cur s : ℕ)
      → IsEntry x ((pages cur).names s)
      → (((pages cur).names s).name 0 == 0) ≡ false
  there x cur s (bytes, same, ne) =
      let b = bytes 0 (omega arith) in let t : (x.name 0 == 0) ≡ false = ground arith in rw b t

  list_row-Counts :
      (xs : List BeeName) (cur s total : ℕ) (mem : ℕ → ℕ)
      (rest : ℕ → (ℕ → ℕ) → Option (ℕ × (ℕ → ℕ)))
      → s < 13
      → Lists pages top cur s xs
      → Rest rest cur s total xs
      → Counts (list_row (pages cur) s total mem rest) (total + length xs)
  unfolding list_row
  list_row-Counts [] cur s total mem rest lt h ih =
      let z : total + 0 ≡ total = omega arith in (mem, rw (h.0, z) refl)
  list_row-Counts (x ∷ []) cur s total mem rest lt h ih =
      let u : (s == 13) ≡ false = ground arith in
      let g = (rw u at h).1 in
      let left = there x cur s h.0 in
      let m = sys_print (text_from 32 0 ((pages cur).names s).name) 0 23 0x50 (sys_shift mem) in
      (m, rw (left, g.0) refl)
  list_row-Counts (x ∷ y ∷ xs) cur s total mem rest lt h ih =
      let u : (s == 13) ≡ false = ground arith in
      let g = (rw u at h).1 in
      let left = there x cur s h.0 in
      let right = there y cur (s + 1) g.0 in
      let n : total + suc (suc (length xs)) ≡ total + 2 + length xs = omega arith in
      let m1 = sys_print (text_from 32 0 ((pages cur).names s).name) 0 23 0x50 (sys_shift mem) in
      let m2 = sys_print (text_from 32 0 ((pages cur).names (s + 1)).name) 33 23 0x50 m1 in
      let (m, e) = ih m2 (row_end y xs cur s lt g) in (m, rw (left, right, n) e)

  pub list_from-Counts :
      (xs : List BeeName) (fuel cur h total : ℕ) (mem : ℕ → ℕ)
      → h ≤ 7
      → length xs < fuel
      → ListsAt cur (2 * h) xs
      → Counts (list_from fuel pages cur (2 * h) total mem) (total + length xs)
  unfolding list_from
  list_from-Counts xs zero cur h total mem le enough at = absurd (omega arith)
  list_from-Counts [] (suc fuel) cur h total mem le enough at = elim (Bool-cases (2 * h == 14)) [
    | inl t ↦
        let z : total + 0 ≡ total = omega arith in
        let last : (pages cur).next_page ≡ 0 = rw t at at in (mem, rw (t, last, z) refl)
    | inr t ↦ rw t (list_row-Counts [] cur (2 * h) total mem _ (ground arith) (rw t at at) tt)
  ]
  list_from-Counts (x ∷ []) (suc fuel) cur h total mem le enough at =
      elim (Bool-cases (2 * h == 14)) [
        | inl t ↦
            let g = rw t at at in
            let u : ((pages cur).next_page == 0) ≡ false = ground arith in
            rw (t, u)
              (list_row-Counts (x ∷ []) (pages cur).next_page 0 total mem _ (omega arith) g.1 tt)
        | inr t ↦
            rw t (list_row-Counts (x ∷ []) cur (2 * h) total mem _ (ground arith) (rw t at at) tt)
      ]
  list_from-Counts (x ∷ y ∷ xs) (suc fuel) cur h total mem le enough at =
      elim (Bool-cases (2 * h == 14)) [
        | inl t ↦
            let g = rw t at at in
            let u : ((pages cur).next_page == 0) ≡ false = ground arith in
            let next = (pages cur).next_page in
            rw (t, u)
              (list_row-Counts (x ∷ y ∷ xs) next 0 total mem
                (λ t' m. list_from fuel pages next 2 t' m) (omega arith) g.1
                (λ m at'.
                  list_from-Counts xs fuel next 1 (total + 2) m (omega arith) (omega arith) at'))
        | inr t ↦
            let n : 2 * (h + 1) ≡ 2 * h + 2 = omega arith in
            rw t (
              list_row-Counts (x ∷ y ∷ xs) cur (2 * h) total mem
                (λ t' m. list_from fuel pages cur (2 * h + 2) t' m) (ground arith) (rw t at at)
                (λ m at'. rw n at (
                  list_from-Counts xs fuel cur (h + 1) (total + 2) m (ground arith) (omega arith)
                    (rw n at'))))
      ]
