-- ===== src/Names/Chain.antt =====
-- What a chain of name pages of queen/main.c lists.
use hive_rk.Prelude.{ℕ, ◌+◌, ◌≤◌, ◌<◌, ◌≡◌, ◌≢◌, arith, ◌==◌, if◌then◌else◌}
use hive_rk.Prelude.{List, [], ◌∷◌, Bool-cases, inl, inr}
use hive_rk.Names.{BeeName, Page}

-- An entry holds a name, which does not start with the byte that ends the list.
abbrev pub IsEntry : BeeName → BeeName → Type 0
IsEntry name entry =
    ((k : ℕ) → k < 32 → entry.name k ≡ name.name k)
    × (entry.data_page ≡ name.data_page)
    × (name.name 0 ≢ 0)

-- From entry `i` of the page at `cur` on, the chain lists these names and then ends. Each page lies
-- above the one in front of it and below `top`.
abbrev pub Lists : (ℕ → Page) → ℕ → ℕ → ℕ → List BeeName → Type 0
Lists pages top cur i [] =
    (((pages cur).names i).name 0 ≡ 0) × ((pages cur).next_page ≡ 0) × (cur < top)
Lists pages top cur i (x ∷ xs) =
    IsEntry x ((pages cur).names i)
    × (if i == 13
        then elim xs [
          | [] ↦ ((pages cur).next_page ≡ 0) × (cur < top)
          | x' ∷ xs' ↦
              (cur < (pages cur).next_page)
              × ((pages cur).next_page < top)
              × Lists pages top (pages cur).next_page 0 xs
        ]
        else Lists pages top cur (i + 1) xs)

pub Lists-le :
    (xs : List BeeName) (pages : ℕ → Page) (top top' cur i : ℕ)
    → top ≤ top'
    → Lists pages top cur i xs
    → Lists pages top' cur i xs
Lists-le [] pages top top' cur i le h = (h.0, h.1, omega (arith, h.2))
Lists-le (x ∷ []) pages top top' cur i le h = elim (Bool-cases (i == 13)) [
  | inl t ↦ let g = (rw t at h).1 in rw t (h.0, (g.0, omega (arith, g.1)))
  | inr t ↦ rw t (h.0, Lists-le [] pages top top' cur (i + 1) le (rw t at h).1)
]
Lists-le (x ∷ x' ∷ xs) pages top top' cur i le h = elim (Bool-cases (i == 13)) [
  | inl t ↦
      let g = (rw t at h).1 in
      let next = (pages cur).next_page in
      rw t (h.0, (g.0, omega (arith, g.1), Lists-le (x' ∷ xs) pages top top' next 0 le g.2))
  | inr t ↦ rw t (h.0, Lists-le (x' ∷ xs) pages top top' cur (i + 1) le (rw t at h).1)
]
