-- ===== src/Shell/Words.antt =====
-- `cmpStr` and `parseArgs` of queen/main.c on texts.
use hive_rk.Prelude.{ℕ, zero, suc, ◌+◌, ◌<◌, ◌≡◌, ◌≢◌, ◌↔◌, refl, ◌∙◌, subst, arith}
use hive_rk.Prelude.{◌==◌, if◌then◌else◌, store, Bool, true, false, some}
use hive_rk.Prelude.{Bool-cases, inl, inr, List, [], ◌∷◌, ◌++◌, length, All, replicate}
use hive_rk.Shell.{cmp_from, cmp_str, copy_word, skip_spaces}

-- The text at place `i` of a string.
abbrev pub IsText : (ℕ → ℕ) → ℕ → List ℕ → Type 0
IsText s i [] = s i ≡ 0
IsText s i (x ∷ xs) = (s i ≡ x) × (x ≢ 0) × IsText s (i + 1) xs

unfoldable pub same_list : List ℕ → List ℕ → Bool
same_list [] [] = true
same_list [] (y ∷ ys) = false
same_list (x ∷ xs) [] = false
same_list (x ∷ xs) (y ∷ ys) = if x == y then same_list xs ys else false

pub same_list→eq : (xs ys : List ℕ) → same_list xs ys ≡ true → xs ≡ ys
unfolding same_list
same_list→eq [] [] e = refl
same_list→eq [] (y ∷ ys) e = absurd (cc)
same_list→eq (x ∷ xs) [] e = absurd (cc)
same_list→eq (x ∷ xs) (y ∷ ys) e = elim (Bool-cases (x == y)) [
  | inl t ↦ let p : x ≡ y = ground arith in rw (p, same_list→eq xs ys (rw t at e)) refl
  | inr t ↦ absurd (let f : false ≡ true = rw t at e in cc)
]

same_list_refl : (xs : List ℕ) → same_list xs xs ≡ true
unfolding same_list
same_list_refl [] = refl
same_list_refl (x ∷ xs) = let t : (x == x) ≡ true = ground arith in rw t (same_list_refl xs)

module _ (s1 s2 : ℕ → ℕ) where
  pub cmp_from_lem :
      (xs ys : List ℕ) (fuel i : ℕ)
      → length xs < fuel
      → IsText s1 i xs
      → IsText s2 i ys
      → cmp_from fuel i s1 s2 ≡ some (same_list xs ys)
  unfolding cmp_from same_list
  cmp_from_lem xs ys zero i enough h1 h2 = absurd (omega arith)
  cmp_from_lem [] [] (suc fuel) i enough h1 h2 = rw (h1, h2) refl
  cmp_from_lem [] (y ∷ ys) (suc fuel) i enough h1 h2 =
      let t : (0 == y) ≡ false = ground (arith, h2.1) in rw (h1, h2.0, t) refl
  cmp_from_lem (x ∷ xs) [] (suc fuel) i enough h1 h2 =
      let t : (x == 0) ≡ false = ground (arith, h1.1) in rw (h1.0, h2, t) refl
  cmp_from_lem (x ∷ xs) (y ∷ ys) (suc fuel) i enough h1 h2 =
      let t : (x == 0) ≡ false = ground (arith, h1.1) in
      let u : (y == 0) ≡ false = ground (arith, h2.1) in
      elim (Bool-cases (x == y)) [
        | inl v ↦ rw (h1.0, h2.0, t, u, v) (cmp_from_lem xs ys fuel (i + 1) (omega arith) h1.2 h2.2)
        | inr v ↦ rw (h1.0, h2.0, t, u, v) refl
      ]

  -- `cmpStr` of two texts, with fuel for one round more than the first has bytes, returns, and
  -- returns true exactly if they are equal.
  pub cmp_str_lem :
      (xs ys : List ℕ) (fuel : ℕ)
      → length xs < fuel
      → IsText s1 0 xs
      → IsText s2 0 ys
      → (b : Bool) × (cmp_str fuel s1 s2 ≡ some b) × (b ≡ true ↔ xs ≡ ys)
  unfolding cmp_str
  cmp_str_lem xs ys fuel enough h1 h2 = (
    same_list xs ys,
    cmp_from_lem xs ys fuel 0 enough h1 h2,
    (same_list→eq xs ys, λ e. subst (λ zs. same_list xs zs ≡ true) e (same_list_refl xs)),
  )

-- A word has no space, and its end is the end of the line or a space.
abbrev pub IsWord : List ℕ → Type 0
IsWord w = All (λ c. c ≢ 32) w

abbrev pub Stops : List ℕ → Type 0
Stops [] = Unit
Stops (c ∷ rest) = c ≡ 32

module _ (base : ℕ → ℕ) where
  pub copy_word_lem :
      (w rest : List ℕ) (fuel i argi : ℕ) (s : ℕ → ℕ)
      → length w < fuel
      → IsWord w
      → Stops rest
      → IsText base i (w ++ rest)
      → s argi ≡ 0
      → (s' : ℕ → ℕ) × (copy_word fuel i argi base s ≡ some (i + length w, s'))
        × IsText s' argi w
        × ((j : ℕ) → j < argi → s' j ≡ s j)
        × IsText base (i + length w) rest
  unfolding copy_word
  copy_word_lem w rest zero i argi s enough word stops h nul = absurd (omega arith)
  copy_word_lem [] [] (suc fuel) i argi s enough word stops h nul =
      let z : i + 0 ≡ i = omega arith in (s, rw (h, z) refl, nul, (λ j lt. refl), rw z h)
  copy_word_lem [] (c ∷ rest) (suc fuel) i argi s enough word stops h nul =
      let z : i + 0 ≡ i = omega arith in (s, rw (h.0, stops, z) refl, nul, (λ j lt. refl), rw z h)
  copy_word_lem (c ∷ w) rest (suc fuel) i argi s enough word stops h nul =
      let s1 = store (store s argi c) (argi + 1) 0 in
      let self : (argi + 1 == argi + 1) ≡ true = ground arith in
      let (s', runs, text, below, left) =
        copy_word_lem w rest fuel (i + 1) (argi + 1) s1 (omega arith) word.1 stops h.2
          (rw self refl) in
      let t : (c == 0) ≡ false = ground (arith, h.1) in
      let u : (c == 32) ≡ false = ground (arith, word.0) in
      let n : i + suc (length w) ≡ i + 1 + length w = omega arith in
      let v : (argi + 1 == argi) ≡ false = ground arith in
      let here : (argi == argi) ≡ true = ground arith in
      (
        s',
        rw (h.0, t, u, n) runs,
        (below argi (omega arith) ∙ rw (v, here) refl, h.1, text),
        λ j lt.
            let a : (argi + 1 == j) ≡ false = ground arith in
            let b : (argi == j) ≡ false = ground arith in below j (omega arith) ∙ rw (a, b) refl,
        rw n left,
      )

  -- Spaces in front of a text that does not start with one.
  abbrev pub Starts : List ℕ → Type 0
  Starts [] = Unit
  Starts (c ∷ rest) = c ≢ 32

  pub skip_spaces_lem :
      (g : ℕ) (rest : List ℕ) (fuel i : ℕ)
      → g < fuel
      → Starts rest
      → IsText base i (replicate g 32 ++ rest)
      → (skip_spaces fuel i base ≡ some (i + g)) × IsText base (i + g) rest
  unfolding skip_spaces
  skip_spaces_lem g rest zero i enough starts h = absurd (omega arith)
  skip_spaces_lem zero [] (suc fuel) i enough starts h =
      let z : i + 0 ≡ i = omega arith in (rw (h, z) refl, rw z h)
  skip_spaces_lem zero (c ∷ rest) (suc fuel) i enough starts h =
      let z : i + 0 ≡ i = omega arith in
      let t : (c == 32) ≡ false = ground arith in (rw (h.0, t, z) refl, rw z h)
  skip_spaces_lem (suc g) rest (suc fuel) i enough starts h =
      let n : i + suc g ≡ i + 1 + g = omega arith in
      let (runs, left) = skip_spaces_lem g rest fuel (i + 1) (omega arith) starts h.2 in
      (rw (h.0, n) runs, rw n left)
