-- ===== src/Display/Print/Total.antt =====
-- `print` of bees/display/display.c ends on every format.
use hive_rk.Prelude.{ℕ, zero, suc, ◌+◌, ◌^◌, ◌<◌, ◌≤◌, ◌≡◌, refl, arith, ◌==◌, if◌then◌else◌, not}
use hive_rk.Prelude.{Bool, true, false, inl, inr, Bool-cases, List, [], ◌∷◌, ◌++◌, length}
use hive_rk.Prelude.{Option, none, some}
use hive_rk.Display.Print.{
  is_hex_digit, Glyphs, colored, Output, first, behind, recolor, Conversion,
}
use hive_rk.Display.Print.{conversion, convert, before, emit, print}
use hive_rk.Display.{default_color}
use hive_rk.Display.Print.Convert.{convert-Shows}
use hive_rk.Display.Print.Rounds.{before-some}

abbrev pub IsSome : Output → Type 0
IsSome out = (gs : Glyphs) × (out ≡ some gs)

before-IsSome :
    (color : ℕ) (str : List ℕ) (out : Option (List ℕ)) (rest : Output)
    → out ≡ some str
    → IsSome rest
    → IsSome (before color out rest)
before-IsSome color str out rest e (gs, f) =
    (colored color str ++ gs, before-some color str gs out rest e f)

either-IsSome :
    (o : Option Conversion) (f : Conversion → Output) (x : Output)
    → ((how : Conversion) → IsSome (f how))
    → IsSome x
    → IsSome (elim o [ some how ↦ f how | none ↦ x ])
either-IsSome none f x hf hx = hx
either-IsSome (some how) f x hf hx = hf how

if-IsSome : (b : Bool) (x y : Output) → IsSome x → IsSome y → IsSome (if b then x else y)
if-IsSome true x y hx hy = hx
if-IsSome false x y hx hy = hy

behind_le : (r : List ℕ) → length (behind r) ≤ length r
behind_le [] = omega arith
behind_le (c ∷ r) = omega arith

recolor_le : (r : List ℕ) (color : ℕ) → length (recolor r color).0 ≤ length r
unfolding recolor
recolor_le r color =
    let one = behind_le r in
    let two = behind_le (behind r) in
    elim (Bool-cases (first r == b'$')) [
      | inl d ↦ rw d (omega arith)
      | inr nd ↦ rw nd (elim (Bool-cases (is_hex_digit (first r))) [
        | inl h ↦ rw h (elim (Bool-cases (is_hex_digit (first (behind r)))) [
          | inl l ↦ rw l (omega (arith, one, two))
          | inr nl ↦ rw nl one
        ])
        | inr nh ↦ rw nh (omega arith)
      ])
    ]

module _ (spilled : List ℕ → List ℕ) (args : ℕ → ℕ) (text : ℕ → List ℕ)
    (words : (k : ℕ) → args k < 2 ^ 32) where
  emit-IsSome :
      (fuel : ℕ) (str : List ℕ) (k color : ℕ)
      → length str < fuel
      → IsSome (emit spilled args text fuel str k color)
  unfolding emit
  emit-IsSome zero str k color lt = absurd (omega arith)
  emit-IsSome (suc fuel) [] k color lt = ([], refl)
  emit-IsSome (suc fuel) (c ∷ r) k color lt =
      let tail = behind_le r in
      let same = emit-IsSome fuel r k color (omega arith) in
      let later = emit-IsSome fuel (behind r) (k + 1) color (omega (arith, tail)) in
      let next = emit-IsSome fuel (behind r) k color (omega (arith, tail)) in
      let shorter = recolor_le (behind r) color in
      let recolored =
        emit-IsSome fuel (recolor (behind r) color).0 k (recolor (behind r) color).1
          (omega (arith, tail, shorter)) in
      if-IsSome (not (c == b'%'))
        (before color (some (c ∷ [])) (emit spilled args text fuel r k color)) _
        (before-IsSome color (c ∷ []) (some (c ∷ [])) (emit spilled args text fuel r k color) refl
          same)
        (either-IsSome (conversion (first r)) _ _
          (λ how.
            let (str, e, shows) = convert-Shows spilled text how (args k) (words k) in
            before-IsSome color str (convert spilled text how (args k))
              (emit spilled args text fuel (behind r) (k + 1) color) e later)
          (if-IsSome (first r == b'#')
            (emit spilled args text fuel (recolor (behind r) color).0 k
              (recolor (behind r) color).1)
            _ recolored
            (if-IsSome (first r == b'%') _ _
              (before-IsSome color (b'%' ∷ []) (some (b'%' ∷ []))
                (emit spilled args text fuel (behind r) k color) refl next)
              (before-IsSome color (b'%' ∷ []) (some (b'%' ∷ []))
                (emit spilled args text fuel r k color) refl same))))

-- `print` ends on every format and every arguments: the format's length and one more bound its rounds,
-- whatever is read behind a buffer of 32 bytes.
pub print-IsSome :
    (spilled : List ℕ → List ℕ) (args : ℕ → ℕ) (text : ℕ → List ℕ) (str : List ℕ)
    → ((k : ℕ) → args k < 2 ^ 32)
    → (gs : Glyphs) × (print spilled args text str ≡ some gs)
unfolding print
print-IsSome spilled args text str words =
    emit-IsSome spilled args text words (length str + 1) str 0 default_color (omega arith)
