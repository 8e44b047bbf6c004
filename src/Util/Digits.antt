-- ===== src/Util/Digits.antt =====
-- The digit loops of bees/util/util.c: what they leave reads back as the number.
use hive_rk.Prelude.{ℕ, zero, suc, ◌+◌, ◌-◌, ◌*◌, ◌/◌, ◌%◌, ◌^◌, ◌≤◌, ◌<◌, ◌≡◌, refl, ◌∙◌, ap, sym}
use hive_rk.Prelude.{List, [], ◌∷◌, ◌++◌, arith, Option, some, length, length-append, All}
use hive_rk.Prelude.{All-append, ◌==◌, Bool-cases, inl, inr, append-nil, append_assoc}
use hive_rk.Prelude.{true, leb, ◌&&◌, if◌then◌else◌}
use native.Mathlib.Nat.{mod-lt, div-add-mod', pow-zero, pow-suc, div-lt_iff_lt-mul}
use hive_rk.Util.{peel, copy_back, copied, rounds, decimal, num_to_str_unsigned}

-- What a text stands for, read from the left with the value `val` of each digit.
abbrev pub value : ℕ → (ℕ → ℕ) → ℕ → List ℕ → ℕ
value base val acc [] = acc
value base val acc (c ∷ cs) = value base val (acc * base + val c) cs

pub value-append :
    (base : ℕ) (val : ℕ → ℕ) (acc : ℕ) (xs ys : List ℕ)
    → value base val acc (xs ++ ys) ≡ value base val (value base val acc xs) ys
value-append base val acc [] ys = refl
value-append base val acc (x ∷ xs) ys = value-append base val (acc * base + val x) xs ys

-- The value of a decimal digit; 10, which is none, for any other character.
abbrev pub val_decimal : ℕ → ℕ
val_decimal c = if leb b'0' c && leb c b'9' then c - b'0' else 10

pub val_decimal-decimal : (d : ℕ) → d < 10 → val_decimal (decimal d) ≡ d
val_decimal-decimal d lt = ground arith

-- A text of at least one character, all of which are digits of the base.
abbrev pub IsNumeral : ℕ → (ℕ → ℕ) → List ℕ → Type 0
IsNumeral base val text = (1 ≤ length text) × All (λ c. val c < base) text

-- A digit of the base, in text.
abbrev pub IsDigit : ℕ → (ℕ → ℕ) → ℕ → Type 0
IsDigit base digit c = (d : ℕ) × (d < base) × (c ≡ digit d)

pub digits_no_nul :
    (base : ℕ) (digit : ℕ → ℕ) (ds : List ℕ)
    → ((d : ℕ) → d < base → 1 ≤ digit d)
    → All (IsDigit base digit) ds
    → All (λ c. 1 ≤ c) ds
digits_no_nul base digit [] one h = tt
digits_no_nul base digit (c ∷ cs) one ((d, lt, e), h) =
    (omega (arith, e, one d lt), digits_no_nul base digit cs one h)

pub vals_of_digits :
    (base : ℕ) (digit val : ℕ → ℕ) (ds : List ℕ)
    → ((d : ℕ) → d < base → val (digit d) ≡ d)
    → All (IsDigit base digit) ds
    → All (λ c. val c < base) ds
vals_of_digits base digit val [] back h = tt
vals_of_digits base digit val (c ∷ ds) back ((d, lt, e), h) =
    (rw (e, back d lt) lt, vals_of_digits base digit val ds back h)

-- The loop pushes the digits of `num`: they read back as `num`, and there are at most `k` of them if
-- `num` is below the k-th power of the base.
pub record Peeled (base : ℕ) (digit val : ℕ → ℕ) (num : ℕ) (temp : List ℕ) (out : Option (List ℕ))
    : Type 0 where
  pub ds : List ℕ
  pub runs : out ≡ some (ds ++ temp)
  pub reads : value base val 0 ds ≡ num
  pub digits : All (IsDigit base digit) ds
  pub fits : (k : ℕ) → num < base ^ k → length ds ≤ k

module _ (base : ℕ) (two_le : 2 ≤ base) where
  shrinks : (fuel num : ℕ) → num < 2 ^ suc fuel → num / base < 2 ^ fuel
  shrinks fuel num h =
      let mono : 2 ^ fuel * 2 ≤ 2 ^ fuel * base = grind arith in
      let bound : num < 2 ^ fuel * base = omega (arith, pow-suc 2 fuel) in
      (div-lt_iff_lt-mul (omega arith)).1 bound

  fits_suc : (k num : ℕ) → num < base ^ suc k → num / base < base ^ k
  fits_suc k num h = (div-lt_iff_lt-mul (omega arith)).1 (rw (← pow-suc) h)

module _ (base : ℕ) (digit val : ℕ → ℕ) (two_le : 2 ≤ base)
    (back : (d : ℕ) → d < base → val (digit d) ≡ d) where
  peel_end : (num : ℕ) (temp : List ℕ) → num ≡ 0 → Peeled base digit val num temp (some temp)
  peel_end num temp e = record {
    ds = [];
    runs = refl;
    reads = sym e;
    digits = tt;
    fits = λ k h. omega arith;
  }

  fits_step :
      (num : ℕ) (ds : List ℕ) (c k : ℕ)
      → ((j : ℕ) → num / base < base ^ j → length ds ≤ j)
      → 1 ≤ num
      → num < base ^ k
      → length (ds ++ c ∷ []) ≤ k
  fits_step num ds c zero fits pos h = absurd (omega (arith, pow-zero base))
  fits_step num ds c (suc k) fits pos h =
      omega (arith, length-append ds (c ∷ []), fits k (fits_suc base two_le k num h))

  peel_step :
      (num : ℕ) (temp : List ℕ) (out : Option (List ℕ))
      → 1 ≤ num
      → Peeled base digit val (num / base) (digit (num % base) ∷ temp) out
      → Peeled base digit val num temp out
  peel_step num temp out pos p =
      let lt : num % base < base = mod-lt num (omega arith) in
      record {
        ds = p.ds ++ digit (num % base) ∷ [];
        runs = p.runs ∙ ap some (sym (append_assoc p.ds (digit (num % base) ∷ []) temp));
        reads =
            value-append base val 0 p.ds (digit (num % base) ∷ [])
            ∙ rw (p.reads, back (num % base) lt) (div-add-mod' num base);
        digits =
            All-append (IsDigit base digit) p.ds (digit (num % base) ∷ []) p.digits
              ((num % base, lt, refl), tt);
        fits = λ k h. fits_step num p.ds (digit (num % base)) k p.fits pos h;
      }

  pub peel-Peeled :
      (fuel num : ℕ) (temp : List ℕ)
      → num < 2 ^ fuel
      → Peeled base digit val num temp (peel base digit fuel num temp)
  unfolding peel
  peel-Peeled zero num temp h =
      let e : num ≡ 0 = omega arith in
      let t : (num == 0) ≡ true = rw e refl in rw t (peel_end num temp e)
  peel-Peeled (suc fuel) num temp h = elim (Bool-cases (num == 0)) [
    | inl e ↦ rw e (peel_end num temp (ground arith))
    | inr ne ↦ rw ne (
        peel_step num temp _ (ground arith) (
          peel-Peeled fuel (num / base) (digit (num % base) ∷ temp)
            (shrinks base two_le fuel num h)))
  ]

pub copy_back_lem : (temp : List ℕ) → copy_back temp ≡ temp ++ 0 ∷ []
unfolding copy_back
copy_back_lem [] = refl
copy_back_lem (c ∷ temp) = ap (λ l. c ∷ l) (copy_back_lem temp)

-- What is written to a buffer: at most `width` digits that read back as the number, and the
-- terminator.
pub record Prints (base : ℕ) (digit val : ℕ → ℕ) (num width : ℕ) (out : Option (List ℕ))
    : Type 0 where
  pub text : List ℕ
  pub writes : out ≡ some (text ++ 0 ∷ [])
  pub reads : value base val 0 text ≡ num
  pub digits : All (IsDigit base digit) text
  pub short : length text ≤ width
  pub not_empty : 1 ≤ length text

pub not_empty_of_pos :
    (base : ℕ) (val : ℕ → ℕ) (num : ℕ) (ds : List ℕ)
    → 1 ≤ num
    → value base val 0 ds ≡ num
    → 1 ≤ length ds
not_empty_of_pos base val num [] pos e = absurd (omega arith)
not_empty_of_pos base val num (d ∷ ds) pos e = omega arith

pub Peeled-Prints :
    (base : ℕ) (digit val : ℕ → ℕ) (num width : ℕ) (out : Option (List ℕ))
    → 1 ≤ num
    → num < base ^ width
    → Peeled base digit val num [] out
    → Prints base digit val num width (copied out)
unfolding copied
Peeled-Prints base digit val num width out pos lt p = record {
  text = p.ds;
  writes =
      rw p.runs (ap some (copy_back_lem (p.ds ++ []) ∙ ap (λ l. l ++ 0 ∷ []) (append-nil p.ds)));
  reads = p.reads;
  digits = p.digits;
  short = p.fits width lt;
  not_empty = not_empty_of_pos base val num p.ds pos p.reads;
}

-- `num_to_str_unsigned` of any uint32_t below a positive power of ten ends and writes as many decimal
-- digits at most, which read back as the number, and the terminator.
pub num_to_str_unsigned-Prints :
    (width num : ℕ)
    → num < 2 ^ 32
    → (1 ≤ width) × (num < 10 ^ width)
    → Prints 10 decimal val_decimal num width (num_to_str_unsigned num)
unfolding num_to_str_unsigned
num_to_str_unsigned-Prints width num lt fits = elim (Bool-cases (num == 0)) [
  | inl e ↦
      let z : 0 ≡ num = ground arith in
      rw e (record {
        text = b'0' ∷ [];
        writes = refl;
        reads = z;
        digits = ((0, omega arith, refl), tt);
        short = omega arith;
        not_empty = omega arith;
      })
  | inr ne ↦ rw ne (
      Peeled-Prints 10 decimal val_decimal num width _ (ground arith) fits.1 (
        peel-Peeled 10 decimal val_decimal (omega arith) val_decimal-decimal rounds num []
          (omega arith)))
]
