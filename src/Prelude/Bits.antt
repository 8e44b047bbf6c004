-- ===== src/Prelude/Bits.antt =====
-- `&` and `|` of C at variables: masks of ones are remainders, and `|` of parts that share no bit is
-- their sum.
use Prim.Native.Nat.{ℕ, zero, suc, ◌+◌, ◌-◌, ◌*◌, ◌/◌, ◌%◌, ◌^◌, ◌≤◌, ◌<◌, min, max}
use Prim.Native.Nat.{bit_and, bit_or, digits, bit_and-bitwise, bit_or-bitwise}
use mathlib.Core.Path.{◌≡◌, refl, ap, sym, ◌∙◌}
use native.Mathlib.Omega.{arith}
use native.Mathlib.Nat.{div-div-eq-div-mul, mod_def, mul-div-le, pow-suc, one-le-pow}

-- A native operation on bits stands for a recursion over the digits, whose fuel the first operand
-- bounds: `rest` is what it gives of the second when the first has no more digits.
module _ (rest : ℕ → ℕ) (op : ℕ → ℕ → ℕ) where
  no_digits : (fuel b : ℕ) → digits rest op fuel 0 b ≡ rest b
  no_digits zero b = refl
  no_digits (suc fuel) b = refl

  digits-enough :
      (a b extra : ℕ) (fuel : ℕ)
      → a ≤ fuel
      → digits rest op (fuel + extra) a b ≡ digits rest op fuel a b
  digits-enough zero b extra fuel le = no_digits (fuel + extra) b ∙ sym (no_digits fuel b)
  digits-enough (suc a) b extra zero le = absurd (omega arith)
  digits-enough (suc a) b extra (suc fuel) le =
      let e : suc fuel + extra ≡ suc (fuel + extra) = omega arith in
      rw e (omega (arith, digits-enough (suc a / 2) (b / 2) extra fuel (omega arith)))

  -- The lowest digit apart, at the fuel that the operation takes.
  lowest :
      (a b : ℕ)
      → digits rest op (suc a) (suc a) b
        ≡ digits rest op (suc a / 2) (suc a / 2) (b / 2) * 2 + op (suc a % 2) (b % 2)
  lowest a b =
      let e : suc a / 2 + (a - suc a / 2) ≡ a = omega arith in
      let p = digits-enough (suc a / 2) (b / 2) (a - suc a / 2) (suc a / 2) (omega arith) in
      omega (arith, rw e at p)

bit_and_step : (a b : ℕ) → bit_and a b ≡ bit_and (a / 2) (b / 2) * 2 + min (a % 2) (b % 2)
bit_and_step zero b = omega (arith, bit_and-bitwise 0 b, bit_and-bitwise 0 (b / 2))
bit_and_step (suc a) b =
    let p = lowest (λ c. zero) min a b in
    omega (arith, bit_and-bitwise (suc a) b, p, bit_and-bitwise (suc a / 2) (b / 2))

bit_or_step : (a b : ℕ) → bit_or a b ≡ bit_or (a / 2) (b / 2) * 2 + max (a % 2) (b % 2)
bit_or_step zero b = omega (arith, bit_or-bitwise 0 b, bit_or-bitwise 0 (b / 2))
bit_or_step (suc a) b =
    let p = lowest (λ c. c) max a b in
    omega (arith, bit_or-bitwise (suc a) b, p, bit_or-bitwise (suc a / 2) (b / 2))

-- No bit of 0 is set: a number below a power of two in so many steps.
below_power : (k a : ℕ) → a < 2 ^ k → bit_and a 0 ≡ 0
below_power zero a lt = let e : a ≡ 0 = omega arith in rw e (bit_and-bitwise 0 0)
below_power (suc k) a lt =
    omega (arith, bit_and_step a 0, below_power k (a / 2) (omega (arith, pow-suc 2 k)))

lt_power : (a : ℕ) → a < 2 ^ a
lt_power zero = omega arith
lt_power (suc a) = omega (arith, lt_power a, pow-suc 2 a)

bit_and-zero : (a : ℕ) → bit_and a 0 ≡ 0
bit_and-zero a = below_power a a (lt_power a)

pub bit_and_15 : (a : ℕ) → bit_and a 15 ≡ a % 16
bit_and_15 a = omega (
  arith,
  bit_and_step a 15,
  bit_and_step (a / 2) 7,
  bit_and_step (a / 2 / 2) 3,
  bit_and_step (a / 2 / 2 / 2) 1,
  bit_and-zero (a / 2 / 2 / 2 / 2),
)

-- A mask of ones, digit by digit.
abbrev pub ones : ℕ → ℕ
ones zero = 0
ones (suc k) = ones k * 2 + 1

mod_step : (a m : ℕ) → 1 ≤ m → a % (m * 2) ≡ a / 2 % m * 2 + a % 2
mod_step a m pos =
    let e : 2 * m ≡ m * 2 = omega arith in
    let q : a / 2 / m ≡ a / (m * 2) = rw (← e) (div-div-eq-div-mul a 2 m) in
    let p : m * (a / 2 / m) ≡ m * (a / (m * 2)) = ap (λ (t : ℕ). m * t) q in
    omega (arith, mod_def a (m * 2), mod_def (a / 2) m, mul-div-le a (m * 2), mul-div-le (a / 2) m)

pub bit_and-ones : (k a : ℕ) → bit_and a (ones k) ≡ a % 2 ^ k
bit_and-ones zero a = omega (arith, bit_and-zero a)
bit_and-ones (suc k) a =
    let e : (ones k * 2 + 1) / 2 ≡ ones k = omega arith in
    let p : bit_and (a / 2) ((ones k * 2 + 1) / 2) ≡ a / 2 % 2 ^ k =
      rw e (bit_and-ones k (a / 2)) in
    rw pow-suc (
      omega
        (arith, bit_and_step a (ones k * 2 + 1), mod_step a (2 ^ k) (one-le-pow k 2 (omega arith))))

-- A field shifted above the bits of a number is added to it.
pub bit_or_field : (k a b : ℕ) → a < 2 ^ k → bit_or a (b * 2 ^ k) ≡ a + b * 2 ^ k
bit_or_field zero a b h =
    let e : a ≡ 0 = omega arith in rw (e, bit_or-bitwise 0 (b * 2 ^ 0)) (omega arith)
bit_or_field (suc k) a b h =
    let e : b * 2 ^ suc k ≡ b * 2 ^ k * 2 = rw pow-suc (omega arith) in
    let half : (b * 2 ^ k * 2) / 2 ≡ b * 2 ^ k = omega arith in
    let lt : a / 2 < 2 ^ k = omega (arith, pow-suc 2 k) in
    let ih : bit_or (a / 2) ((b * 2 ^ k * 2) / 2) ≡ a / 2 + b * 2 ^ k =
      rw half (bit_or_field k (a / 2) b lt) in
    rw e (omega (arith, bit_or_step a (b * 2 ^ k * 2), ih))

-- A mask whose low digits are 0.
pub bit_and_shift : (k a m : ℕ) → bit_and a (m * 2 ^ k) ≡ bit_and (a / 2 ^ k) m * 2 ^ k
bit_and_shift zero a m =
    let e : m * 2 ^ 0 ≡ m = omega arith in
    let d : a / 2 ^ 0 ≡ a = omega arith in rw (e, d) (omega arith)
bit_and_shift (suc k) a m =
    let e : m * 2 ^ suc k ≡ m * 2 ^ k * 2 = rw pow-suc (omega arith) in
    let half : m * 2 ^ k * 2 / 2 ≡ m * 2 ^ k = omega arith in
    let comm : 2 * 2 ^ k ≡ 2 ^ suc k = omega (arith, pow-suc 2 k) in
    let d : a / 2 / 2 ^ k ≡ a / 2 ^ suc k = rw (← comm) (div-div-eq-div-mul a 2 (2 ^ k)) in
    let ih : bit_and (a / 2) (m * 2 ^ k * 2 / 2) ≡ bit_and (a / 2 ^ suc k) m * 2 ^ k =
      rw half (rw d at (bit_and_shift k (a / 2) m)) in
    let s : bit_and (a / 2 ^ suc k) m * 2 ^ suc k ≡ bit_and (a / 2 ^ suc k) m * 2 ^ k * 2 =
      rw pow-suc (omega arith) in
    rw e (omega (arith, bit_and_step a (m * 2 ^ k * 2), ih, s))
