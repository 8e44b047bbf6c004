-- ===== src/Util/Power.antt =====
-- `pow` of bees/util/util.c doubles its number: what it leaves, type by type.
use hive_rk.Prelude.{ℕ, zero, suc, ◌+◌, ◌-◌, ◌*◌, ◌%◌, ◌/◌, ◌^◌, ◌≤◌, ◌<◌, ◌≡◌, ◌∙◌, ap, arith, sym}
use hive_rk.Prelude.{if◌then◌else◌, leb, ◌==◌, false}
use native.Mathlib.Nat.{
  pow-suc, mod-lt, one-le-pow, mod-add-div, mod-eq_of_lt, add-mul-mod_self_left,
}
use hive_rk.Util.{double, pow_signed, pow_unsigned, pow}
use hive_rk.Util.Types.{HasWidth, is_i32, is_u32, is_i16, is_u16, is_i8, is_u8}

mod-mul : (x k m : ℕ) → x % m * k % m ≡ x * k % m
mod-mul x k m =
    let e : x % m * k + m * (x / m * k) ≡ x * k =
      omega (arith, ap (λ (t : ℕ). t * k) (mod-add-div x m)) in
    rw (← e) (sym (add-mul-mod_self_left (x % m * k) m (x / m * k)))

double_lem : (w n num : ℕ) → num < 2 ^ w → double w n num ≡ num * 2 ^ n % 2 ^ w
unfolding double
double_lem w zero num lt = let e : num * 1 ≡ num = omega arith in rw e (sym (mod-eq_of_lt lt))
double_lem w (suc n) num lt =
    let e : (num + num) * 2 ^ n ≡ num * 2 ^ suc n = rw pow-suc (omega arith) in
    double_lem w n ((num + num) % 2 ^ w) (mod-lt (num + num) (one-le-pow w 2 (omega arith)))
    ∙ mod-mul (num + num) (2 ^ n) (2 ^ w)
    ∙ ap (λ (t : ℕ). t % 2 ^ w) e

pow_signed_lem :
    (w num e : ℕ) → num < 2 ^ w → e < 2 ^ (w - 1) → pow_signed w num e ≡ num * 2 ^ (e - 1) % 2 ^ w
unfolding pow_signed
pow_signed_lem w num e lt small =
    let b : leb (2 ^ (w - 1)) e ≡ false = ground arith in rw b (double_lem w (e - 1) num lt)

pow_unsigned_lem :
    (w num e : ℕ)
    → num < 2 ^ w
    → 1 ≤ e
    → e < 2 ^ 32
    → pow_unsigned w num e ≡ num * 2 ^ (e - 1) % 2 ^ w
unfolding pow_unsigned
pow_unsigned_lem w num e lt pos small =
    let b : (if w == 32 then (e + 2 ^ 32 - 1) % 2 ^ 32 else e - 1) ≡ e - 1 = ground arith in
    rw b (double_lem w (e - 1) num lt)

-- At each of the six types, for an exponent from 1 on that has no sign bit, `pow` ends and leaves the
-- number times 2 to the exponent less one, in the type's width: it doubles and does not multiply.
pub pow_doubles :
    {w type : ℕ} (num e : ℕ)
    → HasWidth w type
    → num < 2 ^ w
    → 1 ≤ e
    → e < 2 ^ (w - 1)
    → pow type num e ≡ num * 2 ^ (e - 1) % 2 ^ w
unfolding pow
pow_doubles num e is_i32 lt pos small = pow_signed_lem 32 num e lt small
pow_doubles num e is_u32 lt pos small = pow_unsigned_lem 32 num e lt pos (omega arith)
pow_doubles num e is_i16 lt pos small =
    let c : e % 2 ^ 16 ≡ e = omega arith in rw c (pow_signed_lem 16 num e lt small)
pow_doubles num e is_u16 lt pos small =
    let c : e % 2 ^ 16 ≡ e = omega arith in rw c (pow_unsigned_lem 16 num e lt pos (omega arith))
pow_doubles num e is_i8 lt pos small =
    let c : e % 2 ^ 8 ≡ e = omega arith in rw c (pow_signed_lem 8 num e lt small)
pow_doubles num e is_u8 lt pos small =
    let c : e % 2 ^ 8 ≡ e = omega arith in rw c (pow_unsigned_lem 8 num e lt pos (omega arith))
