-- ===== src/Prelude/Store.antt =====
-- Memory as a total map from addresses: a write changes one address.
use Prim.Native.Nat.{ℕ, ◌+◌}
use mathlib.Core.Bool.{Bool, ◌&&◌}
use mathlib.Core.Path.{◌≡◌}
use native.Mathlib.Omega.{arith}
use hive_rk.Prelude.Tests.{◌==◌, if◌then◌else◌, leb, ltb}

-- `a` is one of the `size` addresses from `p` on.
abbrev pub within : ℕ → ℕ → ℕ → Bool
within p size a = leb p a && ltb a (p + size)

module _ {ℓ} {A : Type ℓ} where
  abbrev pub store : (ℕ → A) → ℕ → A → ℕ → A
  store m p v q = if p == q then v else m q

  pub store_self : (m : ℕ → A) (p : ℕ) (v : A) → store m p v p ≡ v
  store_self m p v = ground arith

  pub store_ne : (m : ℕ → A) (p q : ℕ) (v : A) → ¬ (p ≡ q) → store m p v q ≡ m q
  store_ne m p q v h = ground arith
