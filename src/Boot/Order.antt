-- ===== src/Boot/Order.antt =====
-- The order in which `run_inits` of queen/main.c starts the modules.
use mathlib.Core.List.Perm
use mathlib.Core.List.{Perm, perm_middle}
use hive_rk.Prelude.{ℕ, zero, suc, ◌+◌, ◌≤◌, ◌<◌, ◌≡◌, refl, arith}
use hive_rk.Prelude.{◌==◌, leb, true, false, Bool, All}
use hive_rk.Prelude.{All-append, Bool-cases, inl, inr, List, [], ◌∷◌, ◌++◌, ◌⊎◌}
use hive_rk.Queen.{BeeData}
use hive_rk.Boot.Slots.{Bee, numbered, keep, at_priority, by_priority}

-- The modules at a priority or behind it.
from_priority : ℕ → List Bee → List Bee
from_priority s ys = keep (λ y. leb s y.1.priority) ys

from_priority_split :
    (s : ℕ) (ys : List Bee)
    → Perm (at_priority s ys ++ from_priority (s + 1) ys) (from_priority s ys)
unfolding at_priority from_priority keep
from_priority_split s [] = Perm.rfl
from_priority_split s (y ∷ ys) = elim (Bool-cases (y.1.priority == s)) [
  | inl t ↦
      let u : leb (s + 1) y.1.priority ≡ false = ground arith in
      let v : leb s y.1.priority ≡ true = ground arith in
      rw (t, u, v) (Perm.cons y (from_priority_split s ys))
  | inr t ↦ elim (Bool-cases (leb s y.1.priority)) [
    | inl v ↦
        let u : leb (s + 1) y.1.priority ≡ true = ground arith in
        rw (t, u, v)
          (Perm.trans (perm_middle (at_priority s ys) _) (Perm.cons y (from_priority_split s ys)))
    | inr v ↦
        let u : leb (s + 1) y.1.priority ≡ false = ground arith in
        rw (t, u, v) (from_priority_split s ys)
  ]
]

All-map : {P Q : Bee → Type 0} (ys : List Bee) → ((y : Bee) → P y → Q y) → All P ys → All Q ys
All-map [] f h = tt
All-map (y ∷ ys) f h = (f y h.0, All-map ys f h.1)

none_from : (s : ℕ) (ys : List Bee) → All (λ y. y.1.priority < s + 0) ys → from_priority s ys ≡ []
unfolding from_priority keep
none_from s [] h = refl
none_from s (y ∷ ys) h =
    let v : leb s y.1.priority ≡ false = ground (arith, h.0) in rw v (none_from s ys h.1)

by_priority-Perm :
    (n s : ℕ) (ys : List Bee)
    → All (λ y. y.1.priority < s + n) ys
    → Perm (by_priority n s ys) (from_priority s ys)
unfolding by_priority
by_priority-Perm zero s ys h = rw (none_from s ys h) Perm.rfl
by_priority-Perm (suc n) s ys h =
    let rest = by_priority-Perm n (s + 1) ys (All-map ys (λ y lt. omega arith) h) in
    Perm.trans (Perm.append_left (at_priority s ys) rest) (from_priority_split s ys)

all_from_zero : (ys : List Bee) → from_priority 0 ys ≡ ys
unfolding from_priority keep
all_from_zero [] = refl
all_from_zero (y ∷ ys) =
    let v : leb 0 y.1.priority ≡ true = ground arith in rw (v, all_from_zero ys) refl

-- One module is started before another: its priority is smaller, or equal and its slot is.
abbrev pub Before : Bee → Bee → Type 0
Before x y = (x.1.priority < y.1.priority) ⊎ (x.1.priority ≡ y.1.priority) × (x.0 < y.0)

abbrev pub IsOrdered : List Bee → Type 0
IsOrdered [] = Unit
IsOrdered (x ∷ xs) = All (Before x) xs × IsOrdered xs

All-keep :
    (P : Bee → Type 0) (test : Bee → Bool) (ys : List Bee)
    → All P ys
    → All (λ y. P y × (test y ≡ true)) (keep test ys)
unfolding keep
All-keep P test [] h = tt
All-keep P test (y ∷ ys) h = elim (Bool-cases (test y)) [
  | inl t ↦ rw t ((h.0, t), All-keep P test ys h.1)
  | inr t ↦ rw t (All-keep P test ys h.1)
]

numbered-above : (k j : ℕ) (ps : List BeeData) → j < k → All (λ y. j < y.0) (numbered k ps)
unfolding numbered
numbered-above k j [] lt = tt
numbered-above k j (p ∷ ps) lt = (lt, numbered-above (k + 1) j ps (omega arith))

at_priority-IsOrdered : (s k : ℕ) (ps : List BeeData) → IsOrdered (at_priority s (numbered k ps))
unfolding at_priority keep numbered
at_priority-IsOrdered s k [] = tt
at_priority-IsOrdered s k (p ∷ ps) = elim (Bool-cases (p.priority == s)) [
  | inl t ↦
      let above =
        All-keep (λ y. k < y.0) (λ y. y.1.priority == s) (numbered (k + 1) ps)
          (numbered-above (k + 1) k ps (omega arith)) in
      rw t (
        All-map (at_priority s (numbered (k + 1) ps)) (λ y h. inr (ground arith, h.0)) above,
        at_priority-IsOrdered s (k + 1) ps,
      )
  | inr t ↦ rw t (at_priority-IsOrdered s (k + 1) ps)
]

IsOrdered-append :
    (xs ys : List Bee)
    → IsOrdered xs
    → IsOrdered ys
    → All (λ x. All (Before x) ys) xs
    → IsOrdered (xs ++ ys)
IsOrdered-append [] ys hx hy h = hy
IsOrdered-append (x ∷ xs) ys hx hy h =
    (All-append (Before x) xs ys hx.0 h.0, IsOrdered-append xs ys hx.1 hy h.1)

keep_self : (test : Bee → Bool) (ys : List Bee) → All (λ y. test y ≡ true) (keep test ys)
unfolding keep
keep_self test [] = tt
keep_self test (y ∷ ys) = elim (Bool-cases (test y)) [
  | inl t ↦ rw t (t, keep_self test ys)
  | inr t ↦ rw t (keep_self test ys)
]

by_priority-above : (n s : ℕ) (ys : List Bee) → All (λ y. s ≤ y.1.priority) (by_priority n s ys)
unfolding by_priority at_priority
by_priority-above zero s ys = tt
by_priority-above (suc n) s ys =
    All-append (λ y. s ≤ y.1.priority) (at_priority s ys) (by_priority n (s + 1) ys)
      (All-map (at_priority s ys) (λ y t. ground arith) (keep_self (λ y. y.1.priority == s) ys))
      (All-map (by_priority n (s + 1) ys) (λ y t. omega arith) (by_priority-above n (s + 1) ys))

by_priority-IsOrdered : (n s : ℕ) (ps : List BeeData) → IsOrdered (by_priority n s (numbered 0 ps))
unfolding by_priority at_priority
by_priority-IsOrdered zero s ps = tt
by_priority-IsOrdered (suc n) s ps =
    let rest = by_priority n (s + 1) (numbered 0 ps) in
    IsOrdered-append (at_priority s (numbered 0 ps)) rest (at_priority-IsOrdered s 0 ps)
      (by_priority-IsOrdered n (s + 1) ps)
      (All-map (at_priority s (numbered 0 ps))
        (λ x t.
          All-map rest (λ y le. inl (ground arith)) (by_priority-above n (s + 1) (numbered 0 ps)))
        (keep_self (λ y. y.1.priority == s) (numbered 0 ps)))

pub in_order :
    (ps : List BeeData)
    → All (λ y. y.1.priority < 256) (numbered 0 ps)
    → Perm (by_priority 256 0 (numbered 0 ps)) (numbered 0 ps)
      × IsOrdered (by_priority 256 0 (numbered 0 ps))
in_order ps h =
    let p =
      by_priority-Perm 256 0 (numbered 0 ps) (All-map (numbered 0 ps) (λ y lt. omega arith) h) in
    (rw (all_from_zero (numbered 0 ps)) at p, by_priority-IsOrdered 256 0 ps)
