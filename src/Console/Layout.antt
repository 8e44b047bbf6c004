-- ===== src/Console/Layout.antt =====
-- Where `SYSprint` puts the characters of a text.
use hive_rk.Prelude.{ℕ, zero, suc, ◌+◌, ◌-◌, ◌*◌, ◌/◌, ◌%◌, ◌≡◌, ◌≢◌, refl, ◌∙◌, arith}
use hive_rk.Prelude.{◌==◌, if◌then◌else◌, inl, inr, Bool-cases, List, [], ◌∷◌, length}
use hive_rk.Prelude.{All, get_or, ==_ne, false, store, ◌++◌, within}
use hive_rk.Console.{print_err_from, print_err}
use hive_rk.Console.{vidmem, clear_from, sys_clear, swapped, print_from, sys_print}

clear_from_lem :
    (n s a : ℕ) (mem : ℕ → ℕ)
    → clear_from n s mem a ≡ (if within (vidmem + s) n a then 0 else mem a)
unfolding clear_from
clear_from_lem zero s a mem = ground arith
clear_from_lem (suc n) s a mem =
    clear_from_lem n (s + 1) a (store mem (vidmem + s) 0) ∙ ground arith

-- The loop that clears the screen clears its 4000 bytes and no other.
pub sys_clear_lem :
    (a : ℕ) (mem : ℕ → ℕ) → sys_clear mem a ≡ (if within vidmem 4000 a then 0 else mem a)
unfolding sys_clear
sys_clear_lem a mem = clear_from_lem 4000 0 a mem

-- Memory with a line of text from byte `vp` of the screen on.
abbrev pub with_line : (ℕ → ℕ) → ℕ → List ℕ → ℕ → ℕ → ℕ
with_line mem vp str color a =
    if within (vidmem + vp) (length str * 2) a
    then (if (a - (vidmem + vp)) % 2 == 0 then get_or str ((a - (vidmem + vp)) / 2) 0 else color)
    else mem a

line_step :
    (mem : ℕ → ℕ) (vp c color a : ℕ) (str : List ℕ)
    → with_line (store (store mem (vidmem + vp) c) (vidmem + (vp + 1)) color) (vp + 2) str color a
      ≡ with_line mem vp (c ∷ str) color a
line_step mem vp c color a str = elim (Bool-cases (a == vidmem + vp)) [
  | inl here ↦ let z : (a - (vidmem + vp)) / 2 ≡ 0 = ground arith in rw z (ground arith)
  | inr other ↦ elim (Bool-cases (a == vidmem + vp + 1)) [
    | inl next ↦ ground arith
    | inr more ↦ elim (Bool-cases (within (vidmem + (vp + 2)) (length str * 2) a)) [
      | inl inside ↦
          let z : (a - (vidmem + vp)) / 2 ≡ suc ((a - (vidmem + (vp + 2))) / 2) = ground arith in
          rw z (ground arith)
      | inr out ↦ ground arith
    ]
  ]
]

line_lem :
    (x y color vp nl a : ℕ) (str : List ℕ) (mem : ℕ → ℕ)
    → All (λ c. c ≢ 10) str
    → print_from x y color vp nl str mem a ≡ with_line mem vp str color a
unfolding print_from
line_lem x y color vp nl a [] mem h = ground arith
line_lem x y color vp nl a (c ∷ str) mem h =
    let n : (c == 10) ≡ false = ==_ne c 10 h.0 in
    rw n (
      line_lem x y color (vp + 2) nl a str
        (store (store mem (vidmem + vp) c) (vidmem + (vp + 1)) color) h.1
      ∙ line_step mem vp c color a str)

-- `SYSprint` of a line writes its characters to the cells from column `x` of row `y` on, each with the
-- colour byte, and changes nothing else.
pub sys_print_line :
    (str : List ℕ) (x y color a : ℕ) (mem : ℕ → ℕ)
    → All (λ c. c ≢ 10) str
    → sys_print str x y color mem a ≡ with_line mem (160 * y + x * 2) str (swapped color) a
unfolding sys_print
sys_print_line str x y color a mem h = line_lem x y (swapped color) (160 * y + x * 2) 0 a str mem h

next_row :
    (x y color vp nl : ℕ) (str : List ℕ) (mem : ℕ → ℕ)
    → print_from x y color vp (nl + 1) str mem ≡ print_from x (y + 1) color vp nl str mem
unfolding print_from
next_row x y color vp nl [] mem = refl
next_row x y color vp nl (c ∷ str) mem = elim (Bool-cases (c == 10)) [
  | inl n ↦
      let e : 160 * y + x * 2 + (nl + 1 + 1) * 160 ≡ 160 * (y + 1) + x * 2 + (nl + 1) * 160 =
        omega arith in
      rw (n, e) (next_row x y color (160 * (y + 1) + x * 2 + (nl + 1) * 160) (nl + 1) str mem)
  | inr n ↦ rw n (
      next_row x y color (vp + 2) nl str
        (store (store mem (vidmem + vp) c) (vidmem + (vp + 1)) color))
]

newline_lem :
    (x y color vp : ℕ) (str rest : List ℕ) (mem : ℕ → ℕ)
    → All (λ c. c ≢ 10) str
    → print_from x y color vp 0 (str ++ 10 ∷ rest) mem
      ≡ print_from x
          (y + 1)
          color
          (160 * (y + 1) + x * 2)
          0
          rest
          (print_from x y color vp 0 str mem)
unfolding print_from
newline_lem x y color vp [] rest mem h =
    let e : 160 * y + x * 2 + 160 ≡ 160 * (y + 1) + x * 2 = omega arith in
    rw e (next_row x y color (160 * (y + 1) + x * 2) 0 rest mem)
newline_lem x y color vp (c ∷ str) rest mem h =
    let n : (c == 10) ≡ false = ==_ne c 10 h.0 in
    rw n (
      newline_lem x y color (vp + 2) str rest
        (store (store mem (vidmem + vp) c) (vidmem + (vp + 1)) color) h.1)

-- Behind a new line `SYSprint` goes on at the same column of the next row.
pub sys_print-newline :
    (str rest : List ℕ) (x y color : ℕ) (mem : ℕ → ℕ)
    → All (λ c. c ≢ 10) str
    → sys_print (str ++ 10 ∷ rest) x y color mem
      ≡ sys_print rest x (y + 1) color (sys_print str x y color mem)
unfolding sys_print
sys_print-newline str rest x y color mem h =
    newline_lem x y (swapped color) (160 * y + x * 2) str rest mem h

print_err_from_lem :
    (x y vp nl : ℕ) (str : List ℕ) (mem : ℕ → ℕ)
    → All (λ c. c ≢ 10) str
    → print_err_from vp str mem ≡ print_from x y 4 vp nl str mem
unfolding print_err_from print_from
print_err_from_lem x y vp nl [] mem h = refl
print_err_from_lem x y vp nl (c ∷ str) mem h =
    let n : (c == 10) ≡ false = ==_ne c 10 h.0 in
    rw n (
      print_err_from_lem x y (vp + 2) nl str
        (store (store mem (vidmem + vp) c) (vidmem + (vp + 1)) 4) h.1)

-- `printERR` of a line is `SYSprint` of it from the first column on, in red.
pub print_err_lem :
    (str : List ℕ) (y : ℕ) (mem : ℕ → ℕ)
    → All (λ c. c ≢ 10) str
    → print_err str y mem ≡ sys_print str 0 y 0x40 mem
unfolding print_err sys_print swapped
print_err_lem str y mem h =
    let e : 160 * y + 0 * 2 ≡ 160 * y = omega arith in
    rw e (print_err_from_lem 0 y (160 * y) 0 str mem h)
