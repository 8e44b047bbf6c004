-- ===== src/Util/Bytes.antt =====
-- `memcpy` and `memset` of bees/util/util.c, byte by byte.
use hive_rk.Prelude.{ℕ, zero, suc, ◌+◌, ◌-◌, ◌≤◌, ◌≡◌, ◌∙◌, ◌^◌, ◌%◌, ◌⊎◌, inl, inr, arith, ap}
use hive_rk.Prelude.{store, ltb, leb, ◌&&◌, if◌then◌else◌, ◌==◌}
use hive_rk.Prelude.{Bool-cases, Bool}
use native.Mathlib.Nat.{add-zero}
use hive_rk.Util.{Bytes, copy_from, memcpy, fill_from, memset}

-- `a` is one of the `size` addresses from `p` on.
abbrev pub within : ℕ → ℕ → ℕ → Bool
within p size a = leb p a && ltb a (p + size)

-- One round: what the later rounds read is not yet written, and what they leave alone is.
copy_step :
    (n i dst src : ℕ) (m : Bytes) (a : ℕ)
    → (dst ≤ src) ⊎ (src + i + suc n ≤ dst)
    → (if within (dst + (i + 1)) n a
        then store m (dst + i) (m (src + i)) (src + (a - dst))
        else store m (dst + i) (m (src + i)) a)
      ≡ (if within (dst + i) (suc n) a then m (src + (a - dst)) else m a)
copy_step n i dst src m a apart = elim (Bool-cases (a == dst + i)) [
  | inl e ↦
      let here : m (src + (a - dst)) ≡ m (src + i) = ap m (ground arith) in ground (arith, here)
  | inr ne ↦ ground arith
]

-- A loop that has yet to copy `n` bytes, from index `i` on.
copy_from_lem :
    (n i dst src : ℕ) (m : Bytes) (a : ℕ)
    → dst + i + n ≤ 2 ^ 32
    → src + i + n ≤ 2 ^ 32
    → (dst ≤ src) ⊎ (src + i + n ≤ dst)
    → copy_from n i dst src m a ≡ (if within (dst + i) n a then m (src + (a - dst)) else m a)
unfolding copy_from
copy_from_lem zero i dst src m a hd hs apart = ground arith
copy_from_lem (suc n) i dst src m a hd hs apart =
    let d : (dst + i) % 2 ^ 32 ≡ dst + i = omega arith in
    let s : (src + i) % 2 ^ 32 ≡ src + i = omega arith in
    let ih =
      copy_from_lem n (i + 1) dst src (store m (dst + i) (m (src + i))) a (omega arith)
        (omega arith) (omega arith) in
    rw (d, s) (ih ∙ copy_step n i dst src m a apart)

-- `memcpy` where neither range passes the end of memory, and the destination does not begin inside
-- the source: each byte of the destination is the source's old byte, and no other byte changes.
pub memcpy_lem :
    (dst src size : ℕ) (m : Bytes) (a : ℕ)
    → dst + size ≤ 2 ^ 32
    → src + size ≤ 2 ^ 32
    → (dst ≤ src) ⊎ (src + size ≤ dst)
    → memcpy dst src size m a ≡ (if within dst size a then m (src + (a - dst)) else m a)
unfolding memcpy
memcpy_lem dst src size m a hd hs apart =
    copy_from_lem size 0 dst src m a (omega arith) (omega arith) (omega arith) ∙ rw add-zero

fill_from_lem :
    (n i ptr value : ℕ) (m : Bytes) (a : ℕ)
    → ptr + i + n ≤ 2 ^ 32
    → fill_from n i ptr value m a ≡ (if within (ptr + i) n a then value else m a)
unfolding fill_from
fill_from_lem zero i ptr value m a h = ground arith
fill_from_lem (suc n) i ptr value m a h =
    let d : (ptr + i) % 2 ^ 32 ≡ ptr + i = omega arith in
    rw d
      (fill_from_lem n (i + 1) ptr value (store m (ptr + i) value) a (omega arith) ∙ ground arith)

-- `memset` where the range does not pass the end of memory: each byte of the range is the low byte
-- of the value, and no other byte changes.
pub memset_lem :
    (ptr value size : ℕ) (m : Bytes) (a : ℕ)
    → ptr + size ≤ 2 ^ 32
    → memset ptr value size m a ≡ (if within ptr size a then value % 2 ^ 8 else m a)
unfolding memset
memset_lem ptr value size m a h =
    fill_from_lem size 0 ptr (value % 2 ^ 8) m a (omega arith) ∙ rw add-zero
