-- ===== src/Heap/Life.antt =====
-- The heap of bees/memory/memory.c over several calls: no two available blocks lie side by side, and
-- a release undoes an allocation.
use hive_rk.Prelude.{ℕ, ◌+◌, ◌-◌, ◌*◌, ◌≤◌, ◌<◌, ◌≡◌, refl, ◌^◌, ◌%◌, ltb, ◌≢◌}
use hive_rk.Prelude.{List, [], ◌∷◌, ◌++◌, arith, Option, none, some, ◌∙◌}
use hive_rk.Prelude.{Bool-cases, inl, inr, ap, sym, subst, ==_ne}
use hive_rk.Heap.{Memory, unit_size, header_size, bytes_to_units}
use hive_rk.Heap.{heap_fuel, done, hang, kmalloc, kfree, kfree_within}
use hive_rk.Heap.Blocks.{Block, used, avail, size, total, Chain, IsHeap}
use hive_rk.Heap.Blocks.{Chain-back, total-append}
use hive_rk.Heap.Alloc.{Fit, find_fit, carve, granted, address, Finds, Found, find_fit_lem}
use hive_rk.Heap.Alloc.{Allocates, kmalloc_refines}
use hive_rk.Heap.Release.{attach, grown, rest, released, kfree_refines}

abbrev pub AfterAvail : List Block → Type 0
AfterAvail [] = Unit {0}
AfterAvail (used u ∷ bs) = Unit {0}
AfterAvail (avail u ∷ bs) = ⊥

-- No two available blocks lie side by side.
abbrev pub Separated : List Block → Type 0
Separated [] = Unit {0}
Separated (used u ∷ bs) = Separated bs
Separated (avail u ∷ bs) = AfterAvail bs × Separated bs

Separated-carve :
    (req u : ℕ) (front back : List Block)
    → Separated (front ++ avail u ∷ back)
    → Separated (front ++ carve req u back)
Separated-carve req u [] back s = elim (Bool-cases (ltb req u)) [
  | inl lt ↦ rw lt s
  | inr ge ↦ rw ge s.1
]
Separated-carve req u (used v ∷ front) back s = Separated-carve req u front back s
Separated-carve req u (avail v ∷ used w ∷ front) back s = (tt, Separated-carve req u front back s.1)
Separated-carve req u (avail v ∷ avail w ∷ front) back s = absurd s.0
Separated-carve req u (avail v ∷ []) back s = absurd s.0

-- `kmalloc` keeps available blocks apart.
pub granted-Separated :
    (req : ℕ) (bs : List Block) (f : Fit)
    → Finds req bs f
    → Separated bs
    → Separated (granted req f)
granted-Separated req bs f found s =
    Separated-carve req f.units f.front f.back (subst Separated found.splits s)

Separated-rest :
    (back : List Block) → Separated back → AfterAvail (rest back) × Separated (rest back)
Separated-rest [] s = (tt, tt)
Separated-rest (used v ∷ bs) s = (tt, s)
Separated-rest (avail v ∷ bs) s = s

AfterAvail-attach :
    (front : List Block) (u v : ℕ) (bs ys : List Block)
    → AfterAvail (front ++ used v ∷ ys)
    → front ≢ []
    → AfterAvail (attach front u bs)
unfolding attach
AfterAvail-attach [] u v bs ys a ne = absurd (ne refl)
AfterAvail-attach (used w ∷ []) u v bs ys a ne = tt
AfterAvail-attach (avail w ∷ c) u v bs ys a ne = absurd a
AfterAvail-attach (used w ∷ c ∷ front) u v bs ys a ne = tt

Separated-attach :
    (front : List Block) (u v : ℕ) (bs ys : List Block)
    → AfterAvail bs
    → Separated bs
    → Separated (front ++ used v ∷ ys)
    → Separated (attach front u bs)
unfolding attach
Separated-attach [] u v bs ys a s t = (a, s)
Separated-attach (used w ∷ []) u v bs ys a s t = (a, s)
Separated-attach (avail w ∷ []) u v bs ys a s t = (a, s)
Separated-attach (used w ∷ c ∷ front) u v bs ys a s t = Separated-attach (c ∷ front) u v bs ys a s t
Separated-attach (avail w ∷ c ∷ front) u v bs ys a s t = (
  AfterAvail-attach (c ∷ front) u v bs ys t.0 (λ e. cc),
  Separated-attach (c ∷ front) u v bs ys a s t.1,
)

Separated-drop :
    (front : List Block) (b : Block) (back : List Block)
    → Separated (front ++ b ∷ back)
    → Separated (b ∷ back)
Separated-drop [] b back s = s
Separated-drop (used w ∷ front) b back s = Separated-drop front b back s
Separated-drop (avail w ∷ front) b back s = Separated-drop front b back s.1

released-Separated :
    (front : List Block) (u : ℕ) (back : List Block)
    → Separated (front ++ used u ∷ back)
    → Separated (released front u back)
released-Separated front u back s =
    let r = Separated-rest back (Separated-drop front (used u) back s) in
    Separated-attach front (grown u back) u (rest back) back r.0 r.1 s

-- `kfree` of the payload of a block in use, on a well-formed heap with no two available blocks side by
-- side, ends and leaves a well-formed heap with no two available blocks side by side.
pub kfree-Separated :
    (heap : ℕ) (m : Memory) (front : List Block) (u : ℕ) (back : List Block)
    → IsHeap heap m (front ++ used u ∷ back)
    → Separated (front ++ used u ∷ back)
    → (m' : Memory) × (bs : List Block) × (kfree heap m
          (heap + total front * unit_size + header_size)
        ≡ done m')
      × IsHeap heap m' bs
      × Separated bs
kfree-Separated heap m front u back is separated =
    let (m', frees, is') = kfree_refines heap m front u back is in
    (m', released front u back, frees, is', released-Separated front u back separated)

-- On blocks, releasing what first fit cut out of a separated list gives the list back.
attach_avail :
    (front : List Block) (u : ℕ) (back : List Block)
    → Separated (front ++ avail u ∷ back)
    → attach front u back ≡ front ++ avail u ∷ back
unfolding attach
attach_avail [] u back s = refl
attach_avail (used v ∷ []) u back s = refl
attach_avail (avail v ∷ []) u back s = absurd s.0
attach_avail (used v ∷ c ∷ front) u back s =
    ap (λ l. used v ∷ l) (attach_avail (c ∷ front) u back s)
attach_avail (avail v ∷ c ∷ front) u back s =
    ap (λ l. avail v ∷ l) (attach_avail (c ∷ front) u back s.1)

rest_after : (back : List Block) → AfterAvail back → rest back ≡ back
rest_after [] a = refl
rest_after (used v ∷ bs) a = refl
rest_after (avail v ∷ bs) a = absurd a

grown_after : (u : ℕ) (back : List Block) → AfterAvail back → grown u back ≡ u
grown_after u [] a = refl
grown_after u (used v ∷ bs) a = refl
grown_after u (avail v ∷ bs) a = absurd a

-- What is released again right after it was cut from an available block of `u` units.
abbrev pub Undoes : Memory → ℕ → ℕ → List Block → Type 0
Undoes m heap ptr bs = (m' : Memory) × (kfree heap m ptr ≡ done m') × IsHeap heap m' bs

undo_split :
    (heap req : ℕ) (m : Memory) (front : List Block) (u : ℕ) (back : List Block)
    → IsHeap heap m (front ++ carve req u back)
    → req ≤ u
    → Separated (front ++ avail u ∷ back)
    → Undoes m heap (heap + total front * unit_size + header_size) (front ++ avail u ∷ back)
undo_split heap req m front u back is le s =
    let t = Separated-drop front (avail u) back s in
    elim (Bool-cases (ltb req u)) [
      | inl lt ↦
          let e : req + (u - req) ≡ u = ground arith in
          let i = rw lt at is in
          let (m', run, is') = kfree_refines heap m front req (avail (u - req) ∷ back) i in
          let same = ap (λ n. attach front n back) e ∙ attach_avail front u back s in
          (m', run, subst (IsHeap heap m') same is')
      | inr ge ↦
          let i = rw ge at is in
          let (m', run, is') = kfree_refines heap m front u back i in
          let r = rest_after back t.0 in
          let g = grown_after u back t.0 in
          let same =
            ap (λ n. attach front n (rest back)) g
            ∙ ap (attach front u) r
            ∙ attach_avail front u back s in
          (m', run, subst (IsHeap heap m') same is')
    ]

undo-Found :
    (heap : ℕ) (m m' : Memory) (bs : List Block) (size ptr : ℕ) (o : Option Fit)
    → IsHeap heap m bs
    → Separated bs
    → Found (bytes_to_units size) bs o
    → Allocates heap m size bs o
    → kmalloc heap m size ≡ some (m', ptr)
    → Undoes m' heap ptr bs
unfolding kfree kfree_within
undo-Found heap m m' bs size ptr none is s found a e =
    let ep : ptr ≡ 0 = cc in let em : m ≡ m' = cc in rw (ep, ← em) (m, refl, is)
undo-Found heap m m' bs size ptr (some f) is s found (m1, e1, is1) e =
    let req = bytes_to_units size in
    let ep : address heap f + header_size ≡ ptr = cc in
    let em : m1 ≡ m' = cc in
    let (m2, run, is2) =
      undo_split heap req m1 f.front f.units f.back is1 found.enough
        (subst Separated found.splits s) in
    subst (λ n. Undoes n heap ptr bs) em
      (
        m2,
        subst (λ p. kfree heap m1 p ≡ done m2) ep run,
        subst (IsHeap heap m2) (sym found.splits) is2,
      )

-- On a well-formed heap with no two available blocks side by side, `kfree` of what `kmalloc` of 1 to
-- 4194232 bytes stored ends and gives the blocks of the heap back as they were before both calls,
-- also where `kmalloc` stored null.
pub kfree-kmalloc :
    (heap : ℕ) (m m' : Memory) (bs : List Block) (size ptr : ℕ)
    → IsHeap heap m bs
    → Separated bs
    → 1 ≤ size
    → size ≤ 4194232
    → kmalloc heap m size ≡ some (m', ptr)
    → Undoes m' heap ptr bs
kfree-kmalloc heap m m' bs size ptr is s pos small e =
    undo-Found heap m m' bs size ptr (find_fit (bytes_to_units size) bs) is s
      (find_fit_lem (bytes_to_units size) bs) (kmalloc_refines heap m bs size is pos small) e

hang_at :
    (fuel heap q : ℕ) (m : Memory)
    → q + header_size < 2 ^ 32
    → (m q).free ≡ 1
    → kfree_within fuel heap m (q + header_size) ≡ hang
unfolding kfree_within
hang_at fuel heap q m lim e =
    let b : (q + header_size + 2 ^ 32 - header_size) % 2 ^ 32 ≡ q = omega arith in
    rw (==_ne (q + header_size) 0 (omega arith), b, e)

-- `kfree` of the payload address of a block that is available already never returns.
pub kfree_avail_hangs :
    (heap : ℕ) (m : Memory) (front : List Block) (u : ℕ) (back : List Block)
    → IsHeap heap m (front ++ avail u ∷ back)
    → kfree heap m (heap + total front * unit_size + header_size) ≡ hang
unfolding kfree
kfree_avail_hangs heap m front u back is =
    let q : ℕ = heap + total front * unit_size in
    let c : Chain m q (avail u ∷ back) = Chain-back m heap q front (avail u) back refl is.chain in
    let sum = total-append front (avail u ∷ back) in
    hang_at heap_fuel heap q m (omega (arith, is.all_units, is.in_memory)) c.0.1
