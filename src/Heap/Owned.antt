-- ===== src/Heap/Owned.antt =====
-- Which addresses of the heap of bees/memory/memory.c belong to blocks in use.
use hive_rk.Prelude.{
  ℕ, ◌+◌, ◌-◌, ◌*◌, ◌≤◌, ◌<◌, ◌≡◌, refl, List, [], ◌∷◌, ◌++◌, arith, Option, none,
}
use hive_rk.Prelude.{some, ltb, Bool-cases, inl, inr, ◌⊎◌, subst, ◌≢◌}
use hive_rk.Heap.{Memory, unit_size, header_size, bytes_to_units, kmalloc}
use hive_rk.Heap.Blocks.{Block, used, avail, size, total, IsHeap}
use hive_rk.Heap.Alloc.{Fit, find_fit, carve, granted, address, Found, find_fit_lem}
use hive_rk.Heap.Alloc.{Allocates, kmalloc_refines, bytes_to_units_bounds}

-- The address `a` lies in a block in use, its header included.
abbrev pub Owned : ℕ → List Block → ℕ → Type 0
Owned p [] a = ⊥
Owned p (used u ∷ bs) a = ((p ≤ a) × (a < p + u * unit_size)) ⊎ Owned (p + u * unit_size) bs a
Owned p (avail u ∷ bs) a = Owned (p + u * unit_size) bs a

Owned-le : (p : ℕ) (bs : List Block) (a : ℕ) → Owned p bs a → p ≤ a
Owned-le p [] a o = absurd o
Owned-le p (used u ∷ bs) a (inl h) = h.0
Owned-le p (used u ∷ bs) a (inr o) = omega (arith, Owned-le (p + u * unit_size) bs a o)
Owned-le p (avail u ∷ bs) a o = omega (arith, Owned-le (p + u * unit_size) bs a o)

-- Where a block was found, ownership before is ownership of the front or of the back.
module _ (req u : ℕ) (back : List Block) (le : req ≤ u) where
  Owned-carve : (p a : ℕ) → Owned (p + u * unit_size) back a → Owned p (carve req u back) a
  Owned-carve p a o = elim (Bool-cases (ltb req u)) [
    | inl lt ↦
        let e : p + u * unit_size ≡ p + req * unit_size + (u - req) * unit_size = ground arith in
        rw lt (inr (subst (λ q. Owned q back a) e o))
    | inr ge ↦ rw ge (inr o)
  ]

  Owned-new : (p a : ℕ) → p ≤ a → a < p + req * unit_size → Owned p (carve req u back) a
  Owned-new p a lo hi = elim (Bool-cases (ltb req u)) [
    | inl lt ↦ rw lt (inl (lo, hi))
    | inr ge ↦ rw ge (inl (lo, ground arith))
  ]

module _ (req u : ℕ) (back : List Block) (le : req ≤ u) where
  Owned-keep :
      (front : List Block) (p a : ℕ)
      → Owned p (front ++ avail u ∷ back) a
      → Owned p (front ++ carve req u back) a
  Owned-keep [] p a o = Owned-carve req u back le p a o
  Owned-keep (used v ∷ bs) p a (inl h) = inl h
  Owned-keep (used v ∷ bs) p a (inr o) = inr (Owned-keep bs (p + v * unit_size) a o)
  Owned-keep (avail v ∷ bs) p a o = Owned-keep bs (p + v * unit_size) a o

  Owned-gain :
      (front : List Block) (p q a : ℕ)
      → q ≡ p + total front * unit_size
      → q ≤ a
      → a < q + req * unit_size
      → Owned p (front ++ carve req u back) a
  Owned-gain [] p q a e lo hi = Owned-new req u back le p a (omega arith) (omega arith)
  Owned-gain (used v ∷ bs) p q a e lo hi =
      inr (Owned-gain bs (p + v * unit_size) q a (omega arith) lo hi)
  Owned-gain (avail v ∷ bs) p q a e lo hi =
      Owned-gain bs (p + v * unit_size) q a (omega arith) lo hi

  not-Owned :
      (front : List Block) (p q a : ℕ)
      → q ≡ p + total front * unit_size
      → q ≤ a
      → a < q + req * unit_size
      → ¬ Owned p (front ++ avail u ∷ back) a
  not-Owned [] p q a e lo hi o = omega (arith, Owned-le (p + u * unit_size) back a o)
  not-Owned (used v ∷ bs) p q a e lo hi (inl h) = omega arith
  not-Owned (used v ∷ bs) p q a e lo hi (inr o) =
      not-Owned bs (p + v * unit_size) q a (omega arith) lo hi o
  not-Owned (avail v ∷ bs) p q a e lo hi o =
      not-Owned bs (p + v * unit_size) q a (omega arith) lo hi o

-- What a successful allocation of `size` bytes at `data` on the blocks `bs` guarantees.
pub record IsFresh (heap : ℕ) (bs : List Block) (size ptr : ℕ) (m' : Memory) : Type 0 where
  pub after : List Block
  pub heap_after : IsHeap heap m' after
  pub was_free : (a : ℕ) → ptr ≤ a → a < ptr + size → ¬ Owned heap bs a
  pub is_owned : (a : ℕ) → ptr ≤ a → a < ptr + size → Owned heap after a
  pub kept : (a : ℕ) → Owned heap bs a → Owned heap after a

IsFresh-of_Found :
    (heap : ℕ) (m m' : Memory) (bs : List Block) (size ptr : ℕ) (o : Option Fit)
    → size ≤ 4194232
    → Found (bytes_to_units size) bs o
    → Allocates heap m size bs o
    → kmalloc heap m size ≡ some (m', ptr)
    → ptr ≢ 0
    → IsFresh heap bs size ptr m'
IsFresh-of_Found heap m m' bs size ptr none small found al e ne = absurd (ne (cc))
IsFresh-of_Found heap m m' bs size ptr (some f) small found (m1, e1, is) e ne =
    let req = bytes_to_units size in
    let ep : ptr ≡ address heap f + header_size = cc in
    let em : m1 ≡ m' = cc in
    let bounds = bytes_to_units_bounds size small in
    record {
      after = granted req f;
      heap_after = subst (λ n. IsHeap heap n (granted req f)) em is;
      was_free = λ a lo hi o.
          not-Owned req f.units f.back found.enough f.front heap (address heap f) a refl
            (omega arith) (omega arith) (subst (λ l. Owned heap l a) found.splits o);
      is_owned = λ a lo hi.
          Owned-gain req f.units f.back found.enough f.front heap (address heap f) a refl
            (omega arith) (omega arith);
      kept = λ a o.
          Owned-keep req f.units f.back found.enough f.front heap a
            (subst (λ l. Owned heap l a) found.splits o);
    }

-- If `kmalloc` of 1 to 4194232 bytes on a well-formed heap stores an address that is not null, then
-- none of the bytes there belonged to a block in use, all of them do afterwards, every byte in use
-- before is in use still, and the heap is well formed again.
pub kmalloc-IsFresh :
    (heap : ℕ) (m m' : Memory) (bs : List Block) (size ptr : ℕ)
    → IsHeap heap m bs
    → 1 ≤ size
    → size ≤ 4194232
    → kmalloc heap m size ≡ some (m', ptr)
    → ptr ≢ 0
    → IsFresh heap bs size ptr m'
kmalloc-IsFresh heap m m' bs size ptr is pos small e ne =
    IsFresh-of_Found heap m m' bs size ptr (find_fit (bytes_to_units size) bs) small
      (find_fit_lem (bytes_to_units size) bs) (kmalloc_refines heap m bs size is pos small) e ne
