-- ===== src/Heap/Cycle.antt =====
-- Requests of bees/memory/memory.c whose size in units does not fit its uint16_t.
use hive_rk.Prelude.{ℕ, suc, zero, ◌+◌, ◌*◌, ◌%◌, ◌^◌, ◌≤◌, ◌<◌, ◌≡◌, refl, List, ◌∷◌}
use hive_rk.Prelude.{arith, none, some, ==_ne, ◌∙◌, ap}
use hive_rk.Heap.{Memory, unit_size, header_size, heap_total_units, heap_fuel, bytes_to_units}
use hive_rk.Heap.{split_block, claim, kmalloc_loop, kmalloc}
use hive_rk.Heap.Blocks.{Block, avail, IsHeap}

-- From 4194233 bytes on, up to the largest uint32_t, the units that `kmalloc` asks for hold fewer
-- bytes than the request.
pub bytes_to_units_wraps :
    (size : ℕ) → 4194232 < size → size < 2 ^ 32 → bytes_to_units size * unit_size < size
unfolding bytes_to_units
bytes_to_units_wraps size lo hi = omega arith

-- A block of this kind: linked to itself and in use.
abbrev pub IsTrap : Memory → ℕ → Type 0
IsTrap m p = ((m p).next ≡ p) × ((m p).free ≡ 0)

claim-IsTrap :
    (m : Memory) (p u : ℕ) → 1 ≤ u → p < 2 ^ 32 → (m p).units ≡ u → IsTrap (claim 0 m p) p
unfolding claim split_block
claim-IsTrap m p u pos lim e = ground arith

trapped :
    (fuel req : ℕ) (m : Memory) (p : ℕ) → 1 ≤ p → IsTrap m p → kmalloc_loop fuel req m p ≡ none
unfolding kmalloc_loop
trapped zero req m p pos t = refl
trapped (suc fuel) req m p pos t =
    rw (==_ne p 0 (omega arith), t.1, t.0) (trapped fuel req m p pos t)

kmalloc_loop_first :
    (fuel : ℕ) (m : Memory) (p u : ℕ)
    → 1 ≤ p
    → (m p).free ≡ 1
    → kmalloc_loop (suc fuel) 0 m p ≡ some (claim 0 m p, (p + header_size) % 2 ^ 32)
unfolding kmalloc_loop
kmalloc_loop_first fuel m p u pos e = ground arith

kmalloc_zero_units :
    (heap : ℕ) (m : Memory) (size : ℕ)
    → 1 ≤ size
    → bytes_to_units size ≡ 0
    → kmalloc heap m size ≡ kmalloc_loop heap_fuel 0 m heap
unfolding kmalloc
kmalloc_zero_units heap m size pos e = rw e (ground arith)

-- A request of 4194233 to 4194296 bytes asks for no unit at all. On a well-formed heap that begins
-- with an available block `kmalloc` then reports success with that block's payload, and leaves a
-- heap whose loop never ends: no number of rounds is enough for any later request.
pub kmalloc_cycle :
    (heap : ℕ) (m : Memory) (u : ℕ) (bs : List Block) (size : ℕ)
    → IsHeap heap m (avail u ∷ bs)
    → 4194232 < size
    → size ≤ 4194296
    → (m' : Memory) × (kmalloc heap m size ≡ some (m', heap + header_size))
      × ((fuel req : ℕ) → kmalloc_loop fuel req m' heap ≡ none)
unfolding bytes_to_units
kmalloc_cycle heap m u bs size is lo hi =
    let c = is.chain in
    let e : (heap + header_size) % 2 ^ 32 ≡ heap + header_size = omega (arith, is.in_memory) in
    (
      claim 0 m heap,
      kmalloc_zero_units heap m size (omega arith) (omega arith)
          ∙ kmalloc_loop_first heap_total_units m heap u is.not_null c.0.1
          ∙ ap (λ n. some (claim 0 m heap, n)) e,
      λ fuel req.
          trapped fuel req (claim 0 m heap) heap is.not_null
            (claim-IsTrap m heap u c.0.3 (omega (arith, is.in_memory)) c.0.0),
    )
