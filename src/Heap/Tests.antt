-- ===== src/Heap/Tests.antt =====
-- Runs of bees/memory/memory.c on small heaps, and its theorems at concrete inputs.
use hive_rk.Prelude.{List, ℕ, ◌≡◌, refl, [], ◌∷◌, arith, store, some, none}
use hive_rk.Heap.{Memory, bytes_to_units, kmalloc}
use hive_rk.Heap.{kmalloc_loop, claim, kfree, done}
use hive_rk.Heap.Blocks.{Block, used, avail, IsHeap}
use hive_rk.Heap.Alloc.{Allocates, find_fit, kmalloc_refines}
use hive_rk.Heap.Release.{released, kfree_refines}
use hive_rk.Heap.Owned.{IsFresh, kmalloc-IsFresh}
use hive_rk.Heap.Life.{Separated, Undoes, kfree-kmalloc, kfree-Separated}
use hive_rk.Heap.Cycle.{kmalloc_cycle}

abbrev blank : Memory
blank p = record { units = 0; free = 0; pad = 0; next = 0 }

-- A heap at 64 with one block of two units in use, and the rest available.
abbrev small : Memory
small =
    store (store blank 64 (record { units = 2; free = 0; pad = 0; next = 192 })) 192
      (record { units = 16382; free = 1; pad = 0; next = 0 })

-- The whole heap at 64, available.
abbrev whole : Memory
whole = store blank 64 (record { units = 16384; free = 1; pad = 0; next = 0 })

small-IsHeap : IsHeap 64 small (used 2 ∷ avail 16382 ∷ [])
small-IsHeap = omega arith

whole-IsHeap : IsHeap 64 whole (avail 16384 ∷ [])
whole-IsHeap = omega arith

-- 100 bytes and the header take two units.
units_of_100 : bytes_to_units 100 ≡ 2
unfolding bytes_to_units
units_of_100 = refl

-- 4 MiB wrap to one unit.
units_of_4MiB : bytes_to_units 4194304 ≡ 1
unfolding bytes_to_units
units_of_4MiB = refl

kmalloc_refines_example :
    Allocates 64 small 100
      (used 2 ∷ avail 16382 ∷ [])
      (find_fit (bytes_to_units 100) (used 2 ∷ avail 16382 ∷ []))
kmalloc_refines_example =
    kmalloc_refines 64 small (used 2 ∷ avail 16382 ∷ []) 100 small-IsHeap (omega arith)
      (omega arith)

kfree_refines_example :
    (m' : Memory) × (kfree 64 small 72 ≡ done m') × IsHeap 64 m' (released [] 2 (avail 16382 ∷ []))
kfree_refines_example = kfree_refines 64 small [] 2 (avail 16382 ∷ []) small-IsHeap

-- The second block serves 100 bytes, behind its header.
kmalloc-small : kmalloc 64 small 100 ≡ some (claim 2 small 192, 200)
unfolding kmalloc kmalloc_loop bytes_to_units
kmalloc-small = refl

kmalloc-IsFresh_example : IsFresh 64 (used 2 ∷ avail 16382 ∷ []) 100 200 (claim 2 small 192)
kmalloc-IsFresh_example =
    kmalloc-IsFresh 64 small (claim 2 small 192) (used 2 ∷ avail 16382 ∷ []) 100 200 small-IsHeap
      (omega arith) (omega arith) kmalloc-small (omega arith)

kfree-kmalloc_example : Undoes (claim 2 small 192) 64 200 (used 2 ∷ avail 16382 ∷ [])
kfree-kmalloc_example =
    kfree-kmalloc 64 small (claim 2 small 192) (used 2 ∷ avail 16382 ∷ []) 100 200 small-IsHeap
      (tt, tt) (omega arith) (omega arith) kmalloc-small

kfree-Separated_example :
    (m' : Memory) × (bs : List Block) × (kfree 64 small 72 ≡ done m')
    × IsHeap 64 m' bs
    × Separated bs
kfree-Separated_example = kfree-Separated 64 small [] 2 (avail 16382 ∷ []) small-IsHeap (tt, tt)

kmalloc_cycle_example :
    (m' : Memory) × (kmalloc 64 whole 4194240 ≡ some (m', 72))
    × ((fuel req : ℕ) → kmalloc_loop fuel req m' 64 ≡ none)
kmalloc_cycle_example =
    kmalloc_cycle 64 whole 16384 [] 4194240 whole-IsHeap (omega arith) (omega arith)
