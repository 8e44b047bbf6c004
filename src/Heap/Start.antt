-- ===== src/Heap/Start.antt =====
-- `bee_init` of bees/memory/memory.c: the heap that the first allocation meets.
use hive_rk.Prelude.{ℕ, ◌≤◌, [], ◌∷◌, arith}
use hive_rk.Heap.{Memory, heap_total_units, bytes_to_units, init}
use hive_rk.Heap.Blocks.{avail, IsHeap}

-- `bee_init`, with the bump allocator's end at most 4194232, leaves a well-formed heap of one
-- available block, and that heap begins behind all that the bump allocator gave out.
pub init-IsHeap :
    (m : Memory) (bump : ℕ)
    → bump ≤ 4194232
    → IsHeap (init m bump).0 (init m bump).1 (avail heap_total_units ∷ [])
      × (bump ≤ (init m bump).0)
unfolding init bytes_to_units
init-IsHeap m bump le = (
  record {
    chain = ((ground arith, ground arith, ground arith, omega arith), tt);
    all_units = omega arith;
    not_null = omega arith;
    in_memory = omega arith;
  },
  omega arith,
)
