-- ===== src/Heap.antt =====
-- bees/memory/memory.c, the kernel heap: one region of 64-byte units, cut into blocks that a singly
-- linked list threads in address order. The region and everything else in memory is a total map from
-- addresses to the header that stands there; the children prove what `kmalloc` and `kfree` do to the
-- list of blocks.
pub mod Blocks
pub mod Alloc
pub mod Release
pub mod Start
pub mod Owned
pub mod Life
pub mod Cycle
mod Tests
use hive_rk.Prelude.{ℕ, zero, suc, ◌+◌, ◌-◌, ◌*◌, ◌/◌, ◌%◌, ◌^◌, ◌==◌, ltb, leb, ◌&&◌, not}
use hive_rk.Prelude.{if◌then◌else◌, Option, none, some, store, Bool, true, false}

abbrev pub unit_size : ℕ
unit_size = 64

-- HEAP_SIZE / UNIT_SIZE
abbrev pub heap_total_units : ℕ
heap_total_units = 1024 * 1024 / unit_size

-- sizeof(heap_block_t) on the 32-bit target
abbrev pub header_size : ℕ
header_size = 8

-- heap_block_t; a null `next` is 0
pub record HeapBlock : Type 0 where
  pub units : ℕ
  pub free : ℕ
  pub pad : ℕ
  pub next : ℕ

abbrev pub Memory : Type 0
Memory = ℕ → HeapBlock

-- The uint32_t sum wraps, and so does the conversion to uint16_t.
pub bytes_to_units : ℕ → ℕ
bytes_to_units payload_bytes =
    let total = (payload_bytes + header_size) % 2 ^ 32 in
    (total + unit_size - 1) % 2 ^ 32 / unit_size % 2 ^ 16

-- `bee_init`: `bump` is what the core's command 4 stores through its pointer, the end of the bump
-- allocator. The result is `global->heap` and the memory after the three writes to its header.
pub init : Memory → ℕ → ℕ × Memory
init m bump =
    let heap = bytes_to_units bump * unit_size in
    (heap, store m heap (record (m heap) { units = heap_total_units; free = 1; next = 0 }))

-- The two writes of the split: the new header behind `req_units` units, then the shortened one.
pub split_block : ℕ → Memory → ℕ → Memory
split_block req_units m cur =
    let split = (cur + req_units * unit_size) % 2 ^ 32 in
    let m1 =
      store m split
        (record (m split) { units = (m cur).units - req_units; free = 1; next = (m cur).next }) in
    store m1 cur (record (m1 cur) { units = req_units; next = split })

-- What the loop does with the first block that is free and large enough.
pub claim : ℕ → Memory → ℕ → Memory
unfolding split_block
claim req_units m cur =
    let m1 = if ltb req_units (m cur).units then split_block req_units m cur else m in
    store m1 cur (record (m1 cur) { free = 0 })

-- `while(cur)`: the memory and what is stored through `data`; `none` when the fuel runs out.
pub kmalloc_loop : ℕ → ℕ → Memory → ℕ → Option (Memory × ℕ)
kmalloc_loop zero req_units m cur = none
kmalloc_loop (suc fuel) req_units m cur =
    let rest = kmalloc_loop fuel req_units m (m cur).next in
    if cur == 0
    then some (m, 0)
    else (if not ((m cur).free == 0) && leb req_units (m cur).units
        then some (claim req_units m cur, (cur + header_size) % 2 ^ 32)
        else rest)

-- A list of blocks of one unit at least has at most `heap_total_units` of them.
abbrev pub heap_fuel : ℕ
heap_fuel = heap_total_units + 1

pub kmalloc : ℕ → Memory → ℕ → Option (Memory × ℕ)
kmalloc heap m size =
    if size == 0 then some (m, 0) else kmalloc_loop heap_fuel (bytes_to_units size) m heap

-- A run of `kfree`: `hang` is its `while(1)` on a block that is free already.
pub data Run : Type 0 where
  done : Memory → Run
  hang : Run
  out_of_fuel : Run

pub merge_next : Memory → ℕ → Memory
merge_next m block =
    let next = (m block).next in
    if not (next == 0) && not ((m next).free == 0)
    then (let m1 =
          store m block
            (record (m block) { units = ((m block).units + (m next).units) % 2 ^ 16 }) in
        store m1 block (record (m1 block) { next = (m1 (m1 block).next).next }))
    else m

-- `while(cur!=block)`: the value of `last` when the walk arrives.
pub walk : ℕ → Memory → ℕ → ℕ → ℕ → Option ℕ
walk zero m block last cur = none
walk (suc fuel) m block last cur =
    let rest = walk fuel m block cur (m cur).next in if cur == block then some last else rest

pub merge_last : Memory → ℕ → ℕ → Memory
merge_last m block last =
    if not (last == 0) && not ((m last).free == 0)
    then store m last (record (m last) {
      units = ((m last).units + (m block).units) % 2 ^ 16;
      next = (m block).next;
    })
    else m

pub finish : Memory → ℕ → Option ℕ → Run
finish m block none = out_of_fuel
finish m block (some last) = done (merge_last m block last)

-- `kfree` with so many rounds for its walk.
pub kfree_within : ℕ → ℕ → Memory → ℕ → Run
kfree_within fuel heap m ptr =
    let block = (ptr + 2 ^ 32 - header_size) % 2 ^ 32 in
    let m1 = store m block (record (m block) { free = 1 }) in
    let m2 = merge_next m1 block in
    if ptr == 0
    then done m
    else (if not ((m block).free == 0) then hang else finish m2 block (walk fuel m2 block 0 heap))

pub kfree : ℕ → Memory → ℕ → Run
kfree = kfree_within heap_fuel
