-- ===== src/Boot.antt =====
-- queen/main.c, what the core does with the loaded modules: `setupLookupArray` along the name pages,
-- and `run_inits`, which starts them.
pub mod Setup
pub mod Inits
pub mod Slots
pub mod Order
pub mod Start
mod Tests
use hive_rk.Prelude.{ℕ, zero, suc, ◌+◌, ◌-◌, ◌%◌, ◌^◌, ◌==◌, ltb, if◌then◌else◌, store}
use hive_rk.Prelude.{Bool, ◌&&◌, Option, none, some, ◌>>=◌}
use hive_rk.Queen.{BeeData, Core, Nodes, update, make_node, node_size, lookup_id, max_bees}
use hive_rk.Names.{Page}

-- The round of `setupLookupArray` that makes the node of a slot at the bump pointer.
unfoldable pub setup_slot : ℕ → (ℕ → ℕ → ℕ) → ℕ → BeeData → Core → Core
setup_slot handler left s data_page c = record c {
  nodes = update s (make_node handler (left c.memory) data_page) c.nodes;
  memory = (c.memory + node_size data_page) % 2 ^ 32;
}

-- The loop over the entries of a page from `i` on, in at most so many rounds: its `i` and the core.
pub setup_entries : ℕ → ℕ → (ℕ → ℕ → ℕ) → ℕ → ℕ → Page → Core → ℕ × Core
setup_entries zero handler left depth i page c = (i, c)
setup_entries (suc n) handler left depth i page c =
    let entry = page.names i in
    let rest =
      setup_entries n handler left depth (i + 1) page
        (setup_slot handler left (depth + i) entry.data_page c) in
    if ltb i 14 then (if entry.name 0 == 0 then (i, c) else rest) else (i, c)

-- `setupLookupArray`; `none` is a fuel of pages used up.
pub setup_pages : ℕ → ℕ → (ℕ → ℕ → ℕ) → (ℕ → Page) → ℕ → ℕ → Core → Option Core
setup_pages zero handler left pages page depth c = none
setup_pages (suc fuel) handler left pages page depth c =
    let r = setup_entries 15 handler left depth 0 (pages page) c in
    let next = (pages page).next_page in
    let rest = setup_pages fuel handler left pages next (depth + 14) r.1 in
    if ltb r.0 14 then some r.1 else (if next == 0 then some r.1 else rest)

-- What the code of a module does when the core calls its function `init_func` with the address of a
-- slot's `data`: it may call the core.
abbrev pub Init : Type 0
Init = ℕ → ℕ → Core → Core

-- `ASMcall(initFunc, 4)` with `idNodes[lookupID(BeeID) - 1]`; of a number that is not found that is
-- the slot 2 ^ 32 - 1.
pub run_init : Init → ℕ → BeeData → Core → Core
run_init init word data_page c =
    init data_page.init_func ((lookup_id word c.nodes data_page.bee_id + 2 ^ 32 - 1) % 2 ^ 32) c

-- The inner loop of `run_inits` at the priority `s`, from entry `i` of the page at `cur` on; `none` is
-- a fuel of rounds used up.
pub inits_at : ℕ → Init → ℕ → (ℕ → Page) → ℕ → ℕ → ℕ → Core → Option Core
inits_at zero init word pages s cur i c = none
inits_at (suc fuel) init word pages s cur i c =
    let entry = (pages cur).names i in
    let next = (pages cur).next_page in
    let c' = if entry.data_page.priority == s then run_init init word entry.data_page c else c in
    let cur' = if i + 1 == 14 then next else cur in
    let i' = if i + 1 == 14 then 0 else i + 1 in
    let rest = inits_at fuel init word pages s cur' i' c' in
    if entry.name 0 == 0
    then some c
    else (if i + 1 == 14 then (if next == 0 then some c' else rest) else rest)

-- The loop over the priorities, from `s` on, in so many rounds.
pub inits_from : ℕ → ℕ → Init → ℕ → (ℕ → Page) → ℕ → ℕ → Core → Option Core
inits_from zero fuel init word pages s page c = some c
inits_from (suc n) fuel init word pages s page c = do
  c' ← inits_at fuel init word pages s page 0 c
  inits_from n fuel init word pages (s + 1) page c'

pub run_inits : ℕ → Init → ℕ → (ℕ → Page) → ℕ → Core → Option Core
run_inits fuel init word pages page c = inits_from 256 fuel init word pages 0 page c

-- The loop of `main` that clears `idNodes`, from slot `s` on, in so many rounds.
pub clear_nodes : ℕ → ℕ → Nodes → Nodes
clear_nodes zero s nodes = nodes
clear_nodes (suc n) s nodes = clear_nodes n (s + 1) (store nodes s none)

-- `main` behind the loading of the modules: the address of the core's handler at
-- CORE_GLOBAL_MEMORY, the table, and the inits.
abbrev pub core_global_memory : ℕ
core_global_memory = 0x6000

-- The four bytes at CORE_GLOBAL_MEMORY lie in the memory that was taken, from `start` up to `end`.
abbrev pub overlaps : ℕ → ℕ → Bool
overlaps start end = ltb start (core_global_memory + 4) && ltb core_global_memory end

-- The core takes memory from the first name page on. Where the word at CORE_GLOBAL_MEMORY lies in
-- there, the store of the handler's address overwrites a part of a page, or of a module, and the
-- pages are then what `spoiled` makes of them.
pub boot :
    ℕ → ℕ → (ℕ → ℕ → ℕ) → Init → ℕ → ((ℕ → Page) → ℕ → Page) → (ℕ → Page) → ℕ → Core → Option Core
boot fuel handler left init word spoiled pages page0 c =
    let stored = if overlaps page0 c.memory then spoiled pages else pages in
    do
      c' ← setup_pages fuel handler left stored page0 0 (record c {
        nodes = clear_nodes max_bees 0 c.nodes;
        words = store c.words core_global_memory handler;
      })
      run_inits fuel init word stored page0 c'
