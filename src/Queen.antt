-- ===== src/Queen.antt =====
-- queen/main.c, the core: the table of the loaded modules, the bump allocator, and the handler through
-- which every module calls every other. A module is known by its number, and a command is a function
-- at an address.
pub mod Lookup
pub mod Wiring
pub mod Commands
pub mod Table
mod Tests
use hive_rk.Prelude.{ℕ, zero, suc, ◌+◌, ◌-◌, ◌*◌, ◌/◌, ◌%◌, ◌^◌, ◌==◌, ltb, leb}
use hive_rk.Prelude.{
  if◌then◌else◌, store, List, [], ◌∷◌, ◌++◌, Option, none, some, Bool, true, false, ◌&&◌,
}
use hive_rk.Prelude.{length}

-- ERROR_CODES.h
abbrev pub core_error_none : ℕ
core_error_none = 0

abbrev pub core_error_no_module : ℕ
core_error_no_module = 1

abbrev pub core_error_no_cmd : ℕ
core_error_no_cmd = 2

-- struct idNode, with `data` of beeUtil.h's CoreData. Its array of functions has no bound that C
-- tests: behind `num_funcs` it gives what stands in memory there.
pub record IdNode : Type 0 where
  pub id : ℕ
  pub irt : ℕ
  pub base_adr : ℕ
  pub count : ℕ
  pub ptr : ℕ
  pub global_values : ℕ
  pub num_funcs : ℕ
  pub funcs : ℕ → ℕ

abbrev pub max_bees : ℕ
max_bees = 1024

-- `idNodes`: a null pointer is `none`.
abbrev pub Nodes : Type 0
Nodes = ℕ → Option IdNode

-- What `idNodes[s]->id` reads; of a null pointer that is the word at address 0.
abbrev pub id_of : ℕ → Option IdNode → ℕ
id_of word none = word
id_of word (some node) = node.id

-- `lookupID`: `s + 1`, or 0 behind the last of so many slots.
pub lookup_from : ℕ → ℕ → ℕ → Nodes → ℕ → ℕ
lookup_from zero s word nodes id = 0
lookup_from (suc n) s word nodes id =
    let rest = lookup_from n (s + 1) word nodes id in
    if id_of word (nodes s) == id then s + 1 else rest

pub lookup_id : ℕ → Nodes → ℕ → ℕ
lookup_id word nodes id = lookup_from max_bees 0 word nodes id

-- `allocF`: the core's own function, or the one that command 5 stores.
pub data AllocFunc : Type 0 where
  bump : AllocFunc
  other : ℕ → AllocFunc

-- A call that the core makes: of a command with a pointer to the node's `data` and, where the module
-- has them, its global values; or of the allocation function for a node's `globalValues`.
pub data Call : Type 0 where
  command : ℕ → ℕ → Option ℕ → Call
  allocate : ℕ → ℕ → ℕ → Call

-- The globals of the core, memory by words, and what was called.
pub record Core : Type 0 where
  pub nodes : Nodes
  pub memory : ℕ
  pub alloc_f : AllocFunc
  pub words : ℕ → ℕ
  pub calls : List Call

-- The loop in `alloc` counts `size`, which is in bytes, and clears a word in each round.
pub clear_words : ℕ → ℕ → (ℕ → ℕ) → ℕ → ℕ
clear_words zero p words = words
clear_words (suc n) p words = clear_words n ((p + 4) % 2 ^ 32) (store words p 0)

abbrev pub update : ℕ → IdNode → Nodes → Nodes
update s node nodes = store nodes s (some node)

-- `allocF(size, &idNodes[node]->globalValues)`
pub alloc : ℕ → ℕ → IdNode → Core → Core
alloc s size node c = elim c.alloc_f [
  | bump ↦ record c {
    nodes = update s (record node { global_values = c.memory }) c.nodes;
    words = clear_words size c.memory c.words;
    memory = (c.memory + size) % 2 ^ 32;
  }
  | other f ↦ record c { calls = c.calls ++ allocate f size s ∷ [] }
]

-- The node of a number that `lookupID` finds; `none` is its 0, and stands for a null pointer that was
-- found by the word at address 0 too, which C would follow.
abbrev pub node_at : Nodes → ℕ → Option (ℕ × IdNode)
node_at nodes zero = none
node_at nodes (suc s) = elim (nodes s) [ none ↦ none | some node ↦ some (s, node) ]

pub find : ℕ → Nodes → ℕ → Option (ℕ × IdNode)
find word nodes id = node_at nodes (lookup_id word nodes id)

-- What a call leaves: `eax`, the word that it stores through the caller's pointer, and the core as it
-- is in front of that store. C does not test the pointer: the store is the caller's to apply, and
-- where it points into the core's own data, that changes.
pub record Outcome : Type 0 where
  pub eax : ℕ
  pub stored : Option ℕ
  pub core : Core

abbrev pub outcome : ℕ → Option ℕ → Core → Outcome
outcome eax stored core = record { eax = eax; stored = stored; core = core }

-- Command 1 at the node that was found. Where the storage was there before, the handler returns
-- without setting `eax`, which then holds what the compiler left there, `junk`.
unfoldable pub alloc_at : Option (ℕ × IdNode) → ℕ → ℕ → Core → Outcome
alloc_at none junk size c = outcome core_error_no_module none c
alloc_at (some (s, node)) junk size c =
    if node.global_values == 0
    then outcome core_error_none none (alloc s size node c)
    else outcome junk none c

pub core_alloc : ℕ → ℕ → ℕ → ℕ → Core → Outcome
core_alloc word junk id size c = alloc_at (find word c.nodes id) junk size c

-- Command 2, and command 3, which stores the address of the node's `data`, `data_of s`.
unfoldable pub globals_at : Option (ℕ × IdNode) → Core → Outcome
globals_at none c = outcome core_error_no_module none c
globals_at (some (s, node)) c = outcome core_error_none (some node.global_values) c

pub core_globals : ℕ → ℕ → Core → Outcome
core_globals word id c = globals_at (find word c.nodes id) c

unfoldable pub data_at : (ℕ → ℕ) → Option (ℕ × IdNode) → Core → Outcome
data_at data_of none c = outcome core_error_no_module none c
data_at data_of (some (s, node)) c = outcome core_error_none (some (data_of s)) c

pub core_data : (ℕ → ℕ) → ℕ → ℕ → Core → Outcome
core_data data_of word id c = data_at data_of (find word c.nodes id) c

-- The commands of module 0. `arg0` and `arg1` are the first two arguments; the pointer that a result
-- is stored through is `arg1` of the commands 2 and 3 and `arg0` of 4.
pub core_command : (ℕ → ℕ) → ℕ → ℕ → ℕ → ℕ → ℕ → Core → Outcome
core_command data_of word junk cmd arg0 arg1 c =
    if cmd == 1
    then core_alloc word junk arg0 arg1 c
    else (if cmd == 2
        then core_globals word arg0 c
        else (if cmd == 3
            then core_data data_of word arg0 c
            else (if cmd == 4
                then outcome core_error_none (some c.memory) c
                else (if cmd == 5
                    then outcome core_error_none none (record c { alloc_f = other arg0 })
                    else outcome core_error_no_cmd none c))))

-- A call to a module other than 0. The handler stores the arguments in the module's own CoreData.
unfoldable pub dispatch_at : Option (ℕ × IdNode) → ℕ → ℕ → ℕ → Core → Outcome
dispatch_at none cmd count ptr c = outcome core_error_no_module none c
dispatch_at (some (s, node)) cmd count ptr c =
    let f = node.funcs (cmd % 2 ^ 30) in
    let globals = if node.global_values == 0 then none else some node.global_values in
    if f == 0
    then outcome core_error_no_cmd none c
    else outcome core_error_none none (record c {
      nodes = update s (record node { count = count; ptr = ptr }) c.nodes;
      calls = c.calls ++ command f s globals ∷ [];
    })

pub dispatch : ℕ → ℕ → ℕ → ℕ → ℕ → Core → Outcome
dispatch word id cmd count ptr c = dispatch_at (find word c.nodes id) cmd count ptr c

-- The registers are the module, the command, the count and the address of the arguments.
pub core_interrupt_handler : (ℕ → ℕ) → ℕ → ℕ → (ℕ → ℕ) → ℕ → ℕ → ℕ → ℕ → Core → Outcome
core_interrupt_handler data_of word junk args id cmd count ptr c =
    if id == 0
    then core_command data_of word junk cmd (args 0) (args 1) c
    else dispatch word id cmd count ptr c

-- BEE_FUNC and BEE_DATA_PAGE, with the functions as a list in place of their count.
pub record BeeFunc : Type 0 where
  pub id : ℕ
  pub func : ℕ

pub record BeeData : Type 0 where
  pub base_address : ℕ
  pub bee_id : ℕ
  pub priority : ℕ
  pub format : ℕ
  pub init_func : ℕ
  pub funcs : List BeeFunc

-- `MAX_ID` of `setupLookupArray`, one more, so that its start of -1 is 0. The comparison is of ints: a
-- number from 2 ^ 31 on is negative and is never larger.
unfoldable pub id_bound : List BeeFunc → ℕ → ℕ
id_bound [] bound = bound
id_bound (f ∷ fs) bound =
    id_bound fs (if ltb f.id (2 ^ 31) && leb bound f.id then f.id + 1 else bound)

-- The loop that stores 0 at the first `n` numbers, from `s` on.
pub clear_funcs : ℕ → ℕ → (ℕ → ℕ) → ℕ → ℕ
clear_funcs zero s funcs = funcs
clear_funcs (suc n) s funcs = clear_funcs n (s + 1) (store funcs s 0)

-- The loop over the exports. `funcs[id]` is 4 bytes each from `funcs` on, and addresses wrap.
unfoldable pub export_funcs : List BeeFunc → (ℕ → ℕ) → ℕ → ℕ
export_funcs [] funcs = funcs
export_funcs (f ∷ fs) funcs = export_funcs fs (store funcs (f.id % 2 ^ 30) f.func)

-- The node that one round of `setupLookupArray` makes at the bump pointer: `left` is what memory held
-- there, `handler` the address of the core's handler. With a number in the last 7 words of the address
-- space, modulo 2 ^ 30, C writes the node's own fields in front of `funcs`: those have no cell here.
pub make_node : ℕ → (ℕ → ℕ) → BeeData → IdNode
make_node handler left data_page =
    let bound = id_bound data_page.funcs 0 in
    record {
      id = data_page.bee_id;
      irt = handler;
      base_adr = data_page.base_address;
      count = 0;
      ptr = 0;
      global_values = 0;
      num_funcs = (bound + 2 ^ 32 - 1) % 2 ^ 32;
      funcs = export_funcs data_page.funcs (clear_funcs (bound - 1) 0 left);
    }

-- `MEMORY += (MAX_ID+1)*4+4+16+4+4`
abbrev pub node_size : BeeData → ℕ
node_size data_page = id_bound data_page.funcs 0 * 4 + 28

-- `setupLookupArray` on the modules in the order of the name pages, from slot `s` on. `left` gives the
-- words of the memory behind an address, where the functions of a node at that address go.
unfoldable pub setup_lookup_array : ℕ → (ℕ → ℕ → ℕ) → ℕ → List BeeData → Core → Core
setup_lookup_array handler left s [] c = c
setup_lookup_array handler left s (page ∷ pages) c =
    setup_lookup_array handler left (s + 1) pages (record c {
      nodes = update s (make_node handler (left c.memory) page) c.nodes;
      memory = (c.memory + node_size page) % 2 ^ 32;
    })
