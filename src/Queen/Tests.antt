-- ===== src/Queen/Tests.antt =====
-- Runs of queen/main.c's core, and its theorems at concrete inputs.
use hive_rk.Prelude.{◌^◌, ℕ, ◌+◌, ◌*◌, ◌≤◌, ◌≡◌, refl, arith, [], ◌∷◌, ◌++◌}
use hive_rk.Prelude.{none, some}
use hive_rk.Queen.{id_bound, IdNode, Core, bump, command, BeeData, outcome}
use hive_rk.Queen.{core_alloc, core_globals, core_interrupt_handler, setup_lookup_array}
use hive_rk.Queen.{core_error_none, core_error_no_module}
use hive_rk.Queen.Commands.{core_globals-core_alloc, core_interrupt_handler_unknown}
use hive_rk.Queen.Table.{table_size, core_interrupt_handler-setup_lookup_array}

abbrev empty : Core
empty = record { nodes = λ s. none; memory = 0x9000; alloc_f = bump; words = λ a. 7; calls = [] }

-- The utilities module and the memory module of the repository.
abbrev util : BeeData
util = record {
  base_address = 0x5000;
  bee_id = 2;
  priority = 2;
  format = 0;
  init_func = 0x5100;
  funcs = record { id = 1; func = 0x5200 } ∷ record { id = 4; func = 0x5300 } ∷ [];
}

abbrev heap : BeeData
heap = record {
  base_address = 0x6000;
  bee_id = 7;
  priority = 0;
  format = 0;
  init_func = 0x6100;
  funcs = record { id = 1; func = 0x6200 } ∷ record { id = 2; func = 0x6300 } ∷ [];
}

abbrev node : IdNode
node = record {
  id = 7;
  irt = 0x1000;
  base_adr = 0x6000;
  count = 0;
  ptr = 0;
  global_values = 0;
  num_funcs = 2;
  funcs = λ n. 0;
}

abbrev one_module : Core
one_module = record {
  nodes = λ s. some node;
  memory = 0x9000;
  alloc_f = bump;
  words = λ a. 7;
  calls = [];
}

core_globals-core_alloc_example :
    let o = core_alloc 0 1 7 16 one_module in
    (o.eax ≡ core_error_none)
    × (core_globals 0 7 o.core ≡ outcome core_error_none (some 0x9000) o.core)
    × ((n : ℕ) → (core_alloc 0 1 7 n o.core).core ≡ o.core)
    × (o.core.memory ≡ 0x9000 + 16)
    × (o.core.words (0x9000 + 4 * 5) ≡ 0)
core_globals-core_alloc_example =
    core_globals-core_alloc 0 1 7 0 16 5 node one_module
      (record {
        first = record {
          slot = omega arith;
          holds = refl;
          number = refl;
          before = λ j lt. absurd (omega arith);
        };
        without = refl;
        bumps = refl;
      })
      (omega arith) (omega arith) (omega arith)

core_interrupt_handler_unknown_example :
    (core_interrupt_handler (λ s. s) 0 1 (λ k. 9) 9 2 3 4 empty
      ≡ outcome core_error_no_module none empty)
    × ((n : ℕ)
        → 1 ≤ n
        → n ≤ 3
        → core_interrupt_handler (λ s. s) 0 1 (λ k. 9) 0 n 3 4 empty
          ≡ outcome core_error_no_module none empty)
core_interrupt_handler_unknown_example =
    core_interrupt_handler_unknown (λ s. s) (λ k. 9) 0 1 9 2 3 4 empty (λ j lt. omega arith) refl
      (omega arith)

-- The nodes of both modules fit behind 0x9000.
room : 0x9000 + table_size (util ∷ heap ∷ []) ≤ 2 ^ 32
unfolding id_bound
room = omega arith

core_interrupt_handler-setup_lookup_array_example :
    let table = setup_lookup_array 0x1000 (λ at n. 0xFFFF) 0 (util ∷ heap ∷ []) empty in
    let o = core_interrupt_handler (λ s. s) 0 1 (λ k. 5) 7 2 3 4 table in
    (o.eax ≡ core_error_none)
    × (o.core.calls ≡ [] ++ command 0x6300 1 none ∷ [])
    × ((n : IdNode) × (o.core.nodes 1 ≡ some n)
        × (n.count ≡ 3)
        × (n.ptr ≡ 4)
        × (n.base_adr ≡ 0x6000))
core_interrupt_handler-setup_lookup_array_example =
    core_interrupt_handler-setup_lookup_array (λ s. s) (λ k. 5) 0x1000 0 1 3 4 (λ at n. 0xFFFF)
      (util ∷ []) [] heap empty (omega arith) (omega arith) (omega arith) room (omega arith)
      (record { id = 1; func = 0x6200 } ∷ []) [] (record { id = 2; func = 0x6300 }) refl tt
      (omega arith)
