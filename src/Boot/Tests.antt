-- ===== src/Boot/Tests.antt =====
-- The start of queen/main.c at two modules, the second of which has the smaller priority.
use hive_rk.Prelude.{ℕ, store, none, [], ◌∷◌, List}
use hive_rk.Queen.{Core, bump, core_alloc}
use hive_rk.Queen.Wiring.{Keeps-id_of, core_alloc-Keeps}
use hive_rk.Names.{BeeName, Page}
use hive_rk.Boot.{Init}
use hive_rk.Boot.Slots.{Keeps}

abbrev named : ℕ → ℕ → BeeName
named n priority = record {
  name = λ k. n;
  data_page = record {
    base_address = 0x6000;
    bee_id = n;
    priority = priority;
    format = 0;
    init_func = 0x6080;
    funcs = [];
  };
}

abbrev modules : List BeeName
modules = named 7 5 ∷ named 9 1 ∷ []

abbrev pages : ℕ → Page
pages p = record {
  names = store (store (λ i. named 0 0) 0 (named 7 5)) 1 (named 9 1);
  next_page = 0;
}

abbrev core : Core
core = record { nodes = λ s. none; memory = 0x9000; alloc_f = bump; words = λ a. 0; calls = [] }

-- An init that asks the core for storage.
abbrev asks : Init
asks f s c = (core_alloc 0 1 8 8 c).core

asks-Keeps : Keeps asks 0
asks-Keeps f s c = Keeps-id_of 0 c (asks f s c) (core_alloc-Keeps 0 1 8 8 c)
