-- ===== src/Main/Tests.antt =====
-- `main` of queen/main.c at a disk with one module.
use hive_rk.Prelude.{none, [], List}
use hive_rk.Queen.{Core, bump, core_alloc}
use hive_rk.Boot.{Init}
use hive_rk.Disk.Sample.{start_meta}
use hive_rk.Main.{Machine}
use hive_rk.Main.Module.{DiskBee}

abbrev start_bee : DiskBee
start_bee = record { begin = 512; end = 570; header = start_meta }

abbrev machine : Machine
machine = record {
  loading = record { mem = λ a. 0; memory = 0x4000; last_end = 512 };
  pages = λ p. record {
    names = λ i. record {
      name = λ k. 1;
      data_page = record {
        base_address = 0;
        bee_id = 0;
        priority = 0;
        format = 0;
        init_func = 0;
        funcs = [];
      };
    };
    next_page = 1;
  };
}

abbrev core : Core
core = record { nodes = λ s. none; memory = 0; alloc_f = bump; words = λ a. 0; calls = [] }

-- An init that asks the core for storage.
abbrev asks : Init
asks f s c = (core_alloc 0 1 8 8 c).core
