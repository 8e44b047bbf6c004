-- ===== src/Main/Start.antt =====
-- `main` of queen/main.c, from the disk to the inits.
use hive_rk.Prelude.{ℕ, ◌+◌}
use hive_rk.Prelude.{List, [], ◌∷◌, map}
use hive_rk.Prelude.{◌*◌}
use hive_rk.Queen.{id_bound, Core}
use hive_rk.Main.Module.{DiskBee}

abbrev pub bee_ids : List DiskBee → List ℕ
bee_ids ds = map (λ d. d.header.bee_id) ds

-- What the table takes from memory.
abbrev pub table_space : List DiskBee → ℕ
table_space [] = 0
table_space (d ∷ ds) = id_bound d.header.funcs 0 * 4 + 28 + table_space ds
