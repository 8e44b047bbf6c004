-- ===== src/Names/Tests.antt =====
-- The theorem on queen/main.c's name pages at a concrete page.
use hive_rk.Prelude.{ℕ, ◌+◌, ◌≤◌, ◌≡◌, refl, arith, store, some, [], ◌∷◌}
use hive_rk.Names.{BeeName, Names, add_name_to_page}
use hive_rk.Names.Chain.{Lists}
use hive_rk.Names.Add.{add_name_to_page-Lists}

abbrev named : ℕ → BeeName
named n = record {
  name = λ k. n;
  data_page = record {
    base_address = 0x6000;
    bee_id = n;
    priority = 0;
    format = 0;
    init_func = 0x6080;
    funcs = [];
  };
}

-- One name, and the end of the list behind it.
abbrev one_name : Names
one_name = record {
  pages = λ p. record { names = store (λ i. named 0) 0 (named 7); next_page = 0 };
  memory = 0x5000;
}

add_name_to_page-Lists_example :
    (s' : Names) × (add_name_to_page 0x4000 1 (named 9) one_name ≡ some s')
    × Lists s'.pages s'.memory 0x4000 0 (named 7 ∷ named 9 ∷ [])
    × (0x5000 ≤ s'.memory)
    × (s'.memory ≤ 0x5000 + 512)
add_name_to_page-Lists_example =
    add_name_to_page-Lists (named 9) (named 7 ∷ []) 0x4000 one_name (omega arith) (omega arith)
      (((λ k lt. refl), refl, omega arith), (refl, refl, omega arith))
