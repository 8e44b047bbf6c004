-- ===== src/Main.antt =====
-- `main` of queen/main.c: the modules on the disk are loaded one after another, each gets its data
-- page and its name, and then the core starts. Name pages, data pages and nodes are typed parts of
-- memory at the bump pointer; bytes are those of the loaded modules.
pub mod Module
pub mod Loads
pub mod Start
mod Tests
use hive_rk.Prelude.{ℕ, zero, suc, ◌+◌, ◌%◌, ◌^◌, ◌==◌, if◌then◌else◌, store}
use hive_rk.Prelude.{Option, none, some, ◌>>=◌}
use hive_rk.Queen.{BeeData, Core}
use hive_rk.Loader.{make_bee_data, page_size}
use hive_rk.Names.{BeeName, Page, Names, copy_name, terminate, add_name_to_page}
use hive_rk.Disk.{Drive, Loading, bee_scan_and_load}
use hive_rk.Boot.{Init, boot}

pub record Machine : Type 0 where
  pub loading : Loading
  pub pages : ℕ → Page

-- The name page that `main` begins with, at `MEMORY`: it has no next page and lists nothing.
unfoldable pub first_page : Machine → Machine
first_page m =
    let page0 = m.loading.memory in
    let page = m.pages page0 in
    record m {
      loading = record m.loading { memory = (m.loading.memory + 512) % 2 ^ 32 };
      pages =
          store m.pages page0
            (record page { names = store page.names 0 (terminate (page.names 0)); next_page = 0 });
    }

-- `Data`: the name is copied from the module's header, the data page is made.
unfoldable pub entry_of : ℕ → (ℕ → ℕ) → (ℕ → ℕ) → BeeName
entry_of address mem junk = record {
  name = copy_name 32 0 (λ i. mem (address + 9 + i)) junk;
  data_page = make_bee_data address mem;
}

-- What a round does with a module that was loaded.
unfoldable pub add_module : ℕ → ℕ → ℕ → (ℕ → ℕ) → (ℕ → Page) → Loading → Option Machine
add_module page0 index address junk pages s =
    let entry = entry_of address s.mem junk in
    let behind = (s.memory + page_size entry.data_page) % 2 ^ 32 in
    do
      names ← add_name_to_page page0 index entry (record { pages = pages; memory = behind })
      some (record { loading = record s { memory = names.memory }; pages = names.pages })

-- The loop of `main`: it ends where no module is found. `buf` and `junk` are what the local buffers
-- hold; `none` is a fuel of rounds used up.
pub load_modules : ℕ → Drive → (ℕ → ℕ) → (ℕ → ℕ) → ℕ → ℕ → Machine → Option Machine
load_modules zero drive buf junk page0 index m = none
load_modules (suc fuel) drive buf junk page0 index m =
    let r = bee_scan_and_load drive buf m.loading.memory m.loading in
    let rest = add_module page0 index r.0 junk m.pages r.1 >>= λ next.
    load_modules fuel drive buf junk page0 (index + 1) next in
    if r.0 == 0 then some (record m { loading = r.1 }) else rest

-- `main` up to the text that should not be seen.
pub main :
    ℕ
    → Drive
    → (ℕ → ℕ)
    → (ℕ → ℕ)
    → ℕ
    → (ℕ → ℕ → ℕ)
    → Init
    → ℕ
    → ((ℕ → Page) → ℕ → Page)
    → Machine
    → Core
    → Option Core
main fuel drive buf junk handler left init word spoiled m c =
    let page0 = m.loading.memory in
    do
      loaded ← load_modules fuel drive buf junk page0 0 (first_page m)
      boot fuel handler left init word spoiled loaded.pages page0
          (record c { memory = loaded.loading.memory })
