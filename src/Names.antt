-- ===== src/Names.antt =====
-- queen/main.c, the pages on which the core lists the loaded modules: 14 names a page, a name whose
-- first byte is 0 behind the last, and the pages in a chain. Memory is a map of pages at their
-- addresses; in place of the pointer to a module's data page stands the page, which the core never
-- changes once it is made.
pub mod Chain
pub mod Add
mod Tests
use hive_rk.Prelude.{ℕ, zero, suc, ◌+◌, ◌-◌, ◌%◌, ◌^◌, ◌==◌, ltb, if◌then◌else◌, store}
use hive_rk.Prelude.{Option, none, some, true, false, List, [], ◌∷◌}
use hive_rk.Queen.{BeeData}

-- BEE_NAME and BEE_NAMES_PAGE
pub record BeeName : Type 0 where
  pub name : ℕ → ℕ
  pub data_page : BeeData

pub record Page : Type 0 where
  pub names : ℕ → BeeName
  pub next_page : ℕ

-- The pages in memory, and the bump pointer `MEMORY`.
pub record Names : Type 0 where
  pub pages : ℕ → Page
  pub memory : ℕ

-- The loop that copies the bytes of a name, from `i` on, in so many rounds.
pub copy_name : ℕ → ℕ → (ℕ → ℕ) → (ℕ → ℕ) → ℕ → ℕ
copy_name zero i from to = to
copy_name (suc n) i from to = copy_name n (i + 1) from (store to i (from i))

unfoldable pub terminate : BeeName → BeeName
terminate entry = record entry { name = store entry.name 0 0 }

-- The entry at `index` is written, and the one behind it on the page ends the list.
pub set_entry : ℕ → BeeName → Page → Page
set_entry index name page =
    let entry = record name { name = copy_name 32 0 name.name (page.names index).name } in
    let written = store page.names index entry in
    record page {
      names =
          if ltb (index + 1) 14
          then store written (index + 1) (terminate (written (index + 1)))
          else written;
    }

-- A page without a next one gets a new one at `MEMORY`.
pub extend : ℕ → Names → Names
extend page s =
    if (s.pages page).next_page == 0
    then (let linked = store s.pages page (record (s.pages page) { next_page = s.memory }) in
        record {
          pages = store linked s.memory (record (linked s.memory) { next_page = 0 });
          memory = (s.memory + 512) % 2 ^ 32;
        })
    else s

-- `addNameToPage` calls itself with an index that is 14 smaller; `none` is a fuel used up.
pub add_from : ℕ → ℕ → ℕ → BeeName → Names → Option Names
add_from zero page index name s = none
add_from (suc fuel) page index name s =
    let longer = extend page s in
    let rest = add_from fuel (longer.pages page).next_page (index - 14) name longer in
    if ltb 13 index
    then rest
    else some (record s { pages = store s.pages page (set_entry index name (s.pages page)) })

pub add_name_to_page : ℕ → ℕ → BeeName → Names → Option Names
add_name_to_page page index name s = add_from (index + 1) page index name s
