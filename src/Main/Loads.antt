-- ===== src/Main/Loads.antt =====
-- The loop of queen/main.c's `main` lists the modules of the disk on the name pages.
use hive_rk.Prelude.{
  ℕ, zero, suc, ◌+◌, ◌-◌, ◌*◌, ◌/◌, ◌%◌, ◌^◌, ◌≤◌, ◌<◌, ◌≡◌, ◌≢◌, refl, sym, ◌∙◌, arith,
}
use hive_rk.Prelude.{◌==◌, false, some, append-nil, append_assoc, length-append}
use hive_rk.Prelude.{List, [], ◌∷◌, ◌++◌, length}
use hive_rk.Loader.{page_size}
use hive_rk.Names.{BeeName, Page, Names}
use hive_rk.Names.Chain.{Lists, Lists-le}
use hive_rk.Names.Add.{add_name_to_page-Lists}
use hive_rk.Disk.{Drive, Loading}
use hive_rk.Disk.Search.{magic_at, Ends}
use hive_rk.Disk.Load.{IsNext, IsLoaded, bee_scan_and_load-IsLoaded, bee_scan_and_load_none}
use hive_rk.Main.{Machine, entry_of, add_module, load_modules}
use hive_rk.Main.Module.{DiskBee, Matches, IsBee, entry_of-Matches, page_size-le}

-- The modules that follow one another on the disk from a byte on, and no magic number behind them.
abbrev pub OnDisk : Drive → ℕ → List DiskBee → Type 0
OnDisk drive from [] =
    (e : ℕ) × (from / 512 + 102400 < 2 ^ 23)
    × Ends drive 102400 (from / 512) e
    × ((c : ℕ) → from ≤ c → c < e → magic_at drive c ≡ false)
OnDisk drive from (d ∷ ds) =
    IsNext drive from d.begin d.end × IsBee drive d × OnDisk drive (d.end + 4) ds

-- What the modules take from memory at most: the sectors, the data page, and a name page.
abbrev pub space : List DiskBee → ℕ
space [] = 0
space (d ∷ ds) = d.end - d.begin + 1536 + (8 * length d.header.funcs + 529) + 512 + space ds

abbrev pub AllMatch : List DiskBee → List BeeName → Type 0
AllMatch [] [] = Unit
AllMatch [] (x ∷ xs) = ⊥
AllMatch (d ∷ ds) [] = ⊥
AllMatch (d ∷ ds) (x ∷ xs) = Matches d x × AllMatch ds xs

module _ (drive : Drive) (buf junk : ℕ → ℕ) (page0 : ℕ) where
  add_module_lem :
      (xs : List BeeName) (d : DiskBee) (address : ℕ) (pages : ℕ → Page) (s s' : Loading)
      → IsBee drive d
      → IsLoaded drive d.begin d.end address s s'
      → s.memory + space (d ∷ []) < 2 ^ 32
      → Lists pages s.memory page0 0 xs
      → (m : Machine) × (x : BeeName) × (add_module page0 (length xs) address junk pages s'
          ≡ some m)
        × Lists m.pages m.loading.memory page0 0 (xs ++ x ∷ [])
        × Matches d x
        × (m.loading.last_end ≡ d.end + 4)
        × (s.memory ≤ m.loading.memory)
        × (m.loading.memory ≤ s.memory + space (d ∷ []))
  unfolding add_module
  add_module_lem xs d address pages s s' bee loaded room h =
      let x = entry_of address s'.mem junk in
      let matches = entry_of-Matches drive d address s s' junk bee loaded in
      let size = page_size-le d x matches in
      let start : Names = record { pages = pages; memory = s'.memory + page_size x.data_page } in
      let named : x.name 0 ≢ 0 = λ e. bee.named (sym (matches.name 0 (omega arith)) ∙ e) in
      let there =
        Lists-le xs pages s.memory (s'.memory + page_size x.data_page) page0 0
          (omega (arith, loaded.free, loaded.above)) h in
      let (after, runs, lists, above, most) =
        add_name_to_page-Lists x xs page0 start named (omega (arith, loaded.used, size)) there in
      let b : (s'.memory + page_size x.data_page) % 2 ^ 32 ≡ s'.memory + page_size x.data_page =
        omega (arith, loaded.used, size) in
      (
        record { loading = record s' { memory = after.memory }; pages = after.pages },
        x,
        rw (b, runs) refl,
        lists,
        matches,
        loaded.seen,
        omega (arith, loaded.free, loaded.above),
        omega (arith, loaded.used, size),
      )

  -- The modules on the disk, from the place where the search goes on, each with a header and a name,
  -- are loaded one after another, and no round fails: the pages then list the names that they listed
  -- before and behind them those of the modules, in the order of the disk; each entry has the name in
  -- the module's header and what the core keeps of the header at the address where it was loaded.
  -- Memory has the space that this takes, and no more is taken, and the fuel is more than one for each module.
  pub load_modules-Lists :
      (ds : List DiskBee) (fuel : ℕ) (xs : List BeeName) (m : Machine)
      → 1 ≤ m.loading.memory
      → m.loading.memory + space ds < 2 ^ 32
      → OnDisk drive m.loading.last_end ds
      → Lists m.pages m.loading.memory page0 0 xs
      → length ds < fuel
      → (m' : Machine) × (ys : List BeeName) × (load_modules fuel drive buf junk page0 (length xs) m
          ≡ some m')
        × Lists m'.pages m'.loading.memory page0 0 (xs ++ ys)
        × AllMatch ds ys
        × (m'.loading.memory ≤ m.loading.memory + space ds)
  unfolding load_modules
  load_modules-Lists ds zero xs m pos room disk h enough = absurd (omega arith)
  load_modules-Lists [] (suc fuel) xs m pos room (e, small, ends, other) h enough =
      let none = bee_scan_and_load_none drive e m.loading.memory buf m.loading small ends other in
      (m, [], rw none refl, rw append-nil h, tt, omega arith)
  load_modules-Lists (d ∷ ds) (suc fuel) xs m pos room (next, bee, disk) h enough =
      let (address, s', scan, loaded) =
        bee_scan_and_load-IsLoaded drive d.begin d.end buf m.loading next (omega arith) in
      let (m1, x, runs, lists, matches, seen, above, used) =
        add_module_lem xs d address m.pages m.loading s' bee loaded (omega arith) h in
      let n : length (xs ++ x ∷ []) ≡ length xs + 1 = length-append xs (x ∷ []) in
      let disk' = rw (← seen) at disk in
      let (m', ys, runs', lists', match, most) =
        load_modules-Lists ds fuel (xs ++ x ∷ []) m1 (omega (arith, above)) (omega (arith, used))
          disk' lists (omega arith) in
      let t : (address == 0) ≡ false = ground (arith, loaded.above) in
      (
        m',
        x ∷ ys,
        rw (scan, t, runs) (rw n at runs'),
        rw (← append_assoc xs (x ∷ []) ys) lists',
        (matches, match),
        omega (arith, used, most),
      )
