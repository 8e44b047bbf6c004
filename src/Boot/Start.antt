-- ===== src/Boot/Start.antt =====
-- `main` of queen/main.c behind the loading of the modules: the table is made and every module is
-- started.
use mathlib.Core.List.{Perm}
use hive_rk.Prelude.{ℕ, suc, ◌+◌, ◌≤◌, ◌<◌, ◌≡◌, ◌≢◌, refl, sym, ◌∙◌, arith}
use hive_rk.Prelude.{false, ap, some, All, store, append_assoc}
use hive_rk.Prelude.{List, [], ◌∷◌, ◌++◌, length, length-append, map}
use hive_rk.Queen.{BeeData, Core, max_bees, setup_lookup_array}
use hive_rk.Queen.Lookup.{lookup_id-IsFirst}
use hive_rk.Queen.Table.{setup-IsFirst}
use hive_rk.Names.{BeeName, Page}
use hive_rk.Names.Chain.{Lists}
use hive_rk.Boot.{Init, clear_nodes, core_global_memory, overlaps, boot}
use hive_rk.Boot.Setup.{data_pages, setup_pages_lem}
use hive_rk.Boot.Inits.{run_inits_lem}
use hive_rk.Boot.Slots.{Bee, numbered, run_all, by_priority, Keeps, Found, visits_lem}
use hive_rk.Boot.Order.{IsOrdered, in_order}

-- Each number is another than those in front of it.
abbrev pub IsDistinct : List ℕ → List ℕ → Type 0
IsDistinct seen [] = Unit
IsDistinct seen (i ∷ is) = All (λ j. j ≢ i) seen × IsDistinct (seen ++ i ∷ []) is

abbrev pub ids : List BeeData → List ℕ
ids ps = map (λ p. p.bee_id) ps

ids-append : (ps qs : List BeeData) → ids (ps ++ qs) ≡ ids ps ++ ids qs
ids-append [] qs = refl
ids-append (p ∷ ps) qs = ap (λ l. p.bee_id ∷ l) (ids-append ps qs)

others_of : (ps : List BeeData) (i : ℕ) → All (λ j. j ≢ i) (ids ps) → All (λ x. x.bee_id ≢ i) ps
others_of [] i h = tt
others_of (p ∷ ps) i h = (h.0, others_of ps i h.1)

length-data_pages : (xs : List BeeName) → length (data_pages xs) ≡ length xs
length-data_pages [] = refl
length-data_pages (x ∷ xs) = ap suc (length-data_pages xs)

module _ (handler word : ℕ) (left : ℕ → ℕ → ℕ) (c : Core) where
  Found-setup :
      (all seen ps : List BeeData)
      → all ≡ seen ++ ps
      → length all ≤ 1024
      → IsDistinct (ids seen) (ids ps)
      → Found word (setup_lookup_array handler left 0 all c) (numbered (length seen) ps)
  unfolding numbered
  Found-setup all seen [] e short h = tt
  Found-setup all seen (p ∷ ps) e short h =
      let n : length all ≡ length seen + suc (length ps) =
        ap (λ (xs : List BeeData). length xs) e ∙ length-append seen (p ∷ ps) in
      let (at, first) =
        setup-IsFirst handler left word seen ps p c (others_of seen p.bee_id h.0)
          (omega (arith, n)) in
      let here = lookup_id-IsFirst word p.bee_id _ (length seen) _ first in
      let e' : all ≡ (seen ++ p ∷ []) ++ ps = e ∙ sym (append_assoc seen (p ∷ []) ps) in
      let n' : length (seen ++ p ∷ []) ≡ length seen + 1 =
        omega (arith, length-append seen (p ∷ [])) in
      (rw e here, rw n' at (Found-setup all (seen ++ p ∷ []) ps e' short (rw ids-append h.1)))

-- Let the name pages list modules, at most 1024, with different numbers, and let the inits leave the
-- numbers of the modules in the table; let the word at CORE_GLOBAL_MEMORY lie outside of the memory
-- that was taken. With fuel for more rounds than there are modules, the start
-- returns; it has made the table of the modules in the order of the pages and then run the init of
-- every module exactly once, with the module's own slot, in the order of the priorities and, at one
-- priority, of the pages.
pub boot-IsOrdered :
    (fuel handler word page top : ℕ) (left : ℕ → ℕ → ℕ) (init : Init)
    (spoiled : (ℕ → Page) → ℕ → Page) (pages : ℕ → Page) (xs : List BeeName) (c : Core)
    → Lists pages top page 0 xs
    → length xs ≤ 1024
    → length xs < fuel
    → IsDistinct [] (ids (data_pages xs))
    → All (λ y. y.1.priority < 256) (numbered 0 (data_pages xs))
    → Keeps init word
    → overlaps page c.memory ≡ false
    → let cleared = record c {
      nodes = clear_nodes max_bees 0 c.nodes;
      words = store c.words core_global_memory handler;
    } in
      (ys : List Bee) × (boot fuel handler left init word spoiled pages page c
        ≡ some (run_all init ys (setup_lookup_array handler left 0 (data_pages xs) cleared)))
      × Perm ys (numbered 0 (data_pages xs))
      × IsOrdered ys
unfolding boot
boot-IsOrdered fuel handler word page top left init spoiled pages xs c h short enough distinct bytes
      keeps apart =
    let cleared = record c {
      nodes = clear_nodes max_bees 0 c.nodes;
      words = store c.words core_global_memory handler;
    } in
    let ps = data_pages xs in
    let table = setup_lookup_array handler left 0 ps cleared in
    let n = length-data_pages xs in
    let made = setup_pages_lem handler left pages top xs page fuel cleared h enough in
    let found = Found-setup handler word left cleared ps [] ps refl (omega (arith, n)) distinct in
    let ran = run_inits_lem init word pages top fuel page xs table enough h in
    let ordered = visits_lem init word keeps 256 0 ps table (omega (arith, n)) found in
    let (perm, sorted) = in_order ps bytes in
    (by_priority 256 0 (numbered 0 ps), rw apart (rw (made, ran, ordered) refl), perm, sorted)
