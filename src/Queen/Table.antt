-- ===== src/Queen/Table.antt =====
-- The table that `setupLookupArray` of queen/main.c makes, and the calls through it.
use hive_rk.Prelude.{ℕ, zero, suc, ◌+◌, ◌-◌, ◌%◌, ◌^◌, ◌≤◌, ◌<◌, ◌≡◌, ◌≢◌, refl, ◌∙◌, arith}
use hive_rk.Prelude.{◌==◌, if◌then◌else◌, leb, none, some, true, false, ==_ne, store, All}
use hive_rk.Prelude.{length-append, Bool-cases, inl, inr, List, [], ◌∷◌, ◌++◌, length}
use hive_rk.Queen.{IdNode, Core, outcome, command, BeeFunc, BeeData, id_of}
use hive_rk.Queen.{
  core_error_none, core_error_no_cmd, id_bound, clear_funcs, export_funcs, make_node,
}
use hive_rk.Queen.{setup_lookup_array, core_interrupt_handler, dispatch, dispatch_at, update}
use hive_rk.Queen.{node_size}
use hive_rk.Queen.Lookup.{IsFirst, find-IsFirst}

-- Functions that are exported later under other numbers leave a number alone.
export_keeps :
    (fs : List BeeFunc) (funcs : ℕ → ℕ) (n : ℕ)
    → All (λ g. g.id % 2 ^ 30 ≢ n) fs
    → export_funcs fs funcs n ≡ funcs n
unfolding export_funcs
export_keeps [] funcs n h = refl
export_keeps (f ∷ fs) funcs n h =
    let t : (f.id % 2 ^ 30 == n) ≡ false = ==_ne (f.id % 2 ^ 30) n h.0 in
    export_keeps fs (store funcs (f.id % 2 ^ 30) f.func) n h.1 ∙ rw t

exported :
    (fs gs : List BeeFunc) (f : BeeFunc) (funcs : ℕ → ℕ)
    → All (λ g. g.id % 2 ^ 30 ≢ f.id % 2 ^ 30) gs
    → export_funcs (fs ++ f ∷ gs) funcs (f.id % 2 ^ 30) ≡ f.func
unfolding export_funcs
exported [] gs f funcs h =
    export_keeps gs (store funcs (f.id % 2 ^ 30) f.func) (f.id % 2 ^ 30) h ∙ ground arith
exported (x ∷ fs) gs f funcs h = exported fs gs f (store funcs (x.id % 2 ^ 30) x.func) h

exported_in :
    (all fs gs : List BeeFunc) (f : BeeFunc) (funcs : ℕ → ℕ)
    → all ≡ fs ++ f ∷ gs
    → All (λ g. g.id % 2 ^ 30 ≢ f.id % 2 ^ 30) gs
    → export_funcs all funcs (f.id % 2 ^ 30) ≡ f.func
exported_in all fs gs f funcs e h = rw e (exported fs gs f funcs h)

-- The numbers of a module's exports are below what a 32-bit address space has space for.
abbrev pub AllSmall : List BeeFunc → Type 0
AllSmall fs = All (λ g. g.id < 2 ^ 30 - 7) fs

others_wrapped :
    (fs gs : List BeeFunc) (f : BeeFunc)
    → AllSmall (fs ++ f ∷ gs)
    → All (λ g. g.id ≢ f.id) gs
    → All (λ g. g.id % 2 ^ 30 ≢ f.id % 2 ^ 30) gs
others_wrapped [] [] f small h = tt
others_wrapped [] (g ∷ gs) f small h =
    let own = small.0 in
    let next = small.1.0 in
    (omega (arith, own, next, h.0), others_wrapped [] gs f (own, small.1.1) h.1)
others_wrapped (x ∷ fs) gs f small h = others_wrapped fs gs f small.1 h

small_at :
    (xs ys : List BeeData) (page : BeeData)
    → All (λ p. AllSmall p.funcs) (xs ++ page ∷ ys)
    → AllSmall page.funcs
small_at [] ys page h = h.0
small_at (x ∷ xs) ys page h = small_at xs ys page h.1

-- What the nodes of the modules take from memory.
abbrev pub table_size : List BeeData → ℕ
table_size [] = 0
table_size (page ∷ pages) = node_size page + table_size pages

cleared_func :
    (n s k : ℕ) (funcs : ℕ → ℕ)
    → clear_funcs n s funcs k
      ≡ (if leb s k then (if leb (s + n) k then funcs k else 0) else funcs k)
unfolding clear_funcs
cleared_func zero s k funcs = ground arith
cleared_func (suc n) s k funcs = cleared_func n (s + 1) k (store funcs s 0) ∙ ground arith

module _ (handler : ℕ) (left : ℕ → ℕ → ℕ) where
  -- The core after the round of a slot.
  abbrev after : ℕ → BeeData → Core → Core
  after s page c = record c {
    nodes = update s (make_node handler (left c.memory) page) c.nodes;
    memory = (c.memory + node_size page) % 2 ^ 32;
  }

  setup_calls :
      (s : ℕ) (pages : List BeeData) (c : Core)
      → (setup_lookup_array handler left s pages c).calls ≡ c.calls
  unfolding setup_lookup_array
  setup_calls s [] c = refl
  setup_calls s (page ∷ pages) c = setup_calls (s + 1) pages (after s page c)

  -- Slots in front of the first stay.
  setup_keeps :
      (s j : ℕ) (pages : List BeeData) (c : Core)
      → j < s
      → (setup_lookup_array handler left s pages c).nodes j ≡ c.nodes j
  unfolding setup_lookup_array
  setup_keeps s j [] c lt = refl
  setup_keeps s j (page ∷ pages) c lt =
      let t : (s == j) ≡ false = ground arith in
      setup_keeps (s + 1) j pages (after s page c) (omega arith) ∙ rw t

  -- The slot of a module holds its node, at some bump pointer.
  setup_slot :
      (s : ℕ) (xs ys : List BeeData) (page : BeeData) (c : Core)
      → (at : ℕ) × ((setup_lookup_array handler left s (xs ++ page ∷ ys) c).nodes (s + length xs)
          ≡ some (make_node handler (left at) page))
  unfolding setup_lookup_array
  setup_slot s [] ys page c =
      let e : s + 0 ≡ s = omega arith in
      let self : (s == s) ≡ true = ground arith in
      let stays = setup_keeps (s + 1) s ys (after s page c) (omega arith) in
      (c.memory, rw e (stays ∙ rw self))
  setup_slot s (x ∷ xs) ys page c =
      let e : s + suc (length xs) ≡ s + 1 + length xs = omega arith in
      rw e (setup_slot (s + 1) xs ys page (after s x c))

  -- The slots of other modules hold other numbers.
  setup_before :
      (word id s j : ℕ) (xs ys : List BeeData) (c : Core)
      → All (λ x. x.bee_id ≢ id) xs
      → s ≤ j
      → j < s + length xs
      → id_of word ((setup_lookup_array handler left s (xs ++ ys) c).nodes j) ≢ id
  unfolding setup_lookup_array make_node
  setup_before word id s j [] ys c h le lt = absurd (omega arith)
  setup_before word id s j (x ∷ xs) ys c h le lt = elim (Bool-cases (s == j)) [
    | inl here ↦
        let stays = setup_keeps (s + 1) j (xs ++ ys) (after s x c) (ground arith) in
        let q : (after s x c).nodes j ≡ some (make_node handler (left c.memory) x) = rw here in
        rw (stays ∙ q) h.0
    | inr later ↦
        setup_before word id (s + 1) j xs ys (after s x c) h.1 (ground arith) (omega arith)
  ]

  make_node_id : (page : BeeData) (at : ℕ) → (make_node handler (left at) page).id ≡ page.bee_id
  unfolding make_node
  make_node_id page at = refl

  pub setup-IsFirst :
      (word : ℕ) (xs ys : List BeeData) (page : BeeData) (c : Core)
      → All (λ x. x.bee_id ≢ page.bee_id) xs
      → length xs < 1024
      → (at : ℕ) × IsFirst word page.bee_id
          (setup_lookup_array handler left 0 (xs ++ page ∷ ys) c).nodes
          (length xs)
          (make_node handler (left at) page)
  setup-IsFirst word xs ys page c others short =
      let (at, slot) = setup_slot 0 xs ys page c in
      let e : 0 + length xs ≡ length xs = omega arith in
      (
        at,
        record {
          slot = short;
          holds = rw e at slot;
          number = make_node_id page at;
          before = λ j lt.
              setup_before word page.bee_id 0 j xs (page ∷ ys) c others (omega arith) (omega arith);
        },
      )

-- A call of `cmd` to a node that the table has first.
dispatch_first :
    (data_of args : ℕ → ℕ) (word junk id cmd count ptr k : ℕ) (node : IdNode) (c : Core)
    → IsFirst word id c.nodes k node
    → id ≢ 0
    → core_interrupt_handler data_of word junk args id cmd count ptr c
      ≡ dispatch_at (some (k, node)) cmd count ptr c
unfolding core_interrupt_handler dispatch
dispatch_first data_of args word junk id cmd count ptr k node c first ne =
    let z : (id == 0) ≡ false = ==_ne id 0 ne in
    let f = find-IsFirst word id c.nodes k node first in rw (z, f)

module _ (data_of args : ℕ → ℕ) (handler word junk count ptr : ℕ) (left : ℕ → ℕ → ℕ)
    (xs ys : List BeeData) (page : BeeData) (c : Core)
    (others : All (λ x. x.bee_id ≢ page.bee_id) xs) (short : length (xs ++ page ∷ ys) ≤ 1024)
    (ne : page.bee_id ≢ 0) (room : c.memory + table_size (xs ++ page ∷ ys) ≤ 2 ^ 32)
    (small : All (λ p. AllSmall p.funcs) (xs ++ page ∷ ys)) where
  abbrev table : Core
  table = setup_lookup_array handler left 0 (xs ++ page ∷ ys) c

  -- After `setupLookupArray` on the loaded modules, at most 1024, whose exports have numbers below
  -- 2 ^ 30 - 7 and whose nodes fit memory, a call with the number of a module, not 0, and the
  -- number of one of its commands calls the function that the module's header exports under that
  -- number, the last if there are several, once, without storage; `eax` is 0, and the module finds the
  -- caller's arguments in its own CoreData, with its base address.
  pub core_interrupt_handler-setup_lookup_array :
      (fs gs : List BeeFunc) (f : BeeFunc)
      → page.funcs ≡ fs ++ f ∷ gs
      → All (λ g. g.id ≢ f.id) gs
      → f.func ≢ 0
      → let o = core_interrupt_handler data_of word junk args page.bee_id f.id count ptr table in
        (o.eax ≡ core_error_none)
        × (o.core.calls ≡ c.calls ++ command f.func (length xs) none ∷ [])
        × ((node : IdNode) × (o.core.nodes (length xs) ≡ some node)
            × (node.count ≡ count)
            × (node.ptr ≡ ptr)
            × (node.base_adr ≡ page.base_address))
  unfolding dispatch_at make_node
  core_interrupt_handler-setup_lookup_array fs gs f exports last some_func =
      let (at, first) =
        setup-IsFirst handler left word xs ys page c others
          (omega (arith, short, length-append xs (page ∷ ys))) in
      let node = make_node handler (left at) page in
      let e =
        dispatch_first data_of args word junk page.bee_id f.id count ptr (length xs) node table
          first ne in
      let calls = setup_calls handler left 0 (xs ++ page ∷ ys) c in
      let left' = clear_funcs (id_bound page.funcs 0 - 1) 0 (left at) in
      let own : AllSmall (fs ++ f ∷ gs) = rw (← exports) (small_at xs ys page small) in
      let v = exported_in page.funcs fs gs f left' exports (others_wrapped fs gs f own last) in
      let t : (f.func == 0) ≡ false = ==_ne f.func 0 some_func in
      let self : (length xs == length xs) ≡ true = ground arith in
      rw (e, v, t, calls)
        (refl, refl, (record node { count = count; ptr = ptr }, rw self, refl, refl, refl))

  -- A number below the module's largest that it does not export gets the error for it, and nothing
  -- changes.
  pub core_interrupt_handler_not_exported :
      (cmd : ℕ)
      → All (λ g. g.id % 2 ^ 30 ≢ cmd) page.funcs
      → cmd < 2 ^ 30
      → cmd + 1 < id_bound page.funcs 0
      → core_interrupt_handler data_of word junk args page.bee_id cmd count ptr table
        ≡ outcome core_error_no_cmd none table
  unfolding dispatch_at make_node
  core_interrupt_handler_not_exported cmd missing lt below =
      let (at, first) =
        setup-IsFirst handler left word xs ys page c others
          (omega (arith, short, length-append xs (page ∷ ys))) in
      let node = make_node handler (left at) page in
      let e =
        dispatch_first data_of args word junk page.bee_id cmd count ptr (length xs) node table first
          ne in
      let left' = clear_funcs (id_bound page.funcs 0 - 1) 0 (left at) in
      let z : export_funcs page.funcs left' cmd ≡ 0 =
        export_keeps page.funcs left' cmd missing
        ∙ cleared_func (id_bound page.funcs 0 - 1) 0 cmd (left at)
        ∙ ground arith in
      let w : cmd % 2 ^ 30 ≡ cmd = omega arith in e ∙ rw (w, z)
