-- ===== src/Boot/Setup.antt =====
-- `setupLookupArray` of queen/main.c along the name pages is the one on the list of the modules.
use hive_rk.Prelude.{ℕ, zero, suc, ◌+◌, ◌<◌, ◌≡◌, refl, ◌∙◌, arith}
use hive_rk.Prelude.{◌==◌, if◌then◌else◌, ltb, Option, some, true, false}
use hive_rk.Prelude.{Bool-cases, inl, inr, List, [], ◌∷◌, length, map, subst}
use hive_rk.Queen.{BeeData, Core, setup_lookup_array}
use hive_rk.Names.{BeeName, Page}
use hive_rk.Names.Chain.{IsEntry, Lists}
use hive_rk.Boot.{setup_slot, setup_entries, setup_pages}

abbrev pub data_pages : List BeeName → List BeeData
data_pages xs = map (λ x. x.data_page) xs

setup_lookup_array_step :
    (handler : ℕ) (left : ℕ → ℕ → ℕ) (s : ℕ) (p : BeeData) (ps : List BeeData) (c : Core)
    → setup_lookup_array handler left s (p ∷ ps) c
      ≡ setup_lookup_array handler left (s + 1) ps (setup_slot handler left s p c)
unfolding setup_lookup_array setup_slot
setup_lookup_array_step handler left s p ps c = refl

module _ (handler : ℕ) (left : ℕ → ℕ → ℕ) (pages : ℕ → Page) (top : ℕ) where
  -- What `setupLookupArray` does behind the loop over the entries of a page.
  abbrev finish : ℕ → ℕ → ℕ → ℕ × Core → Option Core
  finish fuel cur depth r =
      let next = (pages cur).next_page in
      let rest = setup_pages fuel handler left pages next (depth + 14) r.1 in
      if ltb r.0 14 then some r.1 else (if next == 0 then some r.1 else rest)

  entries_end :
      (n depth i cur : ℕ) (c : Core)
      → i < 14
      → ((pages cur).names i).name 0 ≡ 0
      → setup_entries (suc n) handler left depth i (pages cur) c ≡ (i, c)
  unfolding setup_entries
  entries_end n depth i cur c lt e = let t : ltb i 14 ≡ true = ground arith in rw (t, e) refl

  entries_step :
      (n depth i cur : ℕ) (x : BeeName) (c : Core)
      → i < 14
      → IsEntry x ((pages cur).names i)
      → setup_entries (suc n) handler left depth i (pages cur) c
        ≡ setup_entries n handler left depth
            (i + 1)
            (pages cur)
            (setup_slot handler left (depth + i) x.data_page c)
  unfolding setup_entries
  entries_step n depth i cur x c lt (bytes, same, ne) =
      let t : ltb i 14 ≡ true = ground arith in
      let u : (x.name 0 == 0) ≡ false = ground arith in
      let b = bytes 0 (omega arith) in rw (t, b, u, same) refl

  entries_full :
      (n depth cur : ℕ) (c : Core) → setup_entries n handler left depth 14 (pages cur) c ≡ (14, c)
  unfolding setup_entries
  entries_full zero depth cur c = refl
  entries_full (suc n) depth cur c = refl

  setup_pages_step :
      (fuel depth cur : ℕ) (c : Core)
      → setup_pages (suc fuel) handler left pages cur depth c
        ≡ finish fuel cur depth (setup_entries 15 handler left depth 0 (pages cur) c)
  unfolding setup_pages
  setup_pages_step fuel depth cur c = refl

  abbrev Finishes : List BeeName → ℕ → ℕ → ℕ → ℕ → ℕ → Core → Type 0
  Finishes xs fuel n depth i cur c =
      finish fuel cur depth (setup_entries n handler left depth i (pages cur) c)
      ≡ some (setup_lookup_array handler left (depth + i) (data_pages xs) c)

  -- Behind the last entry of a page.
  page_full :
      (xs : List BeeName) (fuel n depth cur : ℕ) (x : BeeName) (c : Core)
      → length (x ∷ xs) < suc fuel
      → Lists pages top cur 13 (x ∷ xs)
      → ((fuel' next : ℕ)
          → fuel ≡ suc fuel'
          → Lists pages top next 0 xs
          → Finishes xs fuel' 15 (depth + 14) 0 next c)
      → finish fuel cur depth (setup_entries n handler left depth 14 (pages cur) c)
        ≡ some (setup_lookup_array handler left (depth + 14) (data_pages xs) c)
  unfolding setup_lookup_array
  page_full xs zero n depth cur x c short h ih = absurd (omega arith)
  page_full [] (suc fuel) n depth cur x c short h ih =
      let last : (pages cur).next_page ≡ 0 = h.1.0 in rw (entries_full n depth cur c, last) refl
  page_full (x' ∷ xs) (suc fuel) n depth cur x c short h ih =
      let next = (pages cur).next_page in
      let t : (next == 0) ≡ false = ground arith in
      let z : depth + 14 + 0 ≡ depth + 14 = omega arith in
      rw (entries_full n depth cur c, t, setup_pages_step fuel (depth + 14) next c)
        (rw z at (ih fuel next refl h.1.2))

  entries_lem :
      (xs : List BeeName) (fuel n depth i cur : ℕ) (c : Core)
      → i < 14
      → 14 < i + n
      → length xs < suc fuel
      → Lists pages top cur i xs
      → Finishes xs fuel n depth i cur c
  unfolding setup_lookup_array
  entries_lem xs fuel zero depth i cur c lt enough short h = absurd (omega arith)
  entries_lem [] fuel (suc n) depth i cur c lt enough short h =
      let t : ltb i 14 ≡ true = ground arith in rw (entries_end n depth i cur c lt h.0, t) refl
  entries_lem (x ∷ xs) fuel (suc n) depth i cur c lt enough short h =
      let c' = setup_slot handler left (depth + i) x.data_page c in
      let step = entries_step n depth i cur x c lt h.0 in
      let table = setup_lookup_array_step handler left (depth + i) x.data_page (data_pages xs) c in
      elim (Bool-cases (i == 13)) [
        | inl t ↦
            let p : i ≡ 13 = ground arith in
            let p' : i + 1 ≡ 14 = omega arith in
            let d : depth + i + 1 ≡ depth + 14 = omega arith in
            let h' = subst (λ k. Lists pages top cur k (x ∷ xs)) p h in
            rw (step, table, p', d)
              (page_full xs fuel n depth cur x c' short h' λ fuel' next e rest.
                entries_lem xs fuel' 15 (depth + 14) 0 next c' (omega arith) (omega arith)
                  (omega arith) rest)
        | inr t ↦
            let rest = (rw t at h).1 in
            let d : depth + i + 1 ≡ depth + (i + 1) = omega arith in
            rw (step, table, d)
              (entries_lem xs fuel n depth (i + 1) cur c' (ground arith) (omega arith) (omega arith)
                rest)
      ]

  -- On pages that list the modules, with fuel for one page more than there are modules,
  -- `setupLookupArray` returns what it returns on the list of their data pages.
  pub setup_pages_lem :
      (xs : List BeeName) (page fuel : ℕ) (c : Core)
      → Lists pages top page 0 xs
      → length xs < fuel
      → setup_pages fuel handler left pages page 0 c
        ≡ some (setup_lookup_array handler left 0 (data_pages xs) c)
  setup_pages_lem xs page zero c h enough = absurd (omega arith)
  setup_pages_lem xs page (suc fuel) c h enough =
      let z : 0 + 0 ≡ 0 = omega arith in
      setup_pages_step fuel 0 page c
      ∙ rw z at (entries_lem xs fuel 15 0 0 page c (omega arith) (omega arith) enough h)
