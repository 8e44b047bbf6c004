-- ===== src/Boot/Inits.antt =====
-- The loops of `run_inits` of queen/main.c on pages that list the modules.
use hive_rk.Prelude.{ℕ, zero, suc, ◌+◌, ◌<◌, ◌≡◌, refl, arith}
use hive_rk.Prelude.{◌==◌, if◌then◌else◌, some, false}
use hive_rk.Prelude.{Bool-cases, inl, inr, List, [], ◌∷◌, length, subst}
use hive_rk.Queen.{BeeData, Core}
use hive_rk.Names.{BeeName, Page}
use hive_rk.Names.Chain.{Lists}
use hive_rk.Boot.{Init, run_init, inits_at, inits_from, run_inits}
use hive_rk.Boot.Setup.{data_pages}

module _ (init : Init) (word : ℕ) where
  -- One round on a list of modules.
  abbrev turn : ℕ → BeeData → Core → Core
  turn s p c = if p.priority == s then run_init init word p c else c

  unfoldable pub visit : ℕ → List BeeData → Core → Core
  visit s [] c = c
  visit s (p ∷ ps) c = visit s ps (turn s p c)

  unfoldable pub visits : ℕ → ℕ → List BeeData → Core → Core
  visits zero s ps c = c
  visits (suc n) s ps c = visits n (s + 1) ps (visit s ps c)

  module _ (pages : ℕ → Page) (top : ℕ) where
    Walks : List BeeName → ℕ → ℕ → ℕ → ℕ → Core → Type 0
    Walks xs fuel s cur i c =
        inits_at fuel init word pages s cur i c ≡ some (visit s (data_pages xs) c)

    Next : List BeeName → ℕ → ℕ → BeeName → Core → Type 0
    Next xs fuel s x c =
        (next j : ℕ)
        → j < 14
        → Lists pages top next j xs
        → Walks xs fuel s next j (turn s x.data_page c)

    last_entry :
        (xs : List BeeName) (fuel s cur : ℕ) (x : BeeName) (c : Core)
        → Lists pages top cur 13 (x ∷ xs)
        → Next xs fuel s x c
        → Walks (x ∷ xs) (suc fuel) s cur 13 c
    unfolding Walks Next inits_at visit
    last_entry [] fuel s cur x c h ih =
        let u : (x.name 0 == 0) ≡ false = ground arith in
        let b = h.0.0 0 (omega arith) in
        let same = h.0.1 in
        let last : (pages cur).next_page ≡ 0 = h.1.0 in rw (b, u, same, last) refl
    last_entry (x' ∷ xs) fuel s cur x c h ih =
        let u : (x.name 0 == 0) ≡ false = ground arith in
        let b = h.0.0 0 (omega arith) in
        let same = h.0.1 in
        let next = (pages cur).next_page in
        let t : (next == 0) ≡ false = ground arith in
        rw (b, u, same, t) (ih next 0 (omega arith) h.1.2)

    inits_at_step :
        (xs : List BeeName) (fuel s cur i : ℕ) (x : BeeName) (c : Core)
        → i < 14
        → Lists pages top cur i (x ∷ xs)
        → Next xs fuel s x c
        → Walks (x ∷ xs) (suc fuel) s cur i c
    unfolding Walks Next inits_at visit
    inits_at_step xs fuel s cur i x c lt h ih = elim (Bool-cases (i == 13)) [
      | inl t ↦
          let p : i ≡ 13 = ground arith in
          let h' = subst (λ k. Lists pages top cur k (x ∷ xs)) p h in
          rw p (last_entry xs fuel s cur x c h' ih)
      | inr t ↦
          let t' : (i + 1 == 14) ≡ false = ground arith in
          let u : (x.name 0 == 0) ≡ false = ground arith in
          let b = h.0.0 0 (omega arith) in
          let same = h.0.1 in
          let rest = (rw t at h).1 in rw (b, u, t', same) (ih cur (i + 1) (ground arith) rest)
    ]

    inits_at_lem :
        (xs : List BeeName) (fuel s cur i : ℕ) (c : Core)
        → i < 14
        → length xs < fuel
        → Lists pages top cur i xs
        → Walks xs fuel s cur i c
    unfolding Walks Next inits_at visit
    inits_at_lem xs zero s cur i c lt enough h = absurd (omega arith)
    inits_at_lem [] (suc fuel) s cur i c lt enough h = let e = h.0 in rw e refl
    inits_at_lem (x ∷ xs) (suc fuel) s cur i c lt enough h =
        inits_at_step xs fuel s cur i x c lt h λ next j lt' rest.
          inits_at_lem xs fuel s next j (turn s x.data_page c) lt' (omega arith) rest

    inits_from_lem :
        (n s fuel page : ℕ) (xs : List BeeName) (c : Core)
        → length xs < fuel
        → Lists pages top page 0 xs
        → inits_from n fuel init word pages s page c ≡ some (visits n s (data_pages xs) c)
    unfolding Walks inits_from visits
    inits_from_lem zero s fuel page xs c enough h = refl
    inits_from_lem (suc n) s fuel page xs c enough h =
        let e : inits_at fuel init word pages s page 0 c ≡ some (visit s (data_pages xs) c) =
          inits_at_lem xs fuel s page 0 c (omega arith) enough h in
        rw e (inits_from_lem n (s + 1) fuel page xs (visit s (data_pages xs) c) enough h)

    pub run_inits_lem :
        (fuel page : ℕ) (xs : List BeeName) (c : Core)
        → length xs < fuel
        → Lists pages top page 0 xs
        → run_inits fuel init word pages page c ≡ some (visits 256 0 (data_pages xs) c)
    unfolding run_inits
    run_inits_lem fuel page xs c enough h = inits_from_lem 256 0 fuel page xs c enough h
