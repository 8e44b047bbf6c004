-- ===== src/Boot/Slots.antt =====
-- The slots that `run_inits` of queen/main.c passes to the modules it starts: each module is found in
-- its own.
use hive_rk.Prelude.{ℕ, zero, suc, ◌+◌, ◌-◌, ◌%◌, ◌^◌, ◌<◌, ◌≡◌, refl, ◌∙◌, arith}
use hive_rk.Prelude.{◌==◌, if◌then◌else◌, Bool, All}
use hive_rk.Prelude.{Bool-cases, inl, inr, List, [], ◌∷◌, ◌++◌, length}
use hive_rk.Queen.{BeeData, Core, id_of, lookup_id}
use hive_rk.Queen.Lookup.{lookup_id_same}
use hive_rk.Boot.{Init, run_init}
use hive_rk.Boot.Inits.{visit, visits}

-- A module with its slot.
abbrev pub Bee : Type 0
Bee = ℕ × BeeData

unfoldable pub numbered : ℕ → List BeeData → List Bee
numbered k [] = []
numbered k (p ∷ ps) = (k, p) ∷ numbered (k + 1) ps

-- The inits of modules, one after another, each with its slot.
unfoldable pub run_all : Init → List Bee → Core → Core
run_all init [] c = c
run_all init (y ∷ ys) c = run_all init ys (init y.1.init_func y.0 c)

unfoldable pub keep : (Bee → Bool) → List Bee → List Bee
keep test [] = []
keep test (y ∷ ys) = if test y then y ∷ keep test ys else keep test ys

-- The modules of a priority, and of the `n` priorities from `s` on.
unfoldable pub at_priority : ℕ → List Bee → List Bee
at_priority s ys = keep (λ y. y.1.priority == s) ys

unfoldable pub by_priority : ℕ → ℕ → List Bee → List Bee
by_priority zero s ys = []
by_priority (suc n) s ys = at_priority s ys ++ by_priority n (s + 1) ys

run_all-append :
    (init : Init) (xs ys : List Bee) (c : Core)
    → run_all init (xs ++ ys) c ≡ run_all init ys (run_all init xs c)
unfolding run_all
run_all-append init [] ys c = refl
run_all-append init (x ∷ xs) ys c = run_all-append init xs ys (init x.1.init_func x.0 c)

-- The inits leave the numbers of the modules in their slots.
abbrev pub Keeps : Init → ℕ → Type 0
Keeps init word =
    (f s : ℕ) (c : Core) (j : ℕ) → id_of word ((init f s c).nodes j) ≡ id_of word (c.nodes j)

-- Each module is found in its slot.
abbrev pub Found : ℕ → Core → List Bee → Type 0
Found word c ys = All (λ y. lookup_id word c.nodes y.1.bee_id ≡ y.0 + 1) ys

module _ (init : Init) (word : ℕ) (keeps : Keeps init word) where
  Found-init : (f s : ℕ) (c : Core) (ys : List Bee) → Found word c ys → Found word (init f s c) ys
  Found-init f s c [] h = tt
  Found-init f s c (y ∷ ys) h = (
    lookup_id_same word y.1.bee_id c.nodes (init f s c).nodes (keeps f s c) ∙ h.0,
    Found-init f s c ys h.1,
  )

  Found-run_all :
      (xs ys : List Bee) (c : Core) → Found word c ys → Found word (run_all init xs c) ys
  unfolding run_all
  Found-run_all [] ys c h = h
  Found-run_all (x ∷ xs) ys c h =
      Found-run_all xs ys (init x.1.init_func x.0 c) (Found-init x.1.init_func x.0 c ys h)

  run_init_found :
      (k : ℕ) (p : BeeData) (c : Core)
      → lookup_id word c.nodes p.bee_id ≡ k + 1
      → k < 2 ^ 31
      → run_init init word p c ≡ init p.init_func k c
  unfolding run_init
  run_init_found k p c e small =
      let m : (k + 1 + 2 ^ 32 - 1) % 2 ^ 32 ≡ k = omega arith in rw (e, m) refl

  visit_lem :
      (s k : ℕ) (ps : List BeeData) (c : Core)
      → k + length ps < 2 ^ 31
      → Found word c (numbered k ps)
      → visit init word s ps c ≡ run_all init (at_priority s (numbered k ps)) c
  unfolding visit at_priority keep numbered run_all
  visit_lem s k [] c small h = refl
  visit_lem s k (p ∷ ps) c small h = elim (Bool-cases (p.priority == s)) [
    | inl t ↦
        let c' = init p.init_func k c in
        rw (t, run_init_found k p c h.0 (omega arith))
          (visit_lem s (k + 1) ps c' (omega arith)
            (Found-init p.init_func k c (numbered (k + 1) ps) h.1))
    | inr t ↦ rw t (visit_lem s (k + 1) ps c (omega arith) h.1)
  ]

  pub visits_lem :
      (n s : ℕ) (ps : List BeeData) (c : Core)
      → length ps < 2 ^ 31
      → Found word c (numbered 0 ps)
      → visits init word n s ps c ≡ run_all init (by_priority n s (numbered 0 ps)) c
  unfolding visits by_priority run_all
  visits_lem zero s ps c small h = refl
  visits_lem (suc n) s ps c small h =
      let ys = at_priority s (numbered 0 ps) in
      rw
        (
          visit_lem s 0 ps c (omega arith) h,
          run_all-append init ys (by_priority n (s + 1) (numbered 0 ps)) c,
        )
        (visits_lem n (s + 1) ps (run_all init ys c) small (Found-run_all ys (numbered 0 ps) c h))
