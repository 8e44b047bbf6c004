-- ===== src/Queen/Commands.antt =====
-- The storage commands of queen/main.c's core.
use hive_rk.Prelude.{ℕ, zero, suc, ◌+◌, ◌*◌, ◌%◌, ◌^◌, ◌≤◌, ◌<◌, ◌≡◌, ◌≢◌, refl, ◌∙◌, arith}
use hive_rk.Prelude.{◌==◌, none, some, true, false, ==_ne, store}
use hive_rk.Prelude.{Bool-cases, inl, inr}
use hive_rk.Queen.{IdNode, Core, bump, outcome, clear_words, update, alloc}
use hive_rk.Queen.{
  core_alloc, core_globals, core_data, core_command, dispatch, core_interrupt_handler,
}
use hive_rk.Queen.{alloc_at, globals_at, data_at, dispatch_at}
use hive_rk.Queen.{id_of, core_error_none, core_error_no_module}
use hive_rk.Queen.Lookup.{IsFirst, find-IsFirst, find-none, update-IsFirst}

cleared_keep :
    (n p q : ℕ) (words : ℕ → ℕ) → p + 4 * n ≤ 2 ^ 32 → q < p → clear_words n p words q ≡ words q
unfolding clear_words
cleared_keep zero p q words fits lt = refl
cleared_keep (suc zero) p q words fits lt = ground arith
cleared_keep (suc (suc n)) p q words fits lt =
    let e : (p + 4) % 2 ^ 32 ≡ p + 4 = omega arith in
    rw e
      (cleared_keep (suc n) (p + 4) q (store words p 0) (omega arith) (omega arith) ∙ ground arith)

cleared :
    (n p k : ℕ) (words : ℕ → ℕ) → p + 4 * n ≤ 2 ^ 32 → k < n → clear_words n p words (p + 4 * k) ≡ 0
unfolding clear_words
cleared zero p k words fits lt = absurd (omega arith)
cleared (suc zero) p k words fits lt = let e : p + 4 * k ≡ p = omega arith in rw e (ground arith)
cleared (suc (suc n)) p zero words fits lt =
    let e : (p + 4) % 2 ^ 32 ≡ p + 4 = omega arith in
    let z : p + 4 * 0 ≡ p = omega arith in
    rw (e, z)
      (cleared_keep (suc n) (p + 4) p (store words p 0) (omega arith) (omega arith) ∙ ground arith)
cleared (suc (suc n)) p (suc k) words fits lt =
    let e : (p + 4) % 2 ^ 32 ≡ p + 4 = omega arith in
    let z : p + 4 * suc k ≡ p + 4 + 4 * k = omega arith in
    rw (e, z) (cleared (suc n) (p + 4) k (store words p 0) (omega arith) (omega arith))

-- The state of command 1 before the first storage of a module.
pub record IsNew (word id s : ℕ) (node : IdNode) (c : Core) : Type 0 where
  pub first : IsFirst word id c.nodes s node
  pub without : node.global_values ≡ 0
  pub bumps : c.alloc_f ≡ bump

-- Command 1 for a module without storage, with the core's own allocator and a bump pointer that is
-- not 0: command 2 then stores the old bump pointer, command 1 for the same module changes nothing
-- more, the bump pointer is `size` bytes on, and `size` words from the old one are 0, which is four
-- times the storage.
pub core_globals-core_alloc :
    (word junk id s size k : ℕ) (node : IdNode) (c : Core)
    → IsNew word id s node c
    → 1 ≤ c.memory
    → c.memory + 4 * size < 2 ^ 32
    → k < size
    → let o = core_alloc word junk id size c in
      (o.eax ≡ core_error_none)
      × (core_globals word id o.core ≡ outcome core_error_none (some c.memory) o.core)
      × ((n : ℕ) → (core_alloc word junk id n o.core).core ≡ o.core)
      × (o.core.memory ≡ c.memory + size)
      × (o.core.words (c.memory + 4 * k) ≡ 0)
unfolding core_alloc core_globals alloc alloc_at globals_at
core_globals-core_alloc word junk id s size k node c new pos fits lt =
    let f = find-IsFirst word id c.nodes s node new.first in
    let node' : IdNode = record node { global_values = c.memory } in
    let f' =
      find-IsFirst word id (update s node' c.nodes) s node'
        (update-IsFirst word id s c.nodes node node' new.first refl) in
    let without : (node.global_values == 0) ≡ true = ground (arith, new.without) in
    let with : (c.memory == 0) ≡ false = ground arith in
    rw (f, without, new.bumps)
      (
        refl,
        rw f',
        λ n. rw (f', with),
        omega arith,
        cleared size c.memory k c.words (omega arith) lt,
      )

-- A call with a number that no module has, and that is not the word at address 0, gets the error for
-- it and changes nothing, whichever command it is; so does a call of command 1, 2 or 3 of module 0
-- with that number as its first argument.
pub core_interrupt_handler_unknown :
    (data_of args : ℕ → ℕ) (word junk id cmd count ptr : ℕ) (c : Core)
    → ((j : ℕ) → j < 1024 → id_of word (c.nodes j) ≢ id)
    → args 0 ≡ id
    → id ≢ 0
    → (core_interrupt_handler data_of word junk args id cmd count ptr c
        ≡ outcome core_error_no_module none c)
      × ((n : ℕ)
          → 1 ≤ n
          → n ≤ 3
          → core_interrupt_handler data_of word junk args 0 n count ptr c
            ≡ outcome core_error_no_module none c)
unfolding core_interrupt_handler core_command core_alloc core_globals core_data dispatch alloc_at
    globals_at data_at dispatch_at
core_interrupt_handler_unknown data_of args word junk id cmd count ptr c unknown arg ne =
    let f = find-none word id c.nodes unknown in
    let z : (id == 0) ≡ false = ==_ne id 0 ne in
    (
      rw (z, f),
      λ n low high. elim (Bool-cases (n == 1)) [
        | inl one ↦ rw (one, arg, f)
        | inr not_one ↦ rw not_one (elim (Bool-cases (n == 2)) [
          | inl two ↦ rw (two, arg, f)
          | inr not_two ↦ let three : (n == 3) ≡ true = ground arith in rw (not_two, three, arg, f)
        ])
      ],
    )
