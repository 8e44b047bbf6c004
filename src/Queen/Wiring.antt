-- ===== src/Queen/Wiring.antt =====
-- What a request for storage to the core of queen/main.c leaves as it is: the modules in the slots.
use hive_rk.Prelude.{ℕ, zero, suc, ◌≡◌, refl, sym, ◌∙◌, ap, arith, ◌==◌}
use hive_rk.Prelude.{Option, none, some, Bool-cases, inl, inr}
use hive_rk.Queen.{IdNode, Nodes, Core, id_of, find, node_at, update, alloc}
use hive_rk.Queen.{AllocFunc, bump, other}
use hive_rk.Queen.{alloc_at, core_alloc}

-- The module of a slot: its number, base address and functions, and the address it calls.
abbrev pub wiring : Option IdNode → Option (ℕ × ℕ × ℕ × (ℕ → ℕ))
wiring none = none
wiring (some node) = some (node.id, node.irt, node.base_adr, node.funcs)

abbrev pub Keeps : Core → Core → Type 0
Keeps c c' = (j : ℕ) → wiring (c'.nodes j) ≡ wiring (c.nodes j)

pub Keeps-id_of :
    (word : ℕ) (c c' : Core)
    → Keeps c c'
    → (j : ℕ) → id_of word (c'.nodes j) ≡ id_of word (c.nodes j)
Keeps-id_of word c c' keeps j = same (c'.nodes j) ∙ ap number (keeps j) ∙ sym (same (c.nodes j))
  where
    number : Option (ℕ × ℕ × ℕ × (ℕ → ℕ)) → ℕ
    number none = word
    number (some w) = w.0

    same : (o : Option IdNode) → id_of word o ≡ number (wiring o)
    same none = refl
    same (some node) = refl

-- The node that was found stands in its slot.
IsAt : Nodes → Option (ℕ × IdNode) → Type 0
IsAt nodes none = Unit
IsAt nodes (some (s, node)) = nodes s ≡ some node

node_at-IsAt : (nodes : Nodes) (k : ℕ) → IsAt nodes (node_at nodes k)
unfolding IsAt
node_at-IsAt nodes zero = tt
node_at-IsAt nodes (suc s) = go (nodes s) refl
  where
    go :
        (o : Option IdNode)
        → nodes s ≡ o
        → IsAt nodes
            (elim o as (λ x. Option (ℕ × IdNode)) [ none ↦ none | some node ↦ some (s, node) ])
    go none e = tt
    go (some node) e = e

find-IsAt : (word : ℕ) (nodes : Nodes) (id : ℕ) → IsAt nodes (find word nodes id)
unfolding find
find-IsAt word nodes id = node_at-IsAt nodes _

-- A node is replaced by one that differs in its storage and arguments only.
update-Keeps :
    (s : ℕ) (node new : IdNode) (nodes : Nodes) (j : ℕ)
    → nodes s ≡ some node
    → wiring (some new) ≡ wiring (some node)
    → wiring (update s new nodes j) ≡ wiring (nodes j)
update-Keeps s node new nodes j at same = elim (Bool-cases (s == j)) [
  | inl t ↦ let p : s ≡ j = ground arith in rw t (same ∙ ap wiring (sym at ∙ ap nodes p))
  | inr t ↦ rw t refl
]

alloc-Keeps :
    (s size : ℕ) (node : IdNode) (c : Core) → c.nodes s ≡ some node → Keeps c (alloc s size node c)
unfolding alloc
alloc-Keeps s size node c at j = go c.alloc_f refl
  where
    go :
        (f : AllocFunc)
        → c.alloc_f ≡ f
        → wiring ((alloc s size node c).nodes j) ≡ wiring (c.nodes j)
    go bump e =
        rw e (update-Keeps s node (record node { global_values = c.memory }) c.nodes j at refl)
    go (other g) e = rw e refl

alloc_at-Keeps :
    (o : Option (ℕ × IdNode)) (junk size : ℕ) (c : Core)
    → IsAt c.nodes o
    → Keeps c (alloc_at o junk size c).core
unfolding IsAt alloc_at
alloc_at-Keeps none junk size c at j = refl
alloc_at-Keeps (some (s, node)) junk size c at j = elim (Bool-cases (node.global_values == 0)) [
  | inl t ↦ rw t (alloc-Keeps s size node c at j)
  | inr t ↦ rw t refl
]

-- Command 1, for any module and any size, leaves in every slot the module that is there, with its base
-- address, its functions and the address that it calls the core at. (Nodes are parts of memory of
-- their own here: the words that the request clears lie behind them.)
pub core_alloc-Keeps :
    (word junk id size : ℕ) (c : Core) → Keeps c (core_alloc word junk id size c).core
unfolding core_alloc
core_alloc-Keeps word junk id size c j =
    alloc_at-Keeps (find word c.nodes id) junk size c (find-IsAt word c.nodes id) j
