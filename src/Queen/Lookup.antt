-- ===== src/Queen/Lookup.antt =====
-- `lookupID` of queen/main.c.
use hive_rk.Prelude.{ℕ, zero, suc, ◌+◌, ◌≤◌, ◌<◌, ◌≡◌, ◌≢◌, refl, ◌∙◌, ap, arith, ◌==◌}
use hive_rk.Prelude.{Option, none, some, true, false, ==_ne, Bool-cases, inl, inr}
use hive_rk.Queen.{IdNode, Nodes, id_of, lookup_from, lookup_id, node_at, find, update}

node_at-suc :
    (nodes : Nodes) (k : ℕ) (node : IdNode)
    → nodes k ≡ some node
    → node_at nodes (suc k) ≡ some (k, node)
node_at-suc nodes k node e =
    ap
      (λ (o : Option IdNode). elim o as (λ x. Option (ℕ × IdNode)) [
        | none ↦ none
        | some n ↦ some (k, n)
      ])
      e

-- The first slot with a number holds a node; the slots in front of it may hold null pointers.
pub record IsFirst (word id : ℕ) (nodes : Nodes) (k : ℕ) (node : IdNode) : Type 0 where
  pub slot : k < 1024
  pub holds : nodes k ≡ some node
  pub number : node.id ≡ id
  pub before : (j : ℕ) → j < k → id_of word (nodes j) ≢ id

module _ (word id : ℕ) (nodes : Nodes) where
  lookup_from_first :
      (n s k : ℕ)
      → s ≤ k
      → k < s + n
      → id_of word (nodes k) ≡ id
      → ((j : ℕ) → s ≤ j → j < k → id_of word (nodes j) ≢ id)
      → lookup_from n s word nodes id ≡ k + 1
  unfolding lookup_from
  lookup_from_first zero s k le lt here before = absurd (omega arith)
  lookup_from_first (suc n) s k le lt here before = elim (Bool-cases (s == k)) [
    | inl e ↦
        let p : s ≡ k = ground arith in
        let t : (id_of word (nodes s) == id) ≡ true = rw p (ground (arith, here)) in
        rw t (omega arith)
    | inr ne ↦
        let h = before s (omega arith) (ground arith) in
        let t : (id_of word (nodes s) == id) ≡ false = ==_ne (id_of word (nodes s)) id h in
        rw t (
          lookup_from_first n (s + 1) k (ground arith) (omega arith) here
            (λ j sj jk. before j (omega arith) jk))
  ]

  lookup_from_none :
      (n s : ℕ)
      → ((j : ℕ) → s ≤ j → j < s + n → id_of word (nodes j) ≢ id)
      → lookup_from n s word nodes id ≡ 0
  unfolding lookup_from
  lookup_from_none zero s other = refl
  lookup_from_none (suc n) s other =
      let t : (id_of word (nodes s) == id) ≡ false =
        ==_ne (id_of word (nodes s)) id (other s (omega arith) (omega arith)) in
      rw t (lookup_from_none n (s + 1) (λ j sj jn. other j (omega arith) (omega arith)))

  pub lookup_id-IsFirst :
      (k : ℕ) (node : IdNode) → IsFirst word id nodes k node → lookup_id word nodes id ≡ k + 1
  unfolding lookup_id
  lookup_id-IsFirst k node p =
      lookup_from_first 1024 0 k (omega arith) p.slot (rw p.holds p.number) (λ j sj. p.before j)

  pub find-IsFirst :
      (k : ℕ) (node : IdNode) → IsFirst word id nodes k node → find word nodes id ≡ some (k, node)
  unfolding find
  find-IsFirst k node p =
      let l : lookup_id word nodes id ≡ k + 1 = lookup_id-IsFirst k node p in
      let m : k + 1 ≡ suc k = omega arith in rw (l, m) (node_at-suc nodes k node p.holds)

  -- No slot has the number, and the word at address 0 is another.
  pub find-none : ((j : ℕ) → j < 1024 → id_of word (nodes j) ≢ id) → find word nodes id ≡ none
  unfolding find lookup_id
  find-none other =
      let l : lookup_from 1024 0 word nodes id ≡ 0 = lookup_from_none 1024 0 (λ j sj. other j) in
      rw l

-- A number is found where it was if the numbers of the slots stay.
lookup_from_same :
    (n s word id : ℕ) (nodes nodes' : Nodes)
    → ((j : ℕ) → id_of word (nodes' j) ≡ id_of word (nodes j))
    → lookup_from n s word nodes' id ≡ lookup_from n s word nodes id
unfolding lookup_from
lookup_from_same zero s word id nodes nodes' same = refl
lookup_from_same (suc n) s word id nodes nodes' same =
    rw (same s, lookup_from_same n (s + 1) word id nodes nodes' same) refl

pub lookup_id_same :
    (word id : ℕ) (nodes nodes' : Nodes)
    → ((j : ℕ) → id_of word (nodes' j) ≡ id_of word (nodes j))
    → lookup_id word nodes' id ≡ lookup_id word nodes id
unfolding lookup_id
lookup_id_same word id nodes nodes' same = lookup_from_same 1024 0 word id nodes nodes' same

-- A node that is replaced by one with the same number is still the first with it.
pub update-IsFirst :
    (word id k : ℕ) (nodes : Nodes) (node new : IdNode)
    → IsFirst word id nodes k node
    → new.id ≡ node.id
    → IsFirst word id (update k new nodes) k new
update-IsFirst word id k nodes node new p e = record {
  slot = p.slot;
  holds = ground arith;
  number = e ∙ p.number;
  before = λ j lt. let t : (k == j) ≡ false = ground arith in rw t (p.before j lt);
}
