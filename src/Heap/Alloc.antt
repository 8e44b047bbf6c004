-- ===== src/Heap/Alloc.antt =====
-- `kmalloc` of bees/memory/memory.c against first fit on the list of blocks.
use hive_rk.Prelude.{ℕ, zero, suc, ◌+◌, ◌-◌, ◌*◌, ◌≤◌, ◌<◌, ◌≡◌, refl, ◌^◌, ◌%◌, ltb, leb, ◌∙◌, All}
use native.Mathlib.Nat.{add-zero}
use hive_rk.Prelude.{List, [], ◌∷◌, ◌++◌, arith, Option, none, some, ap, sym, subst, length}
use hive_rk.Prelude.{if◌then◌else◌, Bool-cases, false, ==_ne, inl, inr}
use hive_rk.Heap.{Memory, unit_size, header_size, heap_total_units, heap_fuel, bytes_to_units}
use hive_rk.Heap.{split_block, claim, kmalloc_loop, kmalloc}
use hive_rk.Heap.Blocks.{Block, used, avail, size, total, behind, Header, link, Chain, Front}
use hive_rk.Heap.Blocks.{IsHeap, Chain-frame, Front-frame, Chain-append, Chain-Front, Chain-back}
use hive_rk.Heap.Blocks.{length-le-total, total-append}

-- A list of blocks taken apart at an available one.
pub record Fit : Type 0 where
  pub front : List Block
  pub units : ℕ
  pub back : List Block

abbrev pub skip : Block → Option Fit → Option Fit
skip b none = none
skip b (some f) = some (record f { front = b ∷ f.front })

-- First fit: the first available block of `req` units at least.
pub find_fit : ℕ → List Block → Option Fit
find_fit req [] = none
find_fit req (used u ∷ bs) = skip (used u) (find_fit req bs)
find_fit req (avail u ∷ bs) =
    if leb req u
    then some (record { front = []; units = u; back = bs })
    else skip (avail u) (find_fit req bs)

-- The blocks that replace the found one: in use, and what is left over.
abbrev pub carve : ℕ → ℕ → List Block → List Block
carve req u back = if ltb req u then used req ∷ avail (u - req) ∷ back else used u ∷ back

abbrev pub granted : ℕ → Fit → List Block
granted req f = f.front ++ carve req f.units f.back

abbrev pub address : ℕ → Fit → ℕ
address heap f = heap + total f.front * unit_size

-- The request is the payload and its header, rounded up to whole units, for payloads below 4 MiB.
pub bytes_to_units_bounds :
    (size : ℕ)
    → size ≤ 4194232
    → (size + header_size ≤ bytes_to_units size * unit_size)
      × (bytes_to_units size * unit_size < size + header_size + unit_size)
      × (1 ≤ bytes_to_units size)
unfolding bytes_to_units
bytes_to_units_bounds size h = omega arith

claim_before :
    (req : ℕ) (m : Memory) (p : ℕ)
    → 1 ≤ req
    → p + req * unit_size < 2 ^ 32
    → (q : ℕ) → q < p
    → claim req m p q ≡ m q
unfolding claim split_block
claim_before req m p h lim q lt = ground arith

-- The headers that a claim leaves, for a block that is split and for one taken whole.
module _ (req : ℕ) (m : Memory) (p u : ℕ) (h : 1 ≤ req) (lim : p + u * unit_size < 2 ^ 32) where
  claim_split :
      (next : ℕ)
      → req < u
      → Header m p (avail u) next
      → Header (claim req m p) p (used req) (p + req * unit_size)
        × Header (claim req m p) (p + req * unit_size) (avail (u - req)) next
  unfolding claim split_block
  claim_split next lt c = (
    (ground arith, ground arith, ground arith, omega arith),
    (ground arith, ground arith, ground arith, omega arith),
  )

  claim_whole :
      (next : ℕ)
      → ltb req u ≡ false
      → Header m p (avail u) next
      → Header (claim req m p) p (used u) next
  unfolding claim split_block
  claim_whole next ge c = (ground arith, ground arith, ground arith, c.3)

  claim_after : req ≤ u → (m p).units ≡ u → (q : ℕ) → p + u * unit_size ≤ q → claim req m p q ≡ m q
  unfolding claim split_block
  claim_after le eu q lt = ground arith

  claim-Chain :
      (bs : List Block)
      → req ≤ u
      → Chain m p (avail u ∷ bs)
      → Chain (claim req m p) p (carve req u bs)
  claim-Chain bs le c =
      let rest = Chain-frame m (claim req m p) (p + u * unit_size) bs (claim_after le c.0.0) c.1 in
      elim (Bool-cases (ltb req u)) [
        | inl lt ↦
            let heads = claim_split (link (p + u * unit_size) bs) (ground arith) c.0 in
            let e : p + req * unit_size + (u - req) * unit_size ≡ p + u * unit_size =
              ground arith in
            rw (lt, e) (heads.0, (heads.1, rest))
        | inr ge ↦ rw ge (claim_whole (link (p + u * unit_size) bs) ge c.0, rest)
      ]

-- The loop, at the first of the blocks `bs` that are still ahead.
abbrev Loops : ℕ → ℕ → Memory → ℕ → List Block → Option Fit → Type 0
Loops fuel req m p bs none = kmalloc_loop fuel req m (link p bs) ≡ some (m, 0)
Loops fuel req m p bs (some f) =
    kmalloc_loop fuel req m (link p bs)
    ≡ some (claim req m (address p f), (address p f + header_size) % 2 ^ 32)

Loops-skip :
    (fuel req : ℕ) (m : Memory) (p : ℕ) (b : Block) (bs : List Block) (o : Option Fit)
    → kmalloc_loop (suc fuel) req m p ≡ kmalloc_loop fuel req m (link (behind p b) bs)
    → Loops fuel req m (behind p b) bs o
    → Loops (suc fuel) req m p (b ∷ bs) (skip b o)
Loops-skip fuel req m p b bs none e l = e ∙ l
Loops-skip fuel req m p b bs (some f) e l =
    let a : behind p b + total f.front * unit_size ≡ p + (size b + total f.front) * unit_size =
      omega arith in
    rw (← a) (e ∙ l)

kmalloc_loop_lem :
    (fuel req : ℕ) (m : Memory) (p : ℕ) (bs : List Block)
    → 1 ≤ p
    → length bs < fuel
    → Chain m p bs
    → Loops fuel req m p bs (find_fit req bs)
unfolding kmalloc_loop find_fit
kmalloc_loop_lem zero req m p bs np lt c = absurd (omega arith)
kmalloc_loop_lem (suc fuel) req m p [] np lt c = refl
kmalloc_loop_lem (suc fuel) req m p (used u ∷ bs) np lt c =
    Loops-skip fuel req m p (used u) bs (find_fit req bs) (ground arith)
      (kmalloc_loop_lem fuel req m (p + u * unit_size) bs (omega arith) (omega arith) c.1)
kmalloc_loop_lem (suc fuel) req m p (avail u ∷ bs) np lt c = elim (Bool-cases (leb req u)) [
  | inl le ↦ rw (le, add-zero) (ground arith)
  | inr gt ↦ rw gt (
      Loops-skip fuel req m p (avail u) bs (find_fit req bs) (ground arith)
        (kmalloc_loop_lem fuel req m (p + u * unit_size) bs (omega arith) (omega arith) c.1))
]

-- A block that cannot serve a request of `req` units.
abbrev pub Unfit : ℕ → Block → Type 0
Unfit req (used u) = Unit {0}
Unfit req (avail u) = u < req

-- What first fit finds: the list taken apart at a block that serves, with none that does before it.
pub record Finds (req : ℕ) (bs : List Block) (f : Fit) : Type 0 where
  pub splits : bs ≡ f.front ++ avail f.units ∷ f.back
  pub enough : req ≤ f.units
  pub first : All (Unfit req) f.front

abbrev pub Found : ℕ → List Block → Option Fit → Type 0
Found req bs none = All (Unfit req) bs
Found req bs (some f) = Finds req bs f

Found-skip :
    (req : ℕ) (b : Block) (bs : List Block) (o : Option Fit)
    → Unfit req b
    → Found req bs o
    → Found req (b ∷ bs) (skip b o)
Found-skip req b bs none u h = (u, h)
Found-skip req b bs (some f) u h = record {
  splits = ap (λ l. b ∷ l) h.splits;
  enough = h.enough;
  first = (u, h.first);
}

pub find_fit_lem : (req : ℕ) (bs : List Block) → Found req bs (find_fit req bs)
unfolding find_fit
find_fit_lem req [] = tt
find_fit_lem req (used u ∷ bs) =
    Found-skip req (used u) bs (find_fit req bs) tt (find_fit_lem req bs)
find_fit_lem req (avail u ∷ bs) = elim (Bool-cases (leb req u)) [
  | inl le ↦ rw le (record { splits = refl; enough = ground arith; first = tt })
  | inr gt ↦
      rw gt (Found-skip req (avail u) bs (find_fit req bs) (ground arith) (find_fit_lem req bs))
]

total-carve : (req u : ℕ) (back : List Block) → req ≤ u → total (carve req u back) ≡ u + total back
total-carve req u back le = elim (Bool-cases (ltb req u)) [
  | inl lt ↦ rw lt (ground arith)
  | inr ge ↦ rw ge
]

carve-Chain :
    (m : Memory) (p q : ℕ) (xs : List Block) (req u : ℕ) (back : List Block)
    → q ≡ p + total xs * unit_size
    → Front m p xs
    → Chain m q (carve req u back)
    → Chain m p (xs ++ carve req u back)
carve-Chain m p q xs req u back e f c = elim (Bool-cases (ltb req u)) [
  | inl lt ↦ rw lt (Chain-append m p q xs (used req) (avail (u - req) ∷ back) e f (rw lt at c))
  | inr ge ↦ rw ge (Chain-append m p q xs (used u) back e f (rw ge at c))
]

claim-IsHeap :
    (heap req : ℕ) (m : Memory) (bs : List Block) (f : Fit)
    → IsHeap heap m bs
    → 1 ≤ req
    → Finds req bs f
    → IsHeap heap (claim req m (address heap f)) (granted req f)
claim-IsHeap heap req m bs f is pos found =
    let bs' : List Block = f.front ++ avail f.units ∷ f.back in
    let c : Chain m heap bs' = subst (Chain m heap) found.splits is.chain in
    let sum : total bs' ≡ heap_total_units = ap total (sym found.splits) ∙ is.all_units in
    let sizes : total bs' ≡ total f.front + (f.units + total f.back) =
      total-append f.front (avail f.units ∷ f.back) in
    let q : ℕ = address heap f in
    let lim : q + f.units * unit_size < 2 ^ 32 = omega (arith, is.in_memory) in
    record {
      chain =
          carve-Chain (claim req m q) heap q f.front req f.units f.back refl
            (Front-frame m (claim req m q) heap f.front
              (claim_before req m q pos (omega (arith, found.enough)))
              (Chain-Front m heap f.front (avail f.units) f.back c))
            (claim-Chain req m q f.units pos lim f.back found.enough
              (Chain-back m heap q f.front (avail f.units) f.back refl c));
      all_units = omega (
        arith,
        total-append f.front (carve req f.units f.back),
        total-carve req f.units f.back found.enough,
      );
      not_null = is.not_null;
      in_memory = is.in_memory;
    }

-- What `kmalloc` answers, by what first fit finds.
abbrev pub Allocates : ℕ → Memory → ℕ → List Block → Option Fit → Type 0
Allocates heap m size bs none = kmalloc heap m size ≡ some (m, 0)
Allocates heap m size bs (some f) =
    (m' : Memory) × (kmalloc heap m size ≡ some (m', address heap f + header_size))
    × IsHeap heap m' (granted (bytes_to_units size) f)

kmalloc-Found :
    (heap req : ℕ) (m : Memory) (bs : List Block) (size : ℕ) (o : Option Fit)
    → IsHeap heap m bs
    → 1 ≤ size
    → req ≡ bytes_to_units size
    → 1 ≤ req
    → Found req bs o
    → Loops heap_fuel req m heap bs o
    → link heap bs ≡ heap
    → Allocates heap m size bs o
unfolding kmalloc
kmalloc-Found heap req m bs size none is pos e one found l at_heap =
    rw (==_ne size 0 (omega arith), ← e, ← at_heap) l
kmalloc-Found heap req m bs size (some f) is pos e one found l at_heap =
    let sizes = ap total found.splits ∙ total-append f.front (avail f.units ∷ f.back) in
    let a : (address heap f + header_size) % 2 ^ 32 ≡ address heap f + header_size =
      omega (arith, is.all_units, is.in_memory, found.enough) in
    let m' = claim req m (address heap f) in
    let run = ap (kmalloc_loop heap_fuel req m) (sym at_heap) ∙ l ∙ ap (λ n. some (m', n)) a in
    (
      claim req m (address heap f),
      rw (==_ne size 0 (omega arith), ← e) run,
      rw (← e) (claim-IsHeap heap req m bs f is one found),
    )

-- `kmalloc` is first fit. Of a request of 1 to 4194232 bytes on a well-formed heap it ends; where
-- first fit finds no block it stores null and changes nothing, and else it stores the address behind
-- the found block's header and leaves a well-formed heap with that block cut and in use.
pub kmalloc_refines :
    (heap : ℕ) (m : Memory) (bs : List Block) (size : ℕ)
    → IsHeap heap m bs
    → 1 ≤ size
    → size ≤ 4194232
    → Allocates heap m size bs (find_fit (bytes_to_units size) bs)
kmalloc_refines heap m [] size is pos small = absurd (omega (arith, is.all_units))
kmalloc_refines heap m (b ∷ bs) size is pos small =
    let req = bytes_to_units size in
    let one = bytes_to_units_bounds size small in
    kmalloc-Found heap req m (b ∷ bs) size (find_fit req (b ∷ bs)) is pos refl one.2
      (find_fit_lem req (b ∷ bs))
      (kmalloc_loop_lem heap_fuel req m heap (b ∷ bs) is.not_null
        (omega (arith, length-le-total m heap (b ∷ bs) is.chain, is.all_units)) is.chain)
      refl
