-- ===== src/Heap/Blocks.antt =====
-- The list of blocks that the headers of bees/memory/memory.c spell out, and how it survives writes.
use hive_rk.Prelude.{ℕ, ◌+◌, ◌*◌, ◌≤◌, ◌<◌, ◌≡◌, ◌^◌, List, [], ◌∷◌, ◌++◌, arith, length}
use hive_rk.Heap.{Memory, unit_size, heap_total_units}

-- A block of so many units, in use or available.
pub data Block : Type 0 where
  used : ℕ → Block
  avail : ℕ → Block

abbrev pub size : Block → ℕ
size (used u) = u
size (avail u) = u

abbrev pub flag : Block → ℕ
flag (used u) = 0
flag (avail u) = 1

abbrev pub total : List Block → ℕ
total [] = 0
total (b ∷ bs) = size b + total bs

-- The address behind a block at `p`.
abbrev pub behind : ℕ → Block → ℕ
behind p b = p + size b * unit_size

abbrev pub Header : Memory → ℕ → Block → ℕ → Type 0
Header m p b next =
    ((m p).units ≡ size b) × ((m p).free ≡ flag b) × ((m p).next ≡ next) × (1 ≤ size b)

-- The pointer to blocks that begin at `p`: null if there are none.
abbrev pub link : ℕ → List Block → ℕ
link p [] = 0
link p (b ∷ bs) = p

-- From `p` on the headers spell out the blocks, one behind the other, and the last has no successor.
abbrev pub Chain : Memory → ℕ → List Block → Type 0
Chain m p [] = Unit {0}
Chain m p (b ∷ bs) = Header m p b (link (behind p b) bs) × Chain m (behind p b) bs

-- The same for the front of a list: each block points behind itself.
abbrev pub Front : Memory → ℕ → List Block → Type 0
Front m p [] = Unit {0}
Front m p (b ∷ bs) = Header m p b (behind p b) × Front m (behind p b) bs

-- A heap at address `heap`: its blocks make up the region, and no address of it wraps.
pub record IsHeap (heap : ℕ) (m : Memory) (bs : List Block) : Type 0 where
  pub chain : Chain m heap bs
  pub all_units : total bs ≡ heap_total_units
  pub not_null : 1 ≤ heap
  pub in_memory : heap + heap_total_units * unit_size < 2 ^ 32

pub total-append : (xs ys : List Block) → total (xs ++ ys) ≡ total xs + total ys
total-append [] ys = omega arith
total-append (x ∷ xs) ys = omega (arith, total-append xs ys)

pub length-le-total : (m : Memory) (p : ℕ) (bs : List Block) → Chain m p bs → length bs ≤ total bs
length-le-total m p [] c = omega arith
length-le-total m p (b ∷ bs) c = omega (arith, length-le-total m (behind p b) bs c.1)

pub length-Front : (m : Memory) (p : ℕ) (bs : List Block) → Front m p bs → length bs ≤ total bs
length-Front m p [] c = omega arith
length-Front m p (b ∷ bs) c = omega (arith, length-Front m (behind p b) bs c.1)

-- A chain does not notice what is written in front of it.
pub Chain-frame :
    (m m' : Memory) (p : ℕ) (bs : List Block)
    → ((q : ℕ) → p ≤ q → m' q ≡ m q)
    → Chain m p bs
    → Chain m' p bs
Chain-frame m m' p [] same c = tt
Chain-frame m m' p (b ∷ bs) same c = (
  (ground (arith, same p), ground (arith, same p), ground (arith, same p), c.0.3),
  Chain-frame m m' (behind p b) bs (λ q h. same q (omega arith)) c.1,
)

-- Nor does a front notice what is written behind it.
pub Front-frame :
    (m m' : Memory) (p : ℕ) (bs : List Block)
    → ((q : ℕ) → q < p + total bs * unit_size → m' q ≡ m q)
    → Front m p bs
    → Front m' p bs
Front-frame m m' p [] same c = tt
Front-frame m m' p (b ∷ bs) same c =
    let e = same p (omega arith) in
    (
      (ground arith, ground arith, ground arith, c.0.3),
      Front-frame m m' (behind p b) bs (λ q h. same q (omega arith)) c.1,
    )

-- A front and a chain behind it make a chain, and a chain is cut in two anywhere before a block.
pub Chain-append :
    (m : Memory) (p q : ℕ) (xs : List Block) (b : Block) (ys : List Block)
    → q ≡ p + total xs * unit_size
    → Front m p xs
    → Chain m q (b ∷ ys)
    → Chain m p (xs ++ b ∷ ys)
Chain-append m p q [] b ys e f c = let e' : q ≡ p = omega arith in ground (arith, e', c)
Chain-append m p q (x ∷ []) b ys e f c =
    (f.0, Chain-append m (behind p x) q [] b ys (omega arith) f.1 c)
Chain-append m p q (x ∷ z ∷ xs) b ys e f c =
    (f.0, Chain-append m (behind p x) q (z ∷ xs) b ys (omega arith) f.1 c)

pub Chain-Front :
    (m : Memory) (p : ℕ) (xs : List Block) (b : Block) (ys : List Block)
    → Chain m p (xs ++ b ∷ ys)
    → Front m p xs
Chain-Front m p [] b ys c = tt
Chain-Front m p (x ∷ []) b ys c = (c.0, tt)
Chain-Front m p (x ∷ z ∷ xs) b ys c = (c.0, Chain-Front m (behind p x) (z ∷ xs) b ys c.1)

pub Chain-back :
    (m : Memory) (p q : ℕ) (xs : List Block) (b : Block) (ys : List Block)
    → q ≡ p + total xs * unit_size
    → Chain m p (xs ++ b ∷ ys)
    → Chain m q (b ∷ ys)
Chain-back m p q [] b ys e c = let e' : q ≡ p = omega arith in ground (arith, e', c)
Chain-back m p q (x ∷ xs) b ys e c = Chain-back m (behind p x) q xs b ys (omega arith) c.1
