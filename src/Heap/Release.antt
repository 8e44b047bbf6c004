-- ===== src/Heap/Release.antt =====
-- `kfree` of bees/memory/memory.c on the list of blocks: the released block joins an available
-- neighbour on either side.
use hive_rk.Prelude.{ℕ, zero, suc, ◌+◌, ◌-◌, ◌*◌, ◌≤◌, ◌<◌, ◌≡◌, refl, ◌^◌, ◌%◌, ◌==◌}
use hive_rk.Prelude.{List, [], ◌∷◌, ◌++◌, arith, some, store, store_ne, length, ◌∙◌}
use hive_rk.Prelude.{ap, sym, subst, false, ==_ne}
use hive_rk.Heap.{Memory, unit_size, header_size, heap_fuel}
use hive_rk.Heap.{done, merge_next, walk, merge_last, finish, kfree_within, kfree}
use hive_rk.Heap.Blocks.{Block, used, avail, total, behind, Header, link, Chain, Front}
use hive_rk.Heap.Blocks.{IsHeap, Chain-frame, Front-frame, Chain-append, Chain-Front, Chain-back}
use hive_rk.Heap.Blocks.{length-Front, total-append}

-- An available block of `u` units behind `front`, joined to the last block there if that is available.
unfoldable pub attach : List Block → ℕ → List Block → List Block
attach [] u bs = avail u ∷ bs
attach (used v ∷ []) u bs = used v ∷ avail u ∷ bs
attach (avail v ∷ []) u bs = avail (v + u) ∷ bs
attach (b ∷ c ∷ front) u bs = b ∷ attach (c ∷ front) u bs

-- The released block joined to an available block behind it: its size, and what is left behind.
abbrev pub grown : ℕ → List Block → ℕ
grown u [] = u
grown u (used v ∷ bs) = u
grown u (avail v ∷ bs) = u + v

abbrev pub rest : List Block → List Block
rest [] = []
rest (used v ∷ bs) = used v ∷ bs
rest (avail v ∷ bs) = bs

abbrev pub released : List Block → ℕ → List Block → List Block
released front u back = attach front (grown u back) (rest back)

merge_next_ne : (m : Memory) (p q : ℕ) → ¬ (p ≡ q) → merge_next m p q ≡ m q
unfolding merge_next
merge_next_ne m p q ne = ground arith

merge_next_end : (m : Memory) (p : ℕ) → (m p).next ≡ 0 → merge_next m p ≡ m
unfolding merge_next
merge_next_end m p e = ground arith

merge_next_used : (m : Memory) (p : ℕ) → (m (m p).next).free ≡ 0 → merge_next m p ≡ m
unfolding merge_next
merge_next_used m p e = ground arith

merge_next_avail :
    (m : Memory) (p u v next : ℕ)
    → 1 ≤ u
    → u + v < 2 ^ 16
    → Header m p (avail u) (p + u * unit_size)
    → Header m (p + u * unit_size) (avail v) next
    → Header (merge_next m p) p (avail (u + v)) next
unfolding merge_next
merge_next_avail m p u v next pos lim c d =
    let e : ((m p).next == 0) ≡ false = ground arith in
    let f : ((m (m p).next).free == 0) ≡ false = ground (arith, ap (λ n. (m n).free) c.2) in
    let g : ((m p).next == p) ≡ false = ground arith in
    let n : (m (m p).next).next ≡ next = ap (λ n. (m n).next) c.2 ∙ d.2 in
    let w : (m (m p).next).units ≡ v = ap (λ n. (m n).units) c.2 ∙ d.0 in
    (ground arith, ground arith, ground arith, omega arith)

merge_next-Chain :
    (m : Memory) (p u : ℕ) (back : List Block)
    → 1 ≤ u
    → u + total back < 2 ^ 16
    → Chain m p (avail u ∷ back)
    → Chain (merge_next m p) p (avail (grown u back) ∷ rest back)
merge_next-Chain m p u [] pos lim c = rw (merge_next_end m p c.0.2) c
merge_next-Chain m p u (used v ∷ bs) pos lim c =
    subst (λ n. Chain n p (avail u ∷ used v ∷ bs))
      (sym (merge_next_used m p (ap (λ n. (m n).free) c.0.2 ∙ c.1.0.1))) c
merge_next-Chain m p u (avail v ∷ bs) pos lim c =
    let q : ℕ = p + u * unit_size in
    let e : p + u * unit_size + v * unit_size ≡ p + (u + v) * unit_size = omega arith in
    let c' = rw e at c in
    (
      merge_next_avail m p u v (link (p + (u + v) * unit_size) bs) pos (omega arith) c'.0 c'.1.0,
      Chain-frame m (merge_next m p) (p + (u + v) * unit_size) bs
          (λ r h. merge_next_ne m p r (omega arith)) c'.1.1,
    )

-- The block in front of the one that the walk looks for.
abbrev last_of : ℕ → List Block → ℕ → ℕ
last_of p [] last = last
last_of p (b ∷ bs) last = last_of (behind p b) bs p

walk_lem :
    (fuel : ℕ) (m : Memory) (p : ℕ) (front : List Block) (last block : ℕ)
    → length front < fuel
    → block ≡ p + total front * unit_size
    → Front m p front
    → walk fuel m block last p ≡ some (last_of p front last)
unfolding walk
walk_lem zero m p front last block lt e f = absurd (omega arith)
walk_lem (suc fuel) m p [] last block lt e f = let e' : p ≡ block = omega arith in ground arith
walk_lem (suc fuel) m p (b ∷ bs) last block lt e f =
    let ne = ==_ne p block (omega arith) in
    let ih = walk_lem fuel m (behind p b) bs p block (omega arith) (omega arith) f.1 in
    rw (ne, f.0.2) ih

le-last_of :
    (m : Memory) (p last : ℕ) (bs : List Block) → Front m p bs → last ≤ p → last ≤ last_of p bs last
le-last_of m p last [] f le = omega arith
le-last_of m p last (b ∷ bs) f le = omega (arith, le-last_of m (behind p b) p bs f.1 (omega arith))

merge_last_ne : (m : Memory) (q last r : ℕ) → ¬ (last ≡ r) → merge_last m q last r ≡ m r
unfolding merge_last
merge_last_ne m q last r ne = ground arith

merge_last_used : (m : Memory) (q last : ℕ) → (m last).free ≡ 0 → merge_last m q last ≡ m
unfolding merge_last
merge_last_used m q last e = ground arith

merge_last_avail :
    (m : Memory) (p q v u next : ℕ)
    → 1 ≤ p
    → v + u < 2 ^ 16
    → Header m p (avail v) (p + v * unit_size)
    → Header m q (avail u) next
    → Header (merge_last m q p) p (avail (v + u)) next
unfolding merge_last
merge_last_avail m p q v u next np lim c d =
    let e : (p == 0) ≡ false = ground arith in
    let f : ((m p).free == 0) ≡ false = ground arith in
    (ground arith, ground arith, ground arith, omega arith)

link-attach :
    (p : ℕ) (d : Block) (front : List Block) (u : ℕ) (bs : List Block)
    → link p (attach (d ∷ front) u bs) ≡ p
unfolding attach
link-attach p (used v) [] u bs = refl
link-attach p (avail v) [] u bs = refl
link-attach p d (c ∷ front) u bs = refl

merge_last-Chain :
    (m : Memory) (p q : ℕ) (front : List Block) (u : ℕ) (bs : List Block)
    → 1 ≤ p
    → q ≡ p + total front * unit_size
    → total front + u < 2 ^ 16
    → Front m p front
    → Chain m q (avail u ∷ bs)
    → Chain (merge_last m q (last_of p front 0)) p (attach front u bs)
unfolding merge_last attach
merge_last-Chain m p q [] u bs np e lim f c = rw (← start) c
  where
    start : q ≡ p
    start = omega arith
merge_last-Chain m p q (used v ∷ []) u bs np e lim f c =
    subst (λ n. Chain n p (used v ∷ avail u ∷ bs)) (sym (merge_last_used m q p f.0.1))
      (Chain-append m p q (used v ∷ []) (avail u) bs e f c)
merge_last-Chain m p q (avail v ∷ []) u bs np e lim f c =
    let e1 : q ≡ p + v * unit_size = omega arith in
    let e2 : q + u * unit_size ≡ p + (v + u) * unit_size = omega arith in
    let c' = rw e2 at c in
    (
      merge_last_avail m p q v u (link (p + (v + u) * unit_size) bs) np (omega arith) f.0 c'.0,
      Chain-frame m (merge_last m q p) (p + (v + u) * unit_size) bs
          (λ r h. merge_last_ne m q p r (omega arith)) c'.1,
    )
merge_last-Chain m p q (b ∷ d ∷ front) u bs np e lim f c =
    let last = last_of (behind (behind p b) d) front (behind p b) in
    let ih =
      merge_last-Chain m (behind p b) q (d ∷ front) u bs (omega arith) (omega arith) (omega arith)
        f.1 c in
    let le : behind p b ≤ last =
      le-last_of m (behind (behind p b) d) (behind p b) front f.1.1 (omega arith) in
    let same = merge_last_ne m q last p (omega arith) in
    (
      (
        ap (λ h. h.units) same ∙ f.0.0,
        ap (λ h. h.free) same ∙ f.0.1,
        ap (λ h. h.next) same ∙ f.0.2 ∙ sym (link-attach (behind p b) d front u bs),
        f.0.3,
      ),
      ih,
    )

total-attach :
    (front : List Block) (u : ℕ) (bs : List Block)
    → total (attach front u bs) ≡ total front + u + total bs
unfolding attach
total-attach [] u bs = omega arith
total-attach (used v ∷ []) u bs = omega arith
total-attach (avail v ∷ []) u bs = omega arith
total-attach (b ∷ c ∷ front) u bs = omega (arith, total-attach (c ∷ front) u bs)

total-grown : (u : ℕ) (back : List Block) → grown u back + total (rest back) ≡ u + total back
total-grown u [] = omega arith
total-grown u (used v ∷ bs) = omega arith
total-grown u (avail v ∷ bs) = omega arith

-- The memory when `kfree` has marked the block free.
abbrev marked : Memory → ℕ → Memory
marked m block = store m block (record (m block) { free = 1 })

marked-Chain :
    (m : Memory) (p u : ℕ) (bs : List Block)
    → Chain m p (used u ∷ bs)
    → Chain (marked m p) p (avail u ∷ bs)
marked-Chain m p u bs c = (
  (ground arith, ground arith, ground arith, c.0.3),
  Chain-frame m (marked m p) (p + u * unit_size) bs (λ q h. ground (arith, c.0.3)) c.1,
)

abbrev freed : Memory → ℕ → Memory
freed m block = merge_next (marked m block) block

freed_ne : (m : Memory) (p q : ℕ) → ¬ (p ≡ q) → freed m p q ≡ m q
freed_ne m p q ne = merge_next_ne (marked m p) p q ne ∙ store_ne m p q _ ne

kfree_run :
    (fuel heap : ℕ) (m : Memory) (q last : ℕ)
    → q + header_size < 2 ^ 32
    → (m q).free ≡ 0
    → walk fuel (freed m q) q 0 heap ≡ some last
    → kfree_within fuel heap m (q + header_size) ≡ done (merge_last (freed m q) q last)
unfolding kfree_within finish
kfree_run fuel heap m q last lim in_use w =
    let e : (q + header_size + 2 ^ 32 - header_size) % 2 ^ 32 ≡ q = omega arith in
    rw (==_ne (q + header_size) 0 (omega arith), e, in_use, w)

-- `kfree` of the payload of a block in use on a well-formed heap ends: it does not hang, and its
-- walk arrives. The heap it leaves is well formed, and its blocks are the old ones with the block
-- available and joined to an available neighbour on each side.
pub kfree_refines :
    (heap : ℕ) (m : Memory) (front : List Block) (u : ℕ) (back : List Block)
    → IsHeap heap m (front ++ used u ∷ back)
    → (m' : Memory) × (kfree heap m (heap + total front * unit_size + header_size) ≡ done m')
      × IsHeap heap m' (released front u back)
unfolding kfree
kfree_refines heap m front u back is =
    let q : ℕ = heap + total front * unit_size in
    let sum = total-append front (used u ∷ back) in
    let f : Front (freed m q) heap front =
      Front-frame m (freed m q) heap front (λ r h. freed_ne m q r (omega arith))
        (Chain-Front m heap front (used u) back is.chain) in
    let c : Chain m q (used u ∷ back) = Chain-back m heap q front (used u) back refl is.chain in
    let c2 =
      merge_next-Chain (marked m q) q u back c.0.3 (omega (arith, is.all_units))
        (marked-Chain m q u back c) in
    let last = last_of heap front 0 in
    let bound = length-Front (freed m q) heap front f in
    let w = walk_lem heap_fuel (freed m q) heap front 0 q (omega (arith, is.all_units)) refl f in
    (
      merge_last (freed m q) q last,
      kfree_run heap_fuel heap m q last (omega (arith, is.all_units, is.in_memory)) c.0.1 w,
      record {
        chain =
            merge_last-Chain (freed m q) heap q front (grown u back) (rest back) is.not_null refl
              (omega (arith, is.all_units, total-grown u back)) f c2;
        all_units = omega (
          arith,
          is.all_units,
          total-attach front (grown u back) (rest back),
          total-grown u back,
        );
        not_null = is.not_null;
        in_memory = is.in_memory;
      },
    )
