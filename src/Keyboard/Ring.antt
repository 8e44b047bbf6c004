-- ===== src/Keyboard/Ring.antt =====
-- The ring of bees/keyboard/keyboard.c as a queue of pending events.
use hive_rk.Prelude.{ℕ, zero, suc, ◌+◌, ◌-◌, ◌%◌, ◌<◌, ◌≡◌, ◌≢◌, refl, arith, ◌==◌, ap}
use hive_rk.Prelude.{List, [], ◌∷◌, ◌++◌, length, store, ==_ne, ==_refl, false}
use hive_rk.Keyboard.{GlobalData, enqueue, init, get_key, is_there_data}

-- `n` cells from `t` on, round the ring.
abbrev pub cells : (ℕ → ℕ) → ℕ → ℕ → List ℕ
cells buf t zero = []
cells buf t (suc n) = buf t ∷ cells buf ((t + 1) % 64) n

abbrev pub count : GlobalData → ℕ
count g = (g.head + 64 - g.tail) % 64

-- The events that wait to be read, the oldest first.
abbrev pub pending : GlobalData → List ℕ
pending g = cells g.buffer g.tail (count g)

-- Both indices lie in the buffer.
pub record IsRing (g : GlobalData) : Type 0 where
  pub head_in : g.head < 64
  pub tail_in : g.tail < 64

length-cells : (buf : ℕ → ℕ) (t n : ℕ) → length (cells buf t n) ≡ n
length-cells buf t zero = refl
length-cells buf t (suc n) = ap suc (length-cells buf ((t + 1) % 64) n)

pub length-pending : (g : GlobalData) → length (pending g) ≡ count g
length-pending g = length-cells g.buffer g.tail (count g)

pub init-IsRing : (g : GlobalData) → IsRing (init g) × (pending (init g) ≡ [])
unfolding init
init-IsRing g = (omega arith, refl)

-- A cell outside the window can be written, and written just behind the window it joins it.
cells-store :
    (buf : ℕ → ℕ) (t n i key : ℕ)
    → t < 64
    → n < 64
    → i ≡ (t + n) % 64
    → cells (store buf i key) t (suc n) ≡ cells buf t n ++ key ∷ []
cells-store buf t zero i key ht hn e = let e' : i ≡ t = omega arith in rw (e', ==_refl)
cells-store buf t (suc n) i key ht hn e =
    let ne : (i == t) ≡ false = ==_ne i t (omega arith) in
    rw ne (
      ap (λ l. buf t ∷ l)
        (cells-store buf ((t + 1) % 64) n i key (omega arith) (omega arith) (omega arith)))

-- With fewer than 63 events pending the handler's store appends its event to the queue.
pub enqueue_appends :
    (key : ℕ) (g : GlobalData)
    → IsRing g
    → length (pending g) < 63
    → IsRing (enqueue key g) × (pending (enqueue key g) ≡ pending g ++ key ∷ [])
unfolding enqueue
enqueue_appends key g r lt =
    let room = length-pending g in
    let c : ((g.head + 1) % 64 + 64 - g.tail) % 64 ≡ suc (count g) = omega (arith, r.head_in) in
    let h : g.head ≡ (g.tail + count g) % 64 = omega (arith, r.head_in) in
    (omega arith, rw c (cells-store g.buffer g.tail (count g) g.head key r.tail_in (omega arith) h))

-- With 63 events pending the store makes the ring look empty: all 64 events are lost.
pub enqueue_overflows :
    (key : ℕ) (g : GlobalData)
    → IsRing g
    → length (pending g) ≡ 63
    → IsRing (enqueue key g) × (pending (enqueue key g) ≡ [])
unfolding enqueue
enqueue_overflows key g r full =
    let room = length-pending g in
    let c : ((g.head + 1) % 64 + 64 - g.tail) % 64 ≡ 0 = omega (arith, r.head_in) in
    (omega arith, rw c)

-- What `get_key` stores and leaves, and what `is_there_data` stores, by the queue.
abbrev pub Takes : GlobalData → List ℕ → Type 0
Takes g [] = ((get_key g).0 ≡ 0) × (pending (get_key g).1 ≡ []) × (is_there_data g ≡ 0)
Takes g (key ∷ keys) =
    ((get_key g).0 ≡ key) × (pending (get_key g).1 ≡ keys) × (is_there_data g ≡ 1)

Takes-empty : (g : GlobalData) → g.head ≡ g.tail → pending g ≡ [] → Takes g []
unfolding get_key is_there_data
Takes-empty g e p = ground arith

Takes-first :
    (g : GlobalData) (n : ℕ)
    → g.head ≢ g.tail
    → (g.head + 64 - (g.tail + 1) % 64) % 64 ≡ n
    → Takes g (cells g.buffer g.tail (suc n))
unfolding get_key is_there_data
Takes-first g n ne e = rw (==_ne g.head g.tail ne, e) (refl, refl, refl)

Takes-count : (g : GlobalData) (n : ℕ) → IsRing g → count g ≡ n → Takes g (cells g.buffer g.tail n)
Takes-count g zero r e = Takes-empty g (omega (arith, r.head_in)) (rw e)
Takes-count g (suc n) r e = Takes-first g n (omega (arith, r.head_in)) (omega (arith, r.head_in))

get_key-IsRing : (g : GlobalData) → IsRing g → IsRing (get_key g).1
unfolding get_key
get_key-IsRing g r = ground arith

-- `get_key` stores the oldest pending event and takes it out, `is_there_data` stores 1; with none
-- pending both store 0 and nothing changes in the queue.
pub get_key-Takes : (g : GlobalData) → IsRing g → IsRing (get_key g).1 × Takes g (pending g)
get_key-Takes g r = (get_key-IsRing g r, Takes-count g (count g) r refl)
