-- ===== src/Names/Add.antt =====
-- `addNameToPage` of queen/main.c: it adds a name behind those that the pages list.
use hive_rk.Prelude.{ℕ, zero, suc, ◌+◌, ◌-◌, ◌%◌, ◌^◌, ◌≤◌, ◌<◌, ◌≡◌, ◌≢◌, refl, sym, ◌∙◌, arith}
use hive_rk.Prelude.{ap, ◌==◌, ltb, some, true, false, store}
use hive_rk.Prelude.{Bool-cases, inl, inr, List, [], ◌∷◌, ◌++◌, length, subst}
use hive_rk.Names.{BeeName, Page, Names, copy_name, terminate, set_entry, extend, add_from}
use hive_rk.Names.{add_name_to_page}
use hive_rk.Names.Chain.{IsEntry, Lists}

copy_name_keeps : (n i k : ℕ) (from to : ℕ → ℕ) → k < i → copy_name n i from to k ≡ to k
unfolding copy_name
copy_name_keeps zero i k from to lt = refl
copy_name_keeps (suc n) i k from to lt =
    copy_name_keeps n (i + 1) k from (store to i (from i)) (omega arith) ∙ ground arith

pub copy_name_lem :
    (n i k : ℕ) (from to : ℕ → ℕ) → i ≤ k → k < i + n → copy_name n i from to k ≡ from k
unfolding copy_name
copy_name_lem zero i k from to le lt = absurd (omega arith)
copy_name_lem (suc n) i k from to le lt = elim (Bool-cases (i == k)) [
  | inl e ↦ copy_name_keeps n (i + 1) k from (store to i (from i)) (ground arith) ∙ ground arith
  | inr ne ↦ copy_name_lem n (i + 1) k from (store to i (from i)) (ground arith) (omega arith)
]

module _ (y : BeeName) (some_name : y.name 0 ≢ 0) where
  -- What a write at an entry does to the page: the entry, the end behind it, and those in front.
  set_entry-IsEntry : (i : ℕ) (page : Page) → IsEntry y ((set_entry i y page).names i)
  unfolding set_entry terminate
  set_entry-IsEntry i page =
      let t : (i + 1 == i) ≡ false = ground arith in
      let self : (i == i) ≡ true = ground arith in
      elim (Bool-cases (ltb (i + 1) 14)) [
        | inl e ↦
            rw (e, t, self)
              (
                (λ k lt.
                    copy_name_lem 32 0 k y.name (page.names i).name (omega arith) (omega arith)),
                refl,
                some_name,
              )
        | inr e ↦
            rw (e, self)
              (
                (λ k lt.
                    copy_name_lem 32 0 k y.name (page.names i).name (omega arith) (omega arith)),
                refl,
                some_name,
              )
      ]

  set_entry_end : (i : ℕ) (page : Page) → i < 13 → ((set_entry i y page).names (i + 1)).name 0 ≡ 0
  unfolding set_entry terminate
  set_entry_end i page lt =
      let e : ltb (i + 1) 14 ≡ true = ground arith in
      let self : (i + 1 == i + 1) ≡ true = ground arith in rw (e, self) refl

  set_entry_keeps : (i k : ℕ) (page : Page) → k < i → (set_entry i y page).names k ≡ page.names k
  unfolding set_entry terminate
  set_entry_keeps i k page lt =
      let t : (i + 1 == k) ≡ false = ground arith in
      let u : (i == k) ≡ false = ground arith in
      elim (Bool-cases (ltb (i + 1) 14)) [ inl e ↦ rw (e, t, u) refl | inr e ↦ rw (e, u) refl ]

  set_entry_next : (i : ℕ) (page : Page) → (set_entry i y page).next_page ≡ page.next_page
  unfolding set_entry
  set_entry_next i page = refl

  -- The write on the last page.
  pub set_entry-Lists :
      (i cur top : ℕ) (pages : ℕ → Page)
      → i < 14
      → (pages cur).next_page ≡ 0
      → cur < top
      → Lists (store pages cur (set_entry i y (pages cur))) top cur i (y ∷ [])
  set_entry-Lists i cur top pages lt last below =
      let self : (cur == cur) ≡ true = ground arith in
      let e = set_entry-IsEntry i (pages cur) in
      let next = set_entry_next i (pages cur) in
      elim (Bool-cases (i == 13)) [
        | inl t ↦ rw (self, t, next) (e, (last, below))
        | inr t ↦ rw (self, t, next) (e, (set_entry_end i (pages cur) (ground arith), last, below))
      ]

  -- What adding a name at a place on a page leaves alone.
  record Added (s s' : Names) (cur i : ℕ) (xs : List BeeName) : Type 0 where
    lists : Lists s'.pages s'.memory cur i xs
    above : s.memory ≤ s'.memory
    most : s'.memory ≤ s.memory + 512
    below : (r : ℕ) → r < cur → s'.pages r ≡ s.pages r
    front : (k : ℕ) → k < i → (s'.pages cur).names k ≡ (s.pages cur).names k

  write_lem :
      (fuel i cur : ℕ) (s : Names)
      → i < 14
      → (s.pages cur).next_page ≡ 0
      → cur < s.memory
      → (s' : Names) × (add_from (suc fuel) cur i y s ≡ some s')
        × Added s s' cur i (y ∷ [])
        × (s'.memory ≡ s.memory)
  unfolding add_from
  write_lem fuel i cur s lt last below =
      let t : ltb 13 i ≡ false = ground arith in
      let self : (cur == cur) ≡ true = ground arith in
      (
        record s { pages = store s.pages cur (set_entry i y (s.pages cur)) },
        rw t refl,
        record {
          lists = set_entry-Lists i cur s.memory s.pages lt last below;
          above = omega arith;
          most = omega arith;
          below = λ r lt'. let u : (cur == r) ≡ false = ground arith in rw u refl;
          front = λ k lt'. rw self (set_entry_keeps i k (s.pages cur) lt');
        },
        refl,
      )

-- What a new page leaves.
record Extended (s s' : Names) (cur : ℕ) : Type 0 where
  linked : (s'.pages cur).next_page ≡ s.memory
  fresh : (s'.pages s.memory).next_page ≡ 0
  moved : s'.memory ≡ s.memory + 512
  same : (k : ℕ) → (s'.pages cur).names k ≡ (s.pages cur).names k
  below : (r : ℕ) → r < cur → s'.pages r ≡ s.pages r

extend-Extended :
    (cur : ℕ) (s : Names)
    → (s.pages cur).next_page ≡ 0
    → cur < s.memory
    → s.memory + 512 < 2 ^ 32
    → Extended s (extend cur s) cur
unfolding extend
extend-Extended cur s last below room =
    let self : (cur == cur) ≡ true = ground arith in
    let self' : (s.memory == s.memory) ≡ true = ground arith in
    let t : (s.memory == cur) ≡ false = ground arith in
    let m : (s.memory + 512) % 2 ^ 32 ≡ s.memory + 512 = omega arith in
    record {
      linked = rw (last, self, t) refl;
      fresh = rw (last, self') refl;
      moved = rw last m;
      same = λ k. rw (last, self, t) refl;
      below = λ r lt.
          let u : (s.memory == r) ≡ false = ground arith in
          let v : (cur == r) ≡ false = ground arith in rw (last, u, v) refl;
    }

extend_linked : (cur : ℕ) (s : Names) → (s.pages cur).next_page ≢ 0 → extend cur s ≡ s
unfolding extend
extend_linked cur s ne = let t : ((s.pages cur).next_page == 0) ≡ false = ground arith in rw t refl

module _ (y : BeeName) (some_name : y.name 0 ≢ 0) where
  -- The name is the first of a new page.
  open_page :
      (x : BeeName) (fuel cur : ℕ) (s : Names)
      → s.memory + 512 < 2 ^ 32
      → Lists s.pages s.memory cur 13 (x ∷ [])
      → (s' : Names) × (add_from (suc (suc fuel)) cur 14 y s ≡ some s')
        × Added y some_name s s' cur 13 (x ∷ y ∷ [])
  unfolding add_from
  open_page x fuel cur s room (entry, (last, below)) =
      let e = extend-Extended cur s last below room in
      let longer = extend cur s in
      let (s', runs, added, stays) =
        write_lem y some_name fuel 0 s.memory longer (omega arith) e.fresh
          (omega (arith, e.moved)) in
      let at : s'.pages cur ≡ longer.pages cur = added.below cur below in
      let keeps : (s'.pages cur).names 13 ≡ (s.pages cur).names 13 =
        ap (λ (p : Page). p.names 13) at ∙ e.same 13 in
      let next : (s'.pages cur).next_page ≡ s.memory =
        ap (λ (p : Page). p.next_page) at ∙ e.linked in
      (
        s',
        rw e.linked runs,
        record {
          lists = (
            subst (IsEntry x) (sym keeps) entry,
            rw next (below, omega (arith, e.moved, added.above), added.lists),
          );
          above = omega (arith, e.moved, added.above);
          most = omega (arith, e.moved, stays);
          below = λ r lt. added.below r (omega arith) ∙ e.below r lt;
          front = λ k lt. ap (λ (p : Page). p.names k) at ∙ e.same k;
        },
      )

  -- The name is added from the next page on.
  turn_page :
      (x x' : BeeName) (xs : List BeeName) (fuel cur next : ℕ) (s s' : Names)
      → (s.pages cur).next_page ≡ next
      → Lists s.pages s.memory cur 13 (x ∷ x' ∷ xs)
      → add_from fuel next (length (x' ∷ xs)) y s ≡ some s'
      → Added y some_name s s' next 0 (x' ∷ xs ++ y ∷ [])
      → (add_from (suc fuel) cur (13 + length (x ∷ x' ∷ xs)) y s ≡ some s')
        × Added y some_name s s' cur 13 (x ∷ x' ∷ xs ++ y ∷ [])
  unfolding add_from
  turn_page x x' xs fuel cur next s s' e (entry, (up, low, rest)) runs added =
      let same = extend_linked cur s (omega arith) in
      let t : ltb 13 (13 + length (x ∷ x' ∷ xs)) ≡ true = ground arith in
      let n : 13 + length (x ∷ x' ∷ xs) - 14 ≡ length (x' ∷ xs) = omega arith in
      let at : s'.pages cur ≡ s.pages cur = added.below cur (omega (arith, e)) in
      let keeps = ap (λ (p : Page). p.names 13) at in
      let link : (s'.pages cur).next_page ≡ next = ap (λ (p : Page). p.next_page) at ∙ e in
      (
        rw (same, e, t, n) runs,
        record {
          lists = (
            subst (IsEntry x) (sym keeps) entry,
            rw link (omega (arith, e), omega (arith, e, added.above), added.lists),
          );
          above = added.above;
          most = added.most;
          below = λ r lt. added.below r (omega (arith, e));
          front = λ k lt. ap (λ (p : Page). p.names k) at;
        },
      )

  next_entry :
      (x : BeeName) (xs : List BeeName) (cur i : ℕ) (s s' : Names)
      → i < 13
      → IsEntry x ((s.pages cur).names i)
      → Added y some_name s s' cur (i + 1) (xs ++ y ∷ [])
      → Added y some_name s s' cur i (x ∷ xs ++ y ∷ [])
  next_entry x xs cur i s s' lt entry added =
      let t : (i == 13) ≡ false = ground arith in
      record {
        lists = (subst (IsEntry x) (sym (added.front i (omega arith))) entry, rw t added.lists);
        above = added.above;
        most = added.most;
        below = added.below;
        front = λ k lt'. added.front k (omega arith);
      }

  -- What is to show from a place on, and the step from the last entry of a page.
  abbrev Adds : ℕ → ℕ → ℕ → Names → List BeeName → Type 0
  Adds fuel cur i s xs =
      (s' : Names) × (add_from fuel cur (i + length xs) y s ≡ some s')
      × Added y some_name s s' cur i (xs ++ y ∷ [])

  last_entry :
      (x : BeeName) (xs : List BeeName) (fuel cur : ℕ) (s : Names)
      → s.memory + 512 < 2 ^ 32
      → 13 + length (x ∷ xs) < suc fuel
      → Lists s.pages s.memory cur 13 (x ∷ xs)
      → ((next : ℕ) → Lists s.pages s.memory next 0 xs → Adds fuel next 0 s xs)
      → Adds (suc fuel) cur 13 s (x ∷ xs)
  last_entry x xs zero cur s room enough h ih = absurd (omega arith)
  last_entry x [] (suc fuel) cur s room enough h ih = open_page x fuel cur s room h
  last_entry x (x' ∷ xs) (suc fuel) cur s room enough h ih =
      let next = (s.pages cur).next_page in
      let (s', runs, added) = ih next h.1.2 in
      let z : 0 + length (x' ∷ xs) ≡ length (x' ∷ xs) = omega arith in
      let (runs', added') =
        turn_page x x' xs (suc fuel) cur next s s' refl h (rw z at runs) added in
      (s', runs', added')

  add_from_lem :
      (xs : List BeeName) (fuel cur i : ℕ) (s : Names)
      → i < 14
      → s.memory + 512 < 2 ^ 32
      → i + length xs < fuel
      → Lists s.pages s.memory cur i xs
      → Adds fuel cur i s xs
  add_from_lem xs zero cur i s lt room enough h = absurd (omega arith)
  add_from_lem [] (suc fuel) cur i s lt room enough h =
      let e : i + 0 ≡ i = omega arith in
      let (s', runs, added, stays) = write_lem y some_name fuel i cur s lt h.1 h.2 in
      rw e (s', runs, added)
  add_from_lem (x ∷ xs) (suc fuel) cur i s lt room enough h = elim (Bool-cases (i == 13)) [
    | inl t ↦
        let p : i ≡ 13 = ground arith in
        let h' : Lists s.pages s.memory cur 13 (x ∷ xs) =
          subst (λ k. Lists s.pages s.memory cur k (x ∷ xs)) p h in
        rw p (
          last_entry x xs fuel cur s room (omega arith) h'
            λ next rest. add_from_lem xs fuel next 0 s (omega arith) room (omega arith) rest)
    | inr t ↦
        let (entry, rest) = rw t at h in
        let n : i + suc (length xs) ≡ i + 1 + length xs = omega arith in
        let (s', runs, added) =
          add_from_lem xs (suc fuel) cur (i + 1) s (ground arith) room (omega arith) rest in
        (s', rw n runs, next_entry x xs cur i s s' (ground arith) entry added)
  ]

-- Where the pages from one on list some names, and memory has room for a page below 2 ^ 32,
-- `addNameToPage` with the number of these names returns, and afterwards the pages list the same
-- names and the new one behind them, and at most one page was taken from memory. The new name must
-- not start with a 0 byte.
pub add_name_to_page-Lists :
    (y : BeeName) (xs : List BeeName) (page : ℕ) (s : Names)
    → y.name 0 ≢ 0
    → s.memory + 512 < 2 ^ 32
    → Lists s.pages s.memory page 0 xs
    → (s' : Names) × (add_name_to_page page (length xs) y s ≡ some s')
      × Lists s'.pages s'.memory page 0 (xs ++ y ∷ [])
      × (s.memory ≤ s'.memory)
      × (s'.memory ≤ s.memory + 512)
unfolding add_name_to_page
add_name_to_page-Lists y xs page s some_name room h =
    let (s', runs, added) =
      add_from_lem y some_name xs (length xs + 1) page 0 s (omega arith) room (omega arith) h in
    let z : 0 + length xs ≡ length xs = omega arith in
    (s', rw z at runs, added.lists, added.above, added.most)
