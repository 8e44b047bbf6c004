-- ===== src/Loader/Header.antt =====
-- `makeBeeData` of queen/main.c on a module's header.
use hive_rk.Prelude.{ℕ, suc, ◌+◌, ◌*◌, ◌/◌, ◌%◌, ◌^◌, ◌<◌, ◌≡◌, refl, ◌∙◌, arith}
use hive_rk.Prelude.{List, [], ◌∷◌, ◌++◌, length, map, All}
use hive_rk.Queen.{BeeFunc, BeeData}
use hive_rk.Loader.{load_4b, read_funcs, make_bee_data}
use hive_rk.Loader.Words.{load_4b_lem}

-- A word as the assembler's `dd` writes it.
abbrev pub word : ℕ → List ℕ
word n = n % 2 ^ 8 ∷ n / 2 ^ 8 % 2 ^ 8 ∷ n / 2 ^ 16 % 2 ^ 8 ∷ n / 2 ^ 24 ∷ []

abbrev pub exports : List BeeFunc → List ℕ
exports [] = []
exports (f ∷ fs) = word f.id ++ (word f.func ++ exports fs)

-- The header that the `_meta.asm` file of a module lays out; addresses are relative to it.
pub record Meta : Type 0 where
  pub format : ℕ
  pub bee_id : ℕ
  pub name : List ℕ
  pub priority : ℕ
  pub funcs : List BeeFunc
  pub init : ℕ

abbrev pub layout : Meta → List ℕ
layout h =
    (0x3A ∷ 0x44 ∷ 0xBE ∷ 0xE0 ∷ h.format ∷ [])
    ++ (word h.bee_id
        ++ (h.name ++ (h.priority ∷ word (length h.funcs) ++ (exports h.funcs ++ word h.init))))

-- The bytes that stand in memory from an address on.
abbrev pub Holds : (ℕ → ℕ) → ℕ → List ℕ → Type 0
Holds mem p [] = Unit
Holds mem p (b ∷ bytes) = (mem p ≡ b) × Holds mem (p + 1) bytes

Holds-append :
    (mem : ℕ → ℕ) (p : ℕ) (xs ys : List ℕ) → Holds mem p (xs ++ ys) → Holds mem (p + length xs) ys
Holds-append mem p [] ys h = let e : p + 0 ≡ p = omega arith in rw e h
Holds-append mem p (x ∷ xs) ys h =
    let e : p + suc (length xs) ≡ p + 1 + length xs = omega arith in
    rw e (Holds-append mem (p + 1) xs ys h.1)

load-word :
    (mem : ℕ → ℕ) (p n : ℕ) (ys : List ℕ)
    → n < 2 ^ 32
    → Holds mem p (word n ++ ys)
    → (load_4b mem p ≡ n) × Holds mem (p + 4) ys
load-word mem p n ys lt (a, (b, (c, (d, rest)))) =
    let e1 : p + 1 + 1 ≡ p + 2 = omega arith in
    let e2 : p + 1 + 1 + 1 ≡ p + 3 = omega arith in
    let e3 : p + 1 + 1 + 1 + 1 ≡ p + 4 = omega arith in
    (
      load_4b_lem mem p (n % 2 ^ 8) (n / 2 ^ 8 % 2 ^ 8) (n / 2 ^ 16 % 2 ^ 8) (n / 2 ^ 24) a b
            (rw e1 at c) (rw e2 at d) (omega arith) (omega arith) (omega arith) (omega arith)
          ∙ omega arith,
      rw e3 at rest,
    )

-- The numbers of an export are words.
abbrev pub IsWord : BeeFunc → Type 0
IsWord f = (f.id < 2 ^ 32) × (f.func < 2 ^ 32)

abbrev pub moved : ℕ → BeeFunc → BeeFunc
moved buf f = record f { func = (buf + f.func) % 2 ^ 32 }

read_funcs-exports :
    (fs : List BeeFunc) (p buf : ℕ) (mem : ℕ → ℕ) (ys : List ℕ)
    → All IsWord fs
    → Holds mem p (exports fs ++ ys)
    → (read_funcs (length fs) p buf mem ≡ map (moved buf) fs) × Holds mem (p + 8 * length fs) ys
unfolding read_funcs
read_funcs-exports [] p buf mem ys ok h = let e : p + 8 * 0 ≡ p = omega arith in (refl, rw e h)
read_funcs-exports (f ∷ fs) p buf mem ys ok h =
    let (id, h1) = load-word mem p f.id (word f.func ++ (exports fs ++ ys)) ok.0.0 h in
    let (func, h2) = load-word mem (p + 4) f.func (exports fs ++ ys) ok.0.1 h1 in
    let e : p + 4 + 4 ≡ p + 8 = omega arith in
    let h3 : Holds mem (p + 8) (exports fs ++ ys) = rw e at h2 in
    let (rest, h4) = read_funcs-exports fs (p + 8) buf mem ys ok.1 h3 in
    let e' : p + 8 * suc (length fs) ≡ p + 8 + 8 * length fs = omega arith in
    (rw (id, func, rest), rw e' h4)

pub record IsMeta (h : Meta) : Type 0 where
  pub id : h.bee_id < 2 ^ 32
  pub name : length h.name ≡ 32
  pub count : length h.funcs < 2 ^ 32
  pub init : h.init < 2 ^ 32
  pub funcs : All IsWord h.funcs

-- What the core keeps of a header at an address.
abbrev pub page_of : ℕ → Meta → BeeData
page_of buf h = record {
  base_address = buf;
  bee_id = h.bee_id;
  priority = h.priority;
  format = h.format;
  init_func = (buf + h.init) % 2 ^ 32;
  funcs = map (moved buf) h.funcs;
}

module _ (h : Meta) (ok : IsMeta h) (buf : ℕ) (mem : ℕ → ℕ) where
  abbrev tail : List ℕ
  tail = exports h.funcs ++ word h.init

  read_tail :
      Holds mem (buf + 42) (word (length h.funcs) ++ tail)
      → (load_4b mem (buf + 42) ≡ length h.funcs)
        × (read_funcs (length h.funcs) (buf + 46) buf mem ≡ map (moved buf) h.funcs)
        × (load_4b mem (buf + 46 + 8 * length h.funcs) ≡ h.init)
  read_tail there =
      let (count, h1) = load-word mem (buf + 42) (length h.funcs) tail ok.count there in
      let e : buf + 42 + 4 ≡ buf + 46 = omega arith in
      let h2 : Holds mem (buf + 46) tail = rw e at h1 in
      let (funcs, h3) = read_funcs-exports h.funcs (buf + 46) buf mem (word h.init) ok.funcs h2 in
      let (init, h4) = load-word mem (buf + 46 + 8 * length h.funcs) h.init [] ok.init h3 in
      (count, funcs, init)

  -- `makeBeeData` at a header reads back what the assembler laid out: the numbers as they are, and the
  -- address of the initialization and of every export, in order, moved by the address of the header.
  pub make_bee_data-layout : Holds mem buf (layout h) → make_bee_data buf mem ≡ page_of buf h
  unfolding make_bee_data
  make_bee_data-layout (m0, (m1, (m2, (m3, (format, rest))))) =
      let e4 : buf + 1 + 1 + 1 + 1 ≡ buf + 4 = omega arith in
      let e5 : buf + 1 + 1 + 1 + 1 + 1 ≡ buf + 4 + 1 = omega arith in
      let f : mem (buf + 4) ≡ h.format = rw e4 at format in
      let behind = h.name ++ (h.priority ∷ word (length h.funcs) ++ tail) in
      let h1 : Holds mem (buf + 4 + 1) (word h.bee_id ++ behind) = rw e5 at rest in
      let (id, h2) = load-word mem (buf + 4 + 1) h.bee_id behind ok.id h1 in
      let h3 =
        Holds-append mem (buf + 4 + 1 + 4) h.name (h.priority ∷ word (length h.funcs) ++ tail) h2 in
      let e41 : buf + 4 + 1 + 4 + length h.name ≡ buf + 4 + 1 + 36 = omega (arith, ok.name) in
      let h4 : Holds mem (buf + 4 + 1 + 36) (h.priority ∷ word (length h.funcs) ++ tail) =
        rw e41 at h3 in
      let e42 : buf + 4 + 1 + 36 + 1 ≡ buf + 42 = omega arith in
      let (count, funcs, init) = read_tail (rw e42 at h4.1) in
      let e46 : buf + 42 + 4 ≡ buf + 46 = omega arith in
      rw (f, id, h4.0, e42, count, e46, funcs, init)
