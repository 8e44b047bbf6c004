-- ===== src/Main/Module.antt =====
-- One round of the loop of queen/main.c's `main`: from a module on the disk to its name and data page.
use hive_rk.Prelude.{ℕ, zero, suc, ◌+◌, ◌-◌, ◌*◌, ◌≤◌, ◌<◌, ◌≡◌, ◌≢◌, refl, ◌∙◌, ap, arith}
use hive_rk.Prelude.{List, [], ◌∷◌, ◌++◌, length, length-append, get_or, map}
use hive_rk.Queen.{BeeFunc}
use hive_rk.Loader.{page_size}
use hive_rk.Loader.Header.{
  Meta, layout, Holds, IsMeta, page_of, moved, word, exports, make_bee_data-layout,
}
use hive_rk.Names.{BeeName}
use hive_rk.Names.Add.{copy_name_lem}
use hive_rk.Disk.{Drive, Loading}
use hive_rk.Disk.Sector.{disk_byte}
use hive_rk.Disk.Load.{IsLoaded}
use hive_rk.Main.{entry_of}

Holds-moved :
    (bytes : List ℕ) (mem disk : ℕ → ℕ) (p a : ℕ)
    → ((k : ℕ) → k < length bytes → mem (p + k) ≡ disk (a + k))
    → Holds disk a bytes
    → Holds mem p bytes
Holds-moved [] mem disk p a same h = tt
Holds-moved (b ∷ bytes) mem disk p a same h =
    let z : p + 0 ≡ p = omega arith in
    let z' : a + 0 ≡ a = omega arith in
    let e : mem p ≡ disk a = rw (z, z') at (same 0 (omega arith)) in
    (
      e ∙ h.0,
      Holds-moved bytes mem disk (p + 1) (a + 1)
          (λ k lt.
            let q : p + 1 + k ≡ p + suc k = omega arith in
            let r : a + 1 + k ≡ a + suc k = omega arith in rw (q, r) (same (suc k) (omega arith)))
          h.1,
    )

Holds-get :
    (bytes : List ℕ) (mem : ℕ → ℕ) (p k : ℕ)
    → Holds mem p bytes
    → k < length bytes
    → mem (p + k) ≡ get_or bytes k 0
Holds-get [] mem p k h lt = absurd (omega arith)
Holds-get (b ∷ bytes) mem p zero h lt = let z : p + 0 ≡ p = omega arith in rw z h.0
Holds-get (b ∷ bytes) mem p (suc k) h lt =
    let q : p + suc k ≡ p + 1 + k = omega arith in
    rw q (Holds-get bytes mem (p + 1) k h.1 (omega arith))

get_or-append : (xs ys : List ℕ) (k d : ℕ) → k < length xs → get_or (xs ++ ys) k d ≡ get_or xs k d
get_or-append [] ys k d lt = absurd (omega arith)
get_or-append (x ∷ xs) ys zero d lt = refl
get_or-append (x ∷ xs) ys (suc k) d lt = get_or-append xs ys k d (omega arith)

-- The name stands at byte 9 of a header.
layout_name :
    (h : Meta) (k : ℕ)
    → length h.name ≡ 32
    → k < 32
    → get_or (layout h) (9 + k) 0 ≡ get_or h.name k 0
layout_name h k n lt =
    let e : 9 + k ≡ suc (suc (suc (suc (suc (suc (suc (suc (suc k)))))))) = omega arith in
    rw e (
      get_or-append h.name (h.priority ∷ word (length h.funcs) ++ (exports h.funcs ++ word h.init))
        k 0 (omega (arith, n)))

length-layout : (h : Meta) → length h.name ≡ 32 → 42 ≤ length (layout h)
length-layout h n = omega (
  arith,
  n,
  length-append h.name (h.priority ∷ word (length h.funcs) ++ (exports h.funcs ++ word h.init)),
)

-- A module on the disk: where its first and second magic number stand, and its header.
pub record DiskBee : Type 0 where
  pub begin : ℕ
  pub end : ℕ
  pub header : Meta

-- What a name page says of a module that was loaded.
pub record Matches (d : DiskBee) (x : BeeName) : Type 0 where
  pub address : ℕ
  pub page : x.data_page ≡ page_of address d.header
  pub name : (k : ℕ) → k < 32 → x.name k ≡ get_or d.header.name k 0

-- A module lies on the disk: the header is where it begins, in front of its end, and its name is not
-- empty.
pub record IsBee (drive : Drive) (d : DiskBee) : Type 0 where
  pub meta : IsMeta d.header
  pub bytes : Holds (disk_byte drive) d.begin (layout d.header)
  pub fits : length (layout d.header) ≤ d.end + 4 - d.begin
  pub priority : d.header.priority < 256
  pub named : get_or d.header.name 0 0 ≢ 0

pub entry_of-Matches :
    (drive : Drive) (d : DiskBee) (address : ℕ) (s s' : Loading) (junk : ℕ → ℕ)
    → IsBee drive d
    → IsLoaded drive d.begin d.end address s s'
    → Matches d (entry_of address s'.mem junk)
unfolding entry_of
entry_of-Matches drive d address s s' junk bee loaded =
    let there =
      Holds-moved (layout d.header) s'.mem (disk_byte drive) address d.begin
        (λ k lt. loaded.bytes k (omega (arith, bee.fits))) bee.bytes in
    record {
      address = address;
      page = make_bee_data-layout d.header bee.meta address s'.mem there;
      name = λ k lt.
          let q : address + 9 + k ≡ address + (9 + k) = omega arith in
          copy_name_lem 32 0 k (λ i. s'.mem (address + 9 + i)) junk (omega arith) (omega arith)
          ∙ rw q (
              Holds-get (layout d.header) s'.mem address (9 + k) there
                (omega (arith, length-layout d.header bee.meta.name)))
          ∙ layout_name d.header k bee.meta.name lt;
    }

length-moved : (buf : ℕ) (fs : List BeeFunc) → length (map (moved buf) fs) ≡ length fs
length-moved buf [] = refl
length-moved buf (f ∷ fs) = ap suc (length-moved buf fs)

-- The data page of a module is not larger than its header and a page more.
pub page_size-le :
    (d : DiskBee) (x : BeeName)
    → Matches d x
    → page_size x.data_page ≤ 8 * length d.header.funcs + 529
page_size-le d x m = rw (m.page, length-moved m.address d.header.funcs) (omega arith)
