-- ===== src/Loader/Tests.antt =====
-- The theorems on queen/main.c's reading of headers at concrete inputs.
use hive_rk.Prelude.{ℕ, suc, ◌+◌, ◌-◌, ◌<◌, ◌≡◌, refl, arith, List, [], ◌∷◌}
use hive_rk.Prelude.{length, get_or, replicate}
use hive_rk.Loader.{make_bee_data}
use hive_rk.Loader.Header.{Meta, layout, Holds, IsMeta, page_of, make_bee_data-layout}

-- The header of the memory module, with addresses of its functions.
abbrev memory_meta : Meta
memory_meta = record {
  format = 0;
  bee_id = 7;
  name = b'm' ∷ b'e' ∷ b'm' ∷ b'o' ∷ b'r' ∷ b'y' ∷ replicate 26 0;
  priority = 0;
  funcs = record { id = 1; func = 0x120 } ∷ record { id = 2; func = 0x1A4 } ∷ [];
  init = 0x80;
}

-- A text at an address holds there.
Holds-at :
    (xs : List ℕ) (p : ℕ) (mem : ℕ → ℕ)
    → ((k : ℕ) → k < length xs → mem (p + k) ≡ get_or xs k 0)
    → Holds mem p xs
Holds-at [] p mem h = tt
Holds-at (x ∷ xs) p mem h =
    let e : p + 0 ≡ p = omega arith in
    (
      rw e at (h 0 (omega arith)),
      Holds-at xs (p + 1) mem
          (λ k lt. let q : p + 1 + k ≡ p + suc k = omega arith in rw q (h (suc k) (omega arith))),
    )

abbrev disk : ℕ → ℕ
disk a = get_or (layout memory_meta) (a - 0x5000) 0

memory_meta-IsMeta : IsMeta memory_meta
memory_meta-IsMeta = record {
  id = omega arith;
  name = refl;
  count = omega arith;
  init = omega arith;
  funcs = omega arith;
}

make_bee_data-layout_example : make_bee_data 0x5000 disk ≡ page_of 0x5000 memory_meta
make_bee_data-layout_example = make_bee_data-layout memory_meta memory_meta-IsMeta 0x5000 disk (
    Holds-at (layout memory_meta) 0x5000 disk
      (λ k lt. let e : 0x5000 + k - 0x5000 ≡ k = omega arith in rw e))
