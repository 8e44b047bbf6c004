-- ===== src/Loader.antt =====
-- queen/main.c, the reading of a module's header: the core copies what it needs to a data page.
-- Memory is a total map of bytes, and the header does not cross the end of memory.
pub mod Words
pub mod Header
mod Tests
use hive_rk.Prelude.{ℕ, zero, suc, ◌+◌, ◌*◌, ◌/◌, ◌%◌, ◌^◌, bit_and, bit_or, store, List, [], ◌∷◌}
use hive_rk.Prelude.{length}
use hive_rk.Queen.{BeeFunc, BeeData}

unfoldable pub load_4b : (ℕ → ℕ) → ℕ → ℕ
load_4b mem ptr =
    bit_or
      (bit_or (bit_or (mem ptr) (bit_and (mem (ptr + 1) * 2 ^ 8) 0xFF00))
        (bit_and (mem (ptr + 2) * 2 ^ 16) 0xFF0000))
      (bit_and (mem (ptr + 3) * 2 ^ 24) 0xFF000000)

-- What is stored is cut to a byte.
pub store_4b : ℕ → ℕ → (ℕ → ℕ) → ℕ → ℕ
store_4b v ptr mem =
    let m0 = store mem ptr (bit_and v 0xFF) in
    let m1 = store m0 (ptr + 1) (bit_and (v * 2 ^ 8 % 2 ^ 32) 0xFF00 % 2 ^ 8) in
    let m2 = store m1 (ptr + 2) (bit_and (v * 2 ^ 16 % 2 ^ 32) 0xFF0000 % 2 ^ 8) in
    store m2 (ptr + 3) (bit_and (v * 2 ^ 24 % 2 ^ 32) 0xFF000000 % 2 ^ 8)

-- The loop over the exports from `index` on, in so many rounds.
pub read_funcs : ℕ → ℕ → ℕ → (ℕ → ℕ) → List BeeFunc
read_funcs zero index buf mem = []
read_funcs (suc n) index buf mem =
    record { id = load_4b mem index; func = (buf + load_4b mem (index + 4)) % 2 ^ 32 }
    ∷ read_funcs n (index + 8) buf mem

-- `makeBeeData`
pub make_bee_data : ℕ → (ℕ → ℕ) → BeeData
make_bee_data buf mem =
    let format = buf + 4 in
    let bee_id = format + 1 in
    let priority = bee_id + 36 in
    let export_count = priority + 1 in
    let funcs = export_count + 4 in
    let count = load_4b mem export_count in
    record {
      base_address = buf;
      bee_id = load_4b mem bee_id;
      priority = mem priority;
      format = mem format;
      init_func = (buf + load_4b mem (funcs + 8 * count)) % 2 ^ 32;
      funcs = read_funcs count funcs buf mem;
    }

-- How far `MEMORY` moves for a data page.
abbrev pub page_size : BeeData → ℕ
page_size page = (14 + 8 * length page.funcs + 4 + 511) / 512 * 512
