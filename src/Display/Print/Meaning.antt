-- ===== src/Display/Print/Meaning.antt =====
-- `print` of bees/display/display.c prints what the format means.
use hive_rk.Prelude.{ℕ, ◌^◌, ◌<◌, ◌≡◌}
use hive_rk.Prelude.{List, some}
use hive_rk.Display.Print.{Glyphs, Output}
use hive_rk.Display.Print.Format.{Piece}
use hive_rk.Display.Print.Format.{Means}

module _ (spilled : List ℕ → List ℕ) (args : ℕ → ℕ) (text : ℕ → List ℕ)
    (words : (k : ℕ) → args k < 2 ^ 32) where
  -- The rest prints something that it means.
  abbrev Result : List Piece → ℕ → ℕ → Output → Type 0
  Result ps k color out = (gs : Glyphs) × (out ≡ some gs) × Means args text ps k color gs
