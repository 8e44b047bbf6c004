-- ===== src/Disk/Tests.antt =====
-- The theorems on queen/main.c's search of the disk at a concrete disk.
use hive_rk.Prelude.{ℕ, ◌≡◌, arith}
use hive_rk.Disk.{find_bee, bee_scan_and_load, Loading}
use hive_rk.Disk.Search.{find_bee-IsFirst}
use hive_rk.Disk.Load.{IsLoaded, bee_scan_and_load-IsLoaded}
use hive_rk.Disk.Sample.{floppy, start-IsNext, quiet_inside}

find_bee-IsFirst_example : find_bee floppy 516 102400 (λ a. 7) ≡ 570
find_bee-IsFirst_example =
    find_bee-IsFirst floppy 516 102400 570 (λ a. 7) (omega arith) (omega arith) (omega arith)
      start-IsNext.end (λ s le lt. ground arith) quiet_inside

abbrev at_start : Loading
at_start = record { mem = λ a. 0; memory = 0x4200; last_end = 512 }

bee_scan_and_load-IsLoaded_example :
    (address : ℕ) × (s' : Loading) × (bee_scan_and_load floppy (λ a. 7) 0x4200 at_start
      ≡ (address, s'))
    × IsLoaded floppy 512 570 address at_start s'
bee_scan_and_load-IsLoaded_example =
    bee_scan_and_load-IsLoaded floppy 512 570 (λ a. 7) at_start start-IsNext (omega arith)
