-- ===== src/Pit/Tests.antt =====
-- The theorems on bees/PIT/PIT.c at concrete inputs.
use hive_rk.Prelude.{◌/◌, ◌≤◌, ◌≡◌, refl, arith}
use hive_rk.Prelude.{[], ◌∷◌, some}
use hive_rk.Ports.{outb, pic_unmask_irq, unmasked}
use hive_rk.Pit.{GlobalData, pit_frequency, program, init, sleep}
use hive_rk.Pit.{set_frequency}
use hive_rk.Pit.Ticks.{interrupts, sleep_returns}
use hive_rk.Pit.Rate.{Sets, set_frequency-Sets}

abbrev timer : GlobalData
timer = record { ticks = 4294967290; tick_handler = 0; freq_hz = 100 }

abbrev early : GlobalData
early = record { ticks = 5; tick_handler = 0; freq_hz = 100 }

-- 11931 is 0x2E9B; line 0 is unmasked.
init_runs : init (λ p. 0xFF) ≡ (
  record { ticks = 0; tick_handler = 0; freq_hz = 100 },
  outb 0x43 0x36 ∷ outb 0x40 0x9B ∷ outb 0x40 0x2E ∷ outb 0x21 0xFE ∷ [],
)
unfolding init program pic_unmask_irq unmasked
init_runs = refl

sleep_returns_example : sleep 9 50 early ≡ some (4, (interrupts 5 early).0)
sleep_returns_example = sleep_returns 9 50 early (omega arith) (omega arith) (omega arith)

set_frequency-Sets_example :
    Sets 1000 1193 (set_frequency 1000 timer) timer × (1000 ≤ pit_frequency / 1193)
set_frequency-Sets_example = set_frequency-Sets 1000 timer (omega arith) (omega arith)
