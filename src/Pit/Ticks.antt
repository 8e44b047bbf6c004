-- ===== src/Pit/Ticks.antt =====
-- Ticks and sleeping in bees/PIT/PIT.c.
use hive_rk.Prelude.{
  ℕ, zero, suc, ◌+◌, ◌-◌, ◌*◌, ◌/◌, ◌%◌, ◌^◌, ◌≤◌, ◌<◌, ◌≡◌, ◌≢◌, refl, ◌∙◌, ap, arith,
}
use hive_rk.Prelude.{◌==◌, ltb, true, false, ==_ne}
use hive_rk.Prelude.{List, [], ◌∷◌, ◌++◌, some, replicate}
use hive_rk.Ports.{Action, invoke}
use hive_rk.Pit.{
  GlobalData, interrupt_handler, target_ticks, wait, sleep, register_handler, get_ticks,
}

-- The data and the calls of so many interrupts.
abbrev pub interrupts : ℕ → GlobalData → GlobalData × List Action
interrupts zero global = (global, [])
interrupts (suc n) global =
    let (g, calls) = interrupt_handler global in
    let (g', calls') = interrupts n g in (g', calls ++ calls')

-- `n` interrupts after `register_handler` call the handler `n` times, and `get_ticks` then reads the
-- count that was there and `n` more, modulo 2 ^ 32; the rate stays.
pub interrupts-register_handler :
    (n handler : ℕ) (global : GlobalData)
    → handler ≢ 0
    → global.ticks < 2 ^ 32
    → let (g, calls) = interrupts n (register_handler handler global) in
      (get_ticks g ≡ (global.ticks + n) % 2 ^ 32)
      × (g.freq_hz ≡ global.freq_hz)
      × (calls ≡ replicate n (invoke handler))
unfolding interrupt_handler register_handler get_ticks
interrupts-register_handler zero handler global ne lt = (omega arith, refl, refl)
interrupts-register_handler (suc n) handler global ne lt =
    let next : GlobalData = record global { ticks = (global.ticks + 1) % 2 ^ 32 } in
    let (count, rate, calls) = interrupts-register_handler n handler next ne (omega arith) in
    let h : (handler == 0) ≡ false = ==_ne handler 0 ne in
    (count ∙ omega arith, rate, rw h (ap (λ l. invoke handler ∷ l) calls))

-- What `wait` gives where the target is `d` ticks ahead.
wait_lem :
    (d fuel target : ℕ) (global : GlobalData)
    → global.ticks + d ≡ target
    → target < 2 ^ 32
    → d ≤ fuel
    → wait fuel target global ≡ some (fuel - d, (interrupts d global).0)
unfolding wait interrupt_handler
wait_lem zero zero target global e lt le =
    let t : ltb global.ticks target ≡ false = ground arith in rw t refl
wait_lem zero (suc fuel) target global e lt le =
    let t : ltb global.ticks target ≡ false = ground arith in
    let n : suc fuel - 0 ≡ suc fuel = omega arith in rw (t, n)
wait_lem (suc d) zero target global e lt le = absurd (omega arith)
wait_lem (suc d) (suc fuel) target global e lt le =
    let t : ltb global.ticks target ≡ true = ground arith in
    let n : suc fuel - suc d ≡ fuel - d = omega arith in
    rw (t, n) (wait_lem d fuel target (interrupt_handler global).0 (omega arith) lt (omega arith))

-- `sleep` of `ms` milliseconds at a rate, where the sum and the product do not overflow, returns after
-- exactly `freq_hz * ms / 1000` interrupts, if so many come.
pub sleep_returns :
    (fuel ms : ℕ) (global : GlobalData)
    → global.freq_hz * ms < 2 ^ 32
    → global.ticks + global.freq_hz * ms / 1000 < 2 ^ 32
    → global.freq_hz * ms / 1000 ≤ fuel
    → sleep fuel ms global
      ≡ some (fuel - global.freq_hz * ms / 1000, (interrupts (global.freq_hz * ms / 1000) global).0)
unfolding sleep target_ticks
sleep_returns fuel ms global product sum enough =
    let p : global.freq_hz * ms % 2 ^ 32 ≡ global.freq_hz * ms = omega arith in
    let d = global.freq_hz * ms / 1000 in
    let s : (global.ticks + d) % 2 ^ 32 ≡ global.ticks + d = omega arith in
    rw (p, s) (wait_lem d fuel (global.ticks + d) global refl sum enough)

wait_none :
    (fuel target : ℕ) (global : GlobalData)
    → target ≤ global.ticks
    → wait fuel target global ≡ some (fuel, global)
unfolding wait
wait_none zero target global le =
    let t : ltb global.ticks target ≡ false = ground arith in rw t refl
wait_none (suc fuel) target global le =
    let t : ltb global.ticks target ≡ false = ground arith in rw t

-- Where the count is so high that the sum overflows, `sleep` returns at once, whatever the time is.
pub sleep_overflows :
    (fuel ms : ℕ) (global : GlobalData)
    → global.ticks < 2 ^ 32
    → 2 ^ 32 ≤ global.ticks + global.freq_hz * ms % 2 ^ 32 / 1000
    → sleep fuel ms global ≡ some (fuel, global)
unfolding sleep target_ticks
sleep_overflows fuel ms global lt over =
    wait_none fuel ((global.ticks + global.freq_hz * ms % 2 ^ 32 / 1000) % 2 ^ 32) global
      (omega arith)
