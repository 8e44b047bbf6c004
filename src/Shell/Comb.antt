-- ===== src/Shell/Comb.antt =====
-- `ControlComb` of queen/main.c: the line at the bottom of the screen.
use hive_rk.Prelude.{ℕ, ◌+◌, ◌-◌, ◌%◌, ◌^◌, ◌==◌, ltb, if◌then◌else◌, store}
use hive_rk.Prelude.{Option, none, some, ◌>>=◌, List, [], ◌∷◌}
use hive_rk.Console.{sys_print}
use hive_rk.Names.{Page}
use hive_rk.Shell.Pictures.{codes}
use hive_rk.Shell.Codes.{scancode_to_char}
use hive_rk.Shell.{End, go_on, quit, halted, text_from, sys_shift, sys_line, Tty, handle_cmd}

-- `buf` and `index`, and the static `last` of `SYScursor`.
pub record Comb : Type 0 where
  pub buf : ℕ → ℕ
  pub index : ℕ
  pub last : ℕ
  pub tty : Tty

-- `SYScursor` at the time `t`, which is `rdtsc() >> 31`: `last` and memory.
unfoldable pub sys_cursor : ℕ → ℕ → ℕ → ℕ → (ℕ → ℕ) → ℕ × (ℕ → ℕ)
sys_cursor cr x t last mem =
    if ltb last t
    then (if ltb ((last + 1) % 2 ^ 32) t then t else last, sys_print (cr ∷ []) x 24 0xF0 mem)
    else (last, sys_print (codes " ") x 24 0xF0 mem)

-- The end of the loop: the prompt, the line, and the cursor behind it.
unfoldable pub refresh : ℕ → Comb → Comb
refresh t c =
    let prompt = sys_print (codes ">> ") 0 24 0xF0 c.tty.mem in
    let line = sys_print (text_from 61 0 c.buf) 3 24 0xF0 prompt in
    let drawn = sys_cursor 2 (c.index + 3) t c.last line in
    record c { last = drawn.0; tty = record c.tty { mem = drawn.1 } }

-- How a round goes on behind a key: with the loop's condition, with the screen, or not at all.
pub data After : Type 0 where
  again : After
  draw : After
  exit : After
  stop : After

abbrev pub on_screen : ((ℕ → ℕ) → ℕ → ℕ) → Comb → Comb
on_screen f c = record c { tty = record c.tty { mem = f c.tty.mem } }

-- Behind `handleCMD`.
unfoldable pub handled : End × Tty → Comb → After × Comb
handled (go_on, tty) c = (draw, record c { buf = store c.buf 0 0; index = 0; tty = tty })
handled (quit, tty) c = (exit, record c { tty = tty })
handled (halted, tty) c = (stop, record c { tty = tty })

-- The line is taken off the screen where it is entered, and where its last character is wiped out.
abbrev pub entered : Comb → Comb
entered c =
    on_screen (λ mem. sys_line 24 (sys_shift (sys_print (codes " ") (c.index + 3) 24 0xF0 mem))) c

abbrev pub wiped : Comb → Comb
wiped c = record (on_screen (sys_line 24) c) {
  buf = store c.buf (c.index - 1) 0;
  index = c.index - 1;
}

-- The character of a key. `args` is what the buffers of `handleCMD` hold before.
unfoldable pub on_char :
    ℕ → (ℕ → ℕ) → (ℕ → ℕ → ℕ) → (ℕ → Page) → ℕ → ℕ → Comb → Option (After × Comb)
on_char fuel status args pages bees key c =
    let ran = handle_cmd fuel status c.buf args pages bees (entered c).tty >>= λ r.
    some (handled r (entered c)) in
    let typed = record c {
      buf = store (store c.buf c.index key) (c.index + 1) 0;
      index = c.index + 1;
    } in
    if key == 0
    then some (again, c)
    else (if key == 8
        then (if c.index == 0 then some (again, c) else some (draw, wiped c))
        else (if key == 10
            then (if ltb 0 c.index then ran else some (again, entered c))
            else (if ltb c.index 60 then some (draw, typed) else some (draw, c))))

-- What the loop sees in a round: a scan code if the keyboard has one, and the time.
abbrev pub Poll : Type 0
Poll = Option ℕ × ℕ

-- The loop, on what it sees: whether it was left or the CPU has halted, and the state.
unfoldable pub after_key : After → ℕ → Comb → (Comb → Option (End × Comb)) → Option (End × Comb)
after_key again t c rest = rest c
after_key draw t c rest = rest (refresh t c)
after_key exit t c rest = some (quit, c)
after_key stop t c rest = some (halted, c)

unfoldable pub control_comb :
    ℕ → (ℕ → ℕ) → (ℕ → ℕ → ℕ) → (ℕ → Page) → ℕ → List Poll → Comb → Option (End × Comb)
control_comb fuel status args pages bees [] c = some (go_on, c)
control_comb fuel status args pages bees ((none, t) ∷ polls) c =
    control_comb fuel status args pages bees polls (refresh t c)
control_comb fuel status args pages bees ((some sc, t) ∷ polls) c =
    on_char fuel status args pages bees (scancode_to_char sc) c >>= λ step.
    after_key step.0 t step.1 (λ c'. control_comb fuel status args pages bees polls c')
