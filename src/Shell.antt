-- ===== src/Shell.antt =====
-- queen/main.c, the control console: a line of text is edited, split at its spaces, and its first
-- word is a command. A string is a map from places to bytes, and ends in front of a 0. `main` has the
-- call of the console under `0&&`, so the kernel as it is built does not start it.
pub mod Pictures
pub mod Codes
pub mod Comb
pub mod Words
pub mod Parse
pub mod Dispatch
pub mod Bees
pub mod Edit
pub mod Lines
pub mod Keys
pub mod Loop
mod Tests
use hive_rk.Prelude.{ℕ, zero, suc, ◌+◌, ◌-◌, ◌*◌, ◌%◌, ◌^◌, ◌==◌, ltb, if◌then◌else◌, store}
use hive_rk.Prelude.{Bool, true, false, Option, none, some, ◌>>=◌, get_or, bit_and}
use hive_rk.Prelude.{List, [], ◌∷◌, ◌++◌}
use hive_rk.Ports.{Action, outb, halt}
use hive_rk.Console.{vidmem, sys_clear, sys_print, sys_print_i}
use hive_rk.Names.{Page}
use hive_rk.Shell.Pictures.{codes, tea, gun, fox}
use hive_rk.Shell.Codes.{scancode_to_char}

-- `cmpStr`, from place `i` on; `none` is a fuel of rounds used up.
pub cmp_from : ℕ → ℕ → (ℕ → ℕ) → (ℕ → ℕ) → Option Bool
cmp_from zero i s1 s2 = none
cmp_from (suc fuel) i s1 s2 =
    let rest = cmp_from fuel (i + 1) s1 s2 in
    if s1 i == 0
    then some (s1 i == s2 i)
    else (if s2 i == 0
        then some (s1 i == s2 i)
        else (if s1 i == s2 i then rest else some (s1 i == s2 i)))

pub cmp_str : ℕ → (ℕ → ℕ) → (ℕ → ℕ) → Option Bool
cmp_str fuel s1 s2 = cmp_from fuel 0 s1 s2

-- A loop of `parseArgs` that copies a word, from place `i` of the line to place `argi` of a buffer:
-- where it ends, and the buffer.
pub copy_word : ℕ → ℕ → ℕ → (ℕ → ℕ) → (ℕ → ℕ) → Option (ℕ × (ℕ → ℕ))
copy_word zero i argi base s = none
copy_word (suc fuel) i argi base s =
    let rest =
      copy_word fuel (i + 1) (argi + 1) base (store (store s argi (base i)) (argi + 1) 0) in
    if base i == 0 then some (i, s) else (if base i == 32 then some (i, s) else rest)

-- The loop that skips spaces.
pub skip_spaces : ℕ → ℕ → (ℕ → ℕ) → Option ℕ
skip_spaces zero i base = none
skip_spaces (suc fuel) i base =
    let rest = skip_spaces fuel (i + 1) base in if base i == 32 then rest else some i

-- The words from place `i` on go to the buffers from number `k` on, `n` of them; spaces are skipped
-- between them, and at the end of the line the rest of the buffers stay as they are.
pub parse_from : ℕ → ℕ → ℕ → ℕ → (ℕ → ℕ) → (ℕ → ℕ → ℕ) → Option (ℕ → ℕ → ℕ)
parse_from fuel zero k i base args = some args
parse_from fuel (suc zero) k i base args = do
  copied ← copy_word fuel i 0 base (args k)
  some (store args k copied.1)
parse_from fuel (suc (suc n)) k i base args = do
  copied ← copy_word fuel i 0 base (args k)
  next ← skip_spaces fuel copied.0 base
  let rest = parse_from fuel (suc n) (k + 1) next base (store args k copied.1)
  if base next == 0 then some (store args k copied.1) else rest

-- `parseArgs`; the five buffers are numbered from 0.
pub parse_args : ℕ → (ℕ → ℕ) → (ℕ → ℕ → ℕ) → Option (ℕ → ℕ → ℕ)
parse_args fuel base args = parse_from fuel 5 0 0 base (λ k. store (args k) 0 0)

-- The text at a pointer: at most so many bytes, in front of a 0.
unfoldable pub text_from : ℕ → ℕ → (ℕ → ℕ) → List ℕ
text_from zero i s = []
text_from (suc n) i s = if s i == 0 then [] else s i ∷ text_from n (i + 1) s

-- A string literal.
abbrev pub literal : List ℕ → ℕ → ℕ
literal text i = get_or text i 0

-- The cases of `handleCMD`, in the order in which it tests them.
pub data Command : Type 0 where
  clear_screen : Command
  show : List ℕ → Command
  reboot : Command
  list_bees : Command
  leave : Command
  unknown : Command

abbrev pub commands : List (List ℕ × Command)
commands =
    (codes "clear", clear_screen)
    ∷ (codes "tea", show tea)
    ∷ (codes "gun", show gun)
    ∷ (codes "reboot", reboot)
    ∷ (codes "list-bees", list_bees)
    ∷ (codes "lb", list_bees)
    ∷ (codes "exit", leave)
    ∷ (codes "fox", show fox)
    ∷ []

pub command_of : ℕ → (ℕ → ℕ) → List (List ℕ × Command) → Option Command
command_of fuel cmd [] = some unknown
command_of fuel cmd ((name, command) ∷ rest) = do
  same ← cmp_str fuel cmd (literal name)
  let later = command_of fuel cmd rest
  if same then some command else later

-- `SYSshift` and `SYSline`: loops over bytes of the screen from `s` on, in so many rounds.
pub shift_from : ℕ → ℕ → (ℕ → ℕ) → ℕ → ℕ
shift_from zero s mem = mem
shift_from (suc n) s mem = shift_from n (s + 1) (store mem (vidmem + s) (mem (vidmem + (s + 160))))

pub sys_shift : (ℕ → ℕ) → ℕ → ℕ
sys_shift mem = shift_from (4000 - 160) 0 mem

pub line_from : ℕ → ℕ → ℕ → (ℕ → ℕ) → ℕ → ℕ
line_from zero s y mem = mem
line_from (suc n) s y mem = line_from n (s + 1) y (store mem (vidmem + (s + 160 * y)) 0)

pub sys_line : ℕ → (ℕ → ℕ) → ℕ → ℕ
sys_line y mem = line_from 160 0 y mem

-- A round of `list-bees` from entry `s` of a page on: two names beside one another. A name has a 0
-- among its 32 bytes.
unfoldable pub list_row :
    Page → ℕ → ℕ → (ℕ → ℕ) → (ℕ → (ℕ → ℕ) → Option (ℕ × (ℕ → ℕ))) → Option (ℕ × (ℕ → ℕ))
list_row page s total mem rest =
    let left = (page.names s).name in
    let right = (page.names (s + 1)).name in
    let mem1 = sys_print (text_from 32 0 left) 0 23 0x50 (sys_shift mem) in
    let mem2 = sys_print (text_from 32 0 right) 33 23 0x50 mem1 in
    if left 0 == 0
    then some (total, mem)
    else (if right 0 == 0 then some (total + 1, mem1) else rest (total + 2) mem2)

-- The loop of `list-bees`, from entry `s` of the page at `cur` on: the number of names, and memory.
pub list_from : ℕ → (ℕ → Page) → ℕ → ℕ → ℕ → (ℕ → ℕ) → Option (ℕ × (ℕ → ℕ))
list_from zero pages cur s total mem = none
list_from (suc fuel) pages cur s total mem =
    let next = (pages cur).next_page in
    if s == 14
    then (if next == 0
        then some (total, mem)
        else list_row (pages next) 0 total mem (λ t m. list_from fuel pages next 2 t m))
    else list_row (pages cur) s total mem (λ t m. list_from fuel pages cur (s + 2) t m)

-- Memory with the screen, and what was written to ports.
pub record Tty : Type 0 where
  pub mem : ℕ → ℕ
  pub actions : List Action

-- What is behind `handleCMD`: it returns 0 or 1, or it does not return, since the CPU halts.
pub data End : Type 0 where
  go_on : End
  quit : End
  halted : End

-- `while(inb(0x64) & 0x02)`: the number of the read that ends it, from `k` on. `status` is what the
-- reads give; `none` is a fuel of rounds used up.
unfoldable pub wait_ready : ℕ → ℕ → (ℕ → ℕ) → Option ℕ
wait_ready zero k status = none
wait_ready (suc fuel) k status =
    let rest = wait_ready fuel (k + 1) status in
    if bit_and (status k) 0x02 == 0 then some k else rest

-- What `handleCMD` does. The `hlt` of `SYSreboot` is the last instruction: the console takes no
-- interrupts, and the write before it resets the machine.
pub run_command : Command → ℕ → (ℕ → ℕ) → (ℕ → Page) → ℕ → Tty → Option (End × Tty)
run_command clear_screen fuel status pages bees t = some (go_on, record t { mem = sys_clear t.mem })
run_command (show picture) fuel status pages bees t =
    some (go_on, record t { mem = sys_print picture 0 0 0x20 t.mem })
run_command reboot fuel status pages bees t = do
  ready ← wait_ready fuel 0 status
  some (halted, record t { actions = t.actions ++ outb 0x64 0xFE ∷ halt ∷ [] })
run_command list_bees fuel status pages bees t = do
  listed ← list_from fuel pages bees 0 0 t.mem
  mem ←
      sys_print_i listed.0 13 23 0x20
        (sys_print (codes "Bees Loaded: ") 0 23 0x20 (sys_shift listed.1))
  some (go_on, record t { mem = mem })
run_command leave fuel status pages bees t = some (quit, t)
run_command unknown fuel status pages bees t = some (go_on, t)

-- `handleCMD`; `args` is what its buffers hold before.
pub handle_cmd : ℕ → (ℕ → ℕ) → (ℕ → ℕ) → (ℕ → ℕ → ℕ) → (ℕ → Page) → ℕ → Tty → Option (End × Tty)
handle_cmd fuel status buf args pages bees t = do
  parsed ← parse_args fuel buf args
  command ← command_of fuel (parsed 0) commands
  run_command command fuel status pages bees t
