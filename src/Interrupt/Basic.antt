-- ===== src/Interrupt/Basic.antt =====
-- The handlers of bees/interrupt/basicInterrupts.h that the module registers for itself: each clears
-- the screen, prints a line and halts.
use hive_rk.Prelude.{ℕ, ◌≡◌, ◌≢◌, refl, ◌∙◌, arith, if◌then◌else◌, within, All}
use hive_rk.Prelude.{List, [], ◌∷◌, ◌++◌}
use hive_rk.Ports.{Action, halt}
use hive_rk.Console.{vidmem, sys_clear, sys_print, swapped, before_nul}
use hive_rk.Console.Layout.{with_line, sys_clear_lem, sys_print_line}

-- What a handler leaves: memory, and the instruction that it ends with.
abbrev pub Stopped : Type 0
Stopped = (ℕ → ℕ) × Action

unfoldable pub stop_with : List ℕ → (ℕ → ℕ) → Stopped
stop_with text mem = (sys_print text 0 0 0x40 (sys_clear mem), halt)

abbrev pub div_by_zero : List ℕ
div_by_zero =
    b'!' ∷ b' ' ∷ b'D' ∷ b'i' ∷ b'v' ∷ b'i' ∷ b's' ∷ b'i' ∷ b'o' ∷ b'n' ∷ b' ' ∷ b'B' ∷ b'y' ∷ b' '
    ∷ b'Z' ∷ b'e' ∷ b'r' ∷ b'o' ∷ b' ' ∷ b'!' ∷ 0 ∷ []

abbrev pub breakpoint : List ℕ
breakpoint =
    b'!' ∷ b' ' ∷ b'B' ∷ b'r' ∷ b'e' ∷ b'a' ∷ b'k' ∷ b'p' ∷ b'o' ∷ b'i' ∷ b'n' ∷ b't' ∷ b' ' ∷ b'!'
    ∷ 0 ∷ []

-- The last byte is a new line, not a 0.
abbrev pub invalid_opcode : List ℕ
invalid_opcode =
    b'!' ∷ b' ' ∷ b'I' ∷ b'n' ∷ b'v' ∷ b'a' ∷ b'l' ∷ b'i' ∷ b'd' ∷ b' ' ∷ b'O' ∷ b'p' ∷ b'c' ∷ b'o'
    ∷ b'd' ∷ b'e' ∷ b' ' ∷ b'!' ∷ 10 ∷ []

abbrev pub double_fault : List ℕ
double_fault =
    b'!' ∷ b' ' ∷ b'D' ∷ b'o' ∷ b'u' ∷ b'b' ∷ b'l' ∷ b'e' ∷ b' ' ∷ b'F' ∷ b'a' ∷ b'u' ∷ b'l' ∷ b't'
    ∷ b' ' ∷ b'!' ∷ 0 ∷ []

abbrev pub general_protection_fault : List ℕ
general_protection_fault =
    b'!' ∷ b' ' ∷ b'G' ∷ b'e' ∷ b'n' ∷ b'e' ∷ b'r' ∷ b'a' ∷ b'l' ∷ b' ' ∷ b'P' ∷ b'r' ∷ b'o' ∷ b't'
    ∷ b'e' ∷ b'c' ∷ b't' ∷ b'i' ∷ b'o' ∷ b'n' ∷ b' ' ∷ b'F' ∷ b'a' ∷ b'u' ∷ b'l' ∷ b't' ∷ b' '
    ∷ b'!' ∷ 0 ∷ []

pub handle_div_by_zero : (ℕ → ℕ) → Stopped
handle_div_by_zero mem = stop_with (before_nul div_by_zero) mem

pub handle_breakpoint : (ℕ → ℕ) → Stopped
handle_breakpoint mem = stop_with (before_nul breakpoint) mem

-- `behind` is what the stack holds behind the buffer, up to a 0.
pub handle_invalid_opcode : List ℕ → (ℕ → ℕ) → Stopped
handle_invalid_opcode behind mem = stop_with (before_nul (invalid_opcode ++ behind)) mem

pub handle_double_fault : (ℕ → ℕ) → Stopped
handle_double_fault mem = stop_with (before_nul double_fault) mem

pub handle_general_protection_fault : (ℕ → ℕ) → Stopped
handle_general_protection_fault mem = stop_with (before_nul general_protection_fault) mem

-- A line in red on a screen that is otherwise empty, with the rest of memory as before, and a halt.
abbrev pub Shows : List ℕ → (ℕ → ℕ) → Stopped → Type 0
Shows text mem (mem', action) =
    ((a : ℕ) → mem' a ≡ with_line (λ b. if within vidmem 4000 b then 0 else mem b) 0 text 4 a)
    × (action ≡ halt)

stop_with-Shows :
    (text : List ℕ) (mem : ℕ → ℕ) → All (λ c. c ≢ 10) text → Shows text mem (stop_with text mem)
unfolding stop_with swapped
stop_with-Shows text mem h = (
  λ a. let e = sys_clear_lem a mem in sys_print_line text 0 0 0x40 a (sys_clear mem) h ∙ rw e refl,
  refl,
)

-- The handlers of a division by zero, a breakpoint, a double fault and a general protection fault
-- leave their line in red on a screen that is otherwise empty, change no memory outside of the
-- screen, and halt.
pub handlers-Shows :
    (mem : ℕ → ℕ)
    → Shows (before_nul div_by_zero) mem (handle_div_by_zero mem)
      × Shows (before_nul breakpoint) mem (handle_breakpoint mem)
      × Shows (before_nul double_fault) mem (handle_double_fault mem)
      × Shows (before_nul general_protection_fault) mem (handle_general_protection_fault mem)
unfolding handle_div_by_zero handle_breakpoint handle_double_fault handle_general_protection_fault
    before_nul
handlers-Shows mem = (
  stop_with-Shows (before_nul div_by_zero) mem (omega arith),
  stop_with-Shows (before_nul breakpoint) mem (omega arith),
  stop_with-Shows (before_nul double_fault) mem (omega arith),
  stop_with-Shows (before_nul general_protection_fault) mem (omega arith),
)
