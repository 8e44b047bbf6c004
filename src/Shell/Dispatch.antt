-- ===== src/Shell/Dispatch.antt =====
-- `handleCMD` of queen/main.c: the first word of a line decides what is done.
use hive_rk.Prelude.{ℕ, ◌+◌, ◌≤◌, ◌<◌, ◌≡◌, ◌≢◌, refl, arith, ◌^◌}
use hive_rk.Prelude.{Bool-cases, inl, inr, if◌then◌else◌, some, All, get_or}
use hive_rk.Prelude.{
  List, [], ◌∷◌, ◌++◌, length, append-nil, append_assoc, length-append, replicate,
}
use hive_rk.Console.{sys_print, sys_print_i}
use hive_rk.Console.{vidmem}
use hive_rk.Console.Layout.{sys_clear_lem}
use hive_rk.Console.Numbers.{int_to_string-Printed}
use hive_rk.Util.Digits.{value, val_decimal, IsNumeral}
use hive_rk.Ports.{outb, halt}
use hive_rk.Prelude.{bit_and, ◌==◌, within, zero, suc}
use hive_rk.Shell.{End, go_on, quit, halted, wait_ready}
use hive_rk.Shell.Words.{same_list→eq}
use hive_rk.Shell.Pictures.{tea, gun, fox}
use hive_rk.Names.{BeeName, Page}
use hive_rk.Names.Chain.{Lists}
use hive_rk.Shell.{
  literal, Command, unknown, commands, cmp_str, command_of, handle_cmd, run_command,
}
use hive_rk.Shell.{Tty, reboot, list_bees}
use hive_rk.Shell.Words.{IsText, same_list, cmp_from_lem}
use hive_rk.Shell.Parse.{Line, spelled, IsLine, word_of, parse_args_lem}
use hive_rk.Shell.Bees.{ListsAt, list_from-Counts}
use hive_rk.Shell.Pictures.{codes}
use hive_rk.Shell.{sys_shift}

get_behind : (pre : List ℕ) (x : ℕ) (xs : List ℕ) → get_or (pre ++ x ∷ xs) (length pre) 0 ≡ x
get_behind [] x xs = refl
get_behind (p ∷ pre) x xs = get_behind pre x xs

get_end : (pre : List ℕ) → get_or pre (length pre) 0 ≡ 0
get_end [] = refl
get_end (p ∷ pre) = get_end pre

-- A string literal is the text that it is written as.
literal-IsText :
    (pre xs : List ℕ) → All (λ c. c ≢ 0) xs → IsText (literal (pre ++ xs)) (length pre) xs
literal-IsText pre [] h = let e = append-nil pre in rw e (get_end pre)
literal-IsText pre (x ∷ xs) h =
    let n : length pre + 1 ≡ length (pre ++ x ∷ []) = omega (arith, length-append pre (x ∷ [])) in
    let a : (pre ++ x ∷ []) ++ xs ≡ pre ++ x ∷ xs = append_assoc pre (x ∷ []) xs in
    let rest : IsText (literal (pre ++ x ∷ xs)) (length pre + 1) xs =
      rw n (rw a at (literal-IsText (pre ++ x ∷ []) xs h.1)) in
    (get_behind pre x xs, h.0, rest)

-- The command that a word names.
unfoldable pub named : List ℕ → List (List ℕ × Command) → Command
named w [] = unknown
named w ((name, command) ∷ rest) = if same_list w name then command else named w rest

command_of_lem :
    (w : List ℕ) (cmd : ℕ → ℕ) (fuel : ℕ) (table : List (List ℕ × Command))
    → length w < fuel
    → IsText cmd 0 w
    → All (λ row. All (λ c. c ≢ 0) row.0) table
    → command_of fuel cmd table ≡ some (named w table)
unfolding command_of named cmp_str
command_of_lem w cmd fuel [] enough text h = refl
command_of_lem w cmd fuel ((name, command) ∷ rest) enough text h =
    let e : cmp_str fuel cmd (literal name) ≡ some (same_list w name) =
      cmp_from_lem cmd (literal name) w name fuel 0 enough text (literal-IsText [] name h.0) in
    let later = command_of_lem w cmd fuel rest enough text h.1 in
    elim (Bool-cases (same_list w name)) [ inl t ↦ rw (e, t) refl | inr t ↦ rw (e, t) later ]

-- The word that leaves the console, and the one that restarts the machine.
abbrev pub end_for : List ℕ → End
end_for w =
    if same_list w (codes "exit")
    then quit
    else (if same_list w (codes "reboot") then halted else go_on)

-- The message behind the names: so many in decimal.
abbrev pub Reports : ℕ → Tty → Type 0
Reports count t' =
    (m : ℕ → ℕ) × (ds : List ℕ) × (value 10 val_decimal 0 ds ≡ count)
    × IsNumeral 10 val_decimal ds
    × (t'.mem ≡ sys_print ds 13 23 0x20 (sys_print (codes "Bees Loaded: ") 0 23 0x20 (sys_shift m)))

-- What the first word of a line makes of the screen and the ports, with so many modules loaded.
abbrev pub Answers : ℕ → List ℕ → Tty → Tty → Type 0
Answers count w t t' =
    if same_list w (codes "clear")
    then (t'.actions ≡ t.actions)
      × ((a : ℕ) → t'.mem a ≡ (if within vidmem 4000 a then 0 else t.mem a))
    else (if same_list w (codes "tea")
        then t' ≡ record t { mem = sys_print tea 0 0 0x20 t.mem }
        else (if same_list w (codes "gun")
            then t' ≡ record t { mem = sys_print gun 0 0 0x20 t.mem }
            else (if same_list w (codes "reboot")
                then t' ≡ record t { actions = t.actions ++ outb 0x64 0xFE ∷ halt ∷ [] }
                else (if same_list w (codes "list-bees")
                    then (t'.actions ≡ t.actions) × Reports count t'
                    else (if same_list w (codes "lb")
                        then (t'.actions ≡ t.actions) × Reports count t'
                        else (if same_list w (codes "fox")
                            then t' ≡ record t { mem = sys_print fox 0 0 0x20 t.mem }
                            else t' ≡ t))))))

wait_ready_lem :
    (d fuel k : ℕ) (status : ℕ → ℕ)
    → d < fuel
    → bit_and (status (k + d)) 0x02 ≡ 0
    → (n : ℕ) × (wait_ready fuel k status ≡ some n)
unfolding wait_ready
wait_ready_lem d zero k status lt ready = absurd (omega arith)
wait_ready_lem zero (suc fuel) k status lt ready =
    let z : k + 0 ≡ k = omega arith in
    let r : bit_and (status k) 0x02 ≡ 0 = rw z at ready in (k, rw r refl)
wait_ready_lem (suc d) (suc fuel) k status lt ready =
    elim (Bool-cases (bit_and (status k) 0x02 == 0)) [
      | inl t ↦ (k, rw t refl)
      | inr t ↦
          let n : k + suc d ≡ k + 1 + d = omega arith in
          let (r, e) = wait_ready_lem d fuel (k + 1) status (omega arith) (rw n at ready) in
          (r, rw t e)
    ]

-- A name ends with a 0 among its 32 bytes.
abbrev pub AllEnd : List BeeName → Type 0
AllEnd xs = All (λ x. (k : ℕ) × (k < 32) × (x.name k ≡ 0)) xs

module _ (pages : ℕ → Page) (top bees : ℕ) (xs : List BeeName) (fuel : ℕ) (status : ℕ → ℕ)
    (reads : ℕ) (lists : Lists pages top bees 0 xs) (enough : length xs < fuel)
    (few : length xs < 2 ^ 31) (soon : reads < fuel) (ready : bit_and (status reads) 0x02 ≡ 0) where
  at_start : (ys : List BeeName) → Lists pages top bees 0 ys → ListsAt pages top bees 0 ys
  at_start [] h = h
  at_start (y ∷ ys) h = h

  -- The number of the names is printed behind them.
  listed :
      (t : Tty)
      → (t' : Tty) × (run_command list_bees fuel status pages bees t ≡ some (go_on, t'))
        × (t'.actions ≡ t.actions)
        × Reports (length xs) t'
  unfolding run_command sys_print_i
  listed t =
      let (m, counts) =
        list_from-Counts pages top xs fuel bees 0 0 t.mem (omega arith) enough
          (at_start xs lists) in
      let z : 0 + length xs ≡ length xs = omega arith in
      let counted = rw z at counts in
      let (text, ds, writes, shown, reads', numeral) = int_to_string-Printed (length xs) few in
      (
        record t {
          mem = sys_print ds 13 23 0x20 (sys_print (codes "Bees Loaded: ") 0 23 0x20 (sys_shift m));
        },
        rw (counted, writes, shown) refl,
        refl,
        (m, ds, reads', numeral, refl),
      )

  restarts :
      (t : Tty)
      → run_command reboot fuel status pages bees t
        ≡ some (halted, record t { actions = t.actions ++ outb 0x64 0xFE ∷ halt ∷ [] })
  unfolding run_command
  restarts t =
      let z : 0 + reads ≡ reads = omega arith in
      let (n, e) = wait_ready_lem reads fuel 0 status soon (rw z ready) in rw e refl

  -- The command that a word names ends as the word says, and does what it says.
  answered :
      (w : List ℕ) (t : Tty)
      → (t' : Tty) × (run_command (named w commands) fuel status pages bees t
          ≡ some (end_for w, t'))
        × Answers (length xs) w t t'
  unfolding run_command named same_list
  answered w t = elim (Bool-cases (same_list w (codes "clear"))) [
    | inl e ↦ rw (same_list→eq w (codes "clear") e) (_, refl, (refl, λ a. sys_clear_lem a t.mem))
    | inr c ↦ elim (Bool-cases (same_list w (codes "tea"))) [
      | inl e ↦ rw (same_list→eq w (codes "tea") e) (_, refl, refl)
      | inr c1 ↦ elim (Bool-cases (same_list w (codes "gun"))) [
        | inl e ↦ rw (same_list→eq w (codes "gun") e) (_, refl, refl)
        | inr c2 ↦ elim (Bool-cases (same_list w (codes "reboot"))) [
          | inl e ↦ rw (same_list→eq w (codes "reboot") e) (_, restarts t, refl)
          | inr c3 ↦ elim (Bool-cases (same_list w (codes "list-bees"))) [
            | inl e ↦
                let (t', runs, same, said) = listed t in
                rw (same_list→eq w (codes "list-bees") e) (t', runs, (same, said))
            | inr c4 ↦ elim (Bool-cases (same_list w (codes "lb"))) [
              | inl e ↦
                  let (t', runs, same, said) = listed t in
                  rw (same_list→eq w (codes "lb") e) (t', runs, (same, said))
              | inr c5 ↦ elim (Bool-cases (same_list w (codes "exit"))) [
                | inl e ↦ rw (same_list→eq w (codes "exit") e) (t, refl, refl)
                | inr c6 ↦ elim (Bool-cases (same_list w (codes "fox"))) [
                  | inl e ↦ rw (same_list→eq w (codes "fox") e) (_, refl, refl)
                  | inr c7 ↦ rw (c, c1, c2, c3, c4, c5, c6, c7) (t, refl, refl)
                ]
              ]
            ]
          ]
        ]
      ]
    ]
  ]

  word-length : (l : Line) → length (word_of l 0) ≤ length (spelled l)
  word-length [] = omega arith
  word-length ((w, g) ∷ rest) = omega (arith, length-append w (replicate g 32 ++ spelled rest))

  pub handle_cmd_lem :
      (l : Line) (buf : ℕ → ℕ) (args : ℕ → ℕ → ℕ) (t : Tty)
      → AllEnd xs
      → IsLine l
      → length (spelled l) < fuel
      → IsText buf 0 (spelled l)
      → (t' : Tty) × (handle_cmd fuel status buf args pages bees t
          ≡ some (end_for (word_of l 0), t'))
        × Answers (length xs) (word_of l 0) t t'
  unfolding handle_cmd
  handle_cmd_lem l buf args t ended line short text =
      let (after, parses, words) = parse_args_lem l fuel buf args line short text in
      let e : command_of fuel (after 0) commands ≡ some (named (word_of l 0) commands) =
        command_of_lem (word_of l 0) (after 0) fuel commands (omega (arith, word-length l))
          (words 0 (omega arith)) (omega arith) in
      let (t', runs, done) = answered (word_of l 0) t in (t', rw (parses, e) runs, done)
