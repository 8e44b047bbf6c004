-- ===== src/Shell/Tests.antt =====
-- The theorems on queen/main.c's control console at concrete lines and keys.
use hive_rk.Prelude.{ℕ, ◌<◌, ◌≡◌, ◌↔◌, refl, arith, inl, Bool, true, none, some, [], ◌∷◌, List}
use hive_rk.Names.{Page}
use hive_rk.Shell.{cmp_str, parse_args, literal, Tty}
use hive_rk.Shell.Pictures.{codes}
use hive_rk.Shell.Codes.{scancode_to_char, scancode_to_char_agrees}
use hive_rk.Shell.Words.{IsText, cmp_str_lem}
use hive_rk.Shell.Parse.{Line, word_of, parse_args_lem}
use hive_rk.Prelude.{ltb, if◌then◌else◌}
use hive_rk.Shell.Comb.{Comb, Poll, control_comb}
use hive_rk.Shell.Lines.{words_of, edited}
use hive_rk.Shell.Loop.{Agrees, control_comb_refines}

cmp_str_lem_example :
    (b : Bool) × (cmp_str 9 (literal (codes "lb")) (literal (codes "list")) ≡ some b)
    × (b ≡ true ↔ codes "lb" ≡ codes "list")
cmp_str_lem_example =
    cmp_str_lem (literal (codes "lb")) (literal (codes "list")) (codes "lb") (codes "list") 9
      (omega arith) (omega arith) (omega arith)

-- Two words with two spaces between them.
abbrev two_words : Line
two_words = (codes "exit", 2) ∷ (codes "now", 0) ∷ []

parse_args_lem_example :
    (after : ℕ → ℕ → ℕ) × (parse_args 61 (literal (codes "exit  now")) (λ k i. 7) ≡ some after)
    × ((m : ℕ) → m < 5 → IsText (after m) 0 (word_of two_words m))
parse_args_lem_example =
    parse_args_lem two_words 61 (literal (codes "exit  now")) (λ k i. 7)
      (omega arith, omega arith, cc, omega arith) (omega arith) (omega arith)

-- A name page that lists nothing.
abbrev pages : ℕ → Page
pages p = record {
  names = λ i. record {
    name = λ k. 0;
    data_page = record {
      base_address = 0;
      bee_id = 0;
      priority = 0;
      format = 0;
      init_func = 0;
      funcs = [];
    };
  };
  next_page = 0;
}

abbrev tty : Tty
tty = record { mem = λ a. 0; actions = [] }

-- The keyboard's controller is busy for two reads.
abbrev status : ℕ → ℕ
status k = if ltb k 2 then 0x1F else 0x1C

abbrev comb : Comb
comb = record { buf = λ i. 0; index = 0; last = 1; tty = tty }

-- `e` and its release, nothing, `x`, a backspace, and the line is entered.
abbrev keys : List Poll
keys =
    (some 0x12, 1)
    ∷ (none, 2)
    ∷ (some 0x92, 3)
    ∷ (some 0x2D, 4)
    ∷ (some 0x0E, 5)
    ∷ (some 0x1C, 6)
    ∷ []

control_comb_refines_example :
    Agrees 0
      (words_of keys [])
      tty
      (control_comb 61 status (λ k i. 7) pages 0x4000 keys comb)
      (edited keys [])
control_comb_refines_example =
    control_comb_refines pages 0x5000 0x4000 [] 61 (λ k i. 7) status 2 (refl, refl, omega arith)
      (omega arith) (omega arith) (omega arith) refl tt (omega arith) keys [] comb
      (record {
        size = refl;
        short = omega arith;
        bytes = λ k lt. absurd (omega arith);
        nul = inl refl;
        chars = tt;
      })

scancode_to_char_agrees_example : scancode_to_char 0x2B ≡ 92
unfolding hive_rk.Keyboard.key_map
scancode_to_char_agrees_example = scancode_to_char_agrees 0x2B (omega arith)
