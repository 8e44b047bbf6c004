-- ===== src/Shell/Lines.antt =====
-- What the control console of queen/main.c does with the keys that it sees, on a line that is a list.
use hive_rk.Prelude.{◌++◌, ◌∙◌, ℕ, ◌≡◌}
use hive_rk.Prelude.{◌==◌, if◌then◌else◌}
use hive_rk.Prelude.{none, some, List, [], ◌∷◌}
use hive_rk.Shell.{End, go_on, quit, halted, Tty}
use hive_rk.Shell.Codes.{scancode_to_char}
use hive_rk.Shell.Parse.{word_of}
use hive_rk.Shell.Dispatch.{Answers, end_for}
use hive_rk.Shell.Comb.{Poll}
use hive_rk.Shell.Edit.{splits, edit}

-- Where a line is entered: how its first word ends.
unfoldable pub closes : ℕ → List ℕ → End
closes key [] = go_on
closes key (x ∷ xs) = if key == 10 then end_for (word_of (splits (x ∷ xs)) 0) else go_on

-- What the loop sees behind a key.
abbrev pub unless : End → List ℕ → End × List ℕ → End × List ℕ
unless go_on xs rest = rest
unless quit xs rest = (quit, xs)
unless halted xs rest = (halted, xs)

-- What the loop sees, on a line that is a list: how the console ends, and the line then.
unfoldable pub edited : List Poll → List ℕ → End × List ℕ
edited [] xs = (go_on, xs)
edited ((none, t) ∷ polls) xs = edited polls xs
edited ((some sc, t) ∷ polls) xs =
    let key = scancode_to_char sc in unless (closes key xs) xs (edited polls (edit key xs))

-- The first word of a line that a key enters.
unfoldable pub opened : ℕ → List ℕ → List (List ℕ)
opened key [] = []
opened key (x ∷ xs) = if key == 10 then word_of (splits (x ∷ xs)) 0 ∷ [] else []

-- The first words of the lines that are entered, in order, up to the end of the console.
abbrev pub while_open : End → List (List ℕ) → List (List ℕ)
while_open go_on ws = ws
while_open quit ws = []
while_open halted ws = []

unfoldable pub words_of : List Poll → List ℕ → List (List ℕ)
words_of [] xs = []
words_of ((none, t) ∷ polls) xs = words_of polls xs
words_of ((some sc, t) ∷ polls) xs =
    let key = scancode_to_char sc in
    opened key xs ++ while_open (closes key xs) (words_of polls (edit key xs))

-- Each of the words is answered, one after another, and in between only the screen is drawn.
abbrev pub Handles : ℕ → List (List ℕ) → Tty → Tty → Type 0
Handles count [] t t' = t'.actions ≡ t.actions
Handles count (w ∷ ws) t t' =
    (drawn : Tty) × (answer : Tty) × (drawn.actions ≡ t.actions)
    × Answers count w drawn answer
    × Handles count ws answer t'

pub Handles-drawn :
    (count : ℕ) (ws : List (List ℕ)) (t t1 t' : Tty)
    → t1.actions ≡ t.actions
    → Handles count ws t1 t'
    → Handles count ws t t'
Handles-drawn count [] t t1 t' e h = h ∙ e
Handles-drawn count (w ∷ ws) t t1 t' e (drawn, answer, same, answers, rest) =
    (drawn, answer, same ∙ e, answers, rest)

pub Handles-append :
    (count : ℕ) (ws vs : List (List ℕ)) (t t1 t' : Tty)
    → Handles count ws t t1
    → Handles count vs t1 t'
    → Handles count (ws ++ vs) t t'
Handles-append count [] vs t t1 t' h g = Handles-drawn count vs t t1 t' h g
Handles-append count (w ∷ ws) vs t t1 t' (drawn, answer, same, answers, rest) g =
    (drawn, answer, same, answers, Handles-append count ws vs answer t1 t' rest g)
