-- ===== src/Shell/Loop.antt =====
-- The loop of `ControlComb` of queen/main.c, against a line that is a list.
use hive_rk.Prelude.{bit_and, ◌++◌, ℕ, ◌<◌, ◌≡◌, refl, ◌^◌}
use hive_rk.Prelude.{inl, inr, ◌⊎◌}
use hive_rk.Prelude.{Option, none, some, List, [], ◌∷◌, length}
use hive_rk.Names.{BeeName, Page}
use hive_rk.Names.Chain.{Lists}
use hive_rk.Shell.{End, go_on, quit, halted, Tty}
use hive_rk.Shell.Codes.{scancode_to_char}
use hive_rk.Shell.Dispatch.{AllEnd}
use hive_rk.Shell.Comb.{Comb, After, again, draw, Poll, after_key}
use hive_rk.Shell.Comb.{control_comb, refresh}
use hive_rk.Shell.Edit.{edit, IsTyped}
use hive_rk.Shell.Lines.{
  closes, unless, edited, opened, while_open, words_of, Handles, Handles-drawn, Handles-append,
}
use hive_rk.Shell.Keys.{Lands, any_key}

-- The result of the loop, the line that the buffer then holds, and what was handled from a terminal
-- on.
abbrev pub Agrees : ℕ → List (List ℕ) → Tty → Option (End × Comb) → End × List ℕ → Type 0
Agrees count ws t out (end, xs) =
    (c' : Comb) × (out ≡ some (end, c')) × IsTyped c' xs × Handles count ws t c'.tty

module _ (pages : ℕ → Page) (top bees : ℕ) (names : List BeeName) (fuel : ℕ) (args : ℕ → ℕ → ℕ)
    (status : ℕ → ℕ) (reads : ℕ) (lists : Lists pages top bees 0 names)
    (enough : length names < fuel) (few : length names < 2 ^ 31) (soon : reads < fuel)
    (ready : bit_and (status reads) 0x02 ≡ 0) (ended : AllEnd names) (long : 60 < fuel) where
  refresh-IsTyped : (t : ℕ) (c : Comb) (xs : List ℕ) → IsTyped c xs → IsTyped (refresh t c) xs
  unfolding refresh
  refresh-IsTyped t c xs p = record {
    size = p.size;
    short = p.short;
    bytes = p.bytes;
    nul = p.nul;
    chars = p.chars;
  }

  refresh-actions : (t : ℕ) (c : Comb) → (refresh t c).tty.actions ≡ c.tty.actions
  unfolding refresh
  refresh-actions t c = refl

  -- The loop goes on from any state with a line.
  abbrev Continues : (Comb → Option (End × Comb)) → List (List ℕ) → List ℕ → End × List ℕ → Type 0
  Continues rest ws xs model =
      (c' : Comb) → IsTyped c' xs → Agrees (length names) ws c'.tty (rest c') model

  redrawn :
      (time : ℕ) (c : Comb) (ws : List (List ℕ)) (out : Option (End × Comb)) (model : End × List ℕ)
      → Agrees (length names) ws (refresh time c).tty out model
      → Agrees (length names) ws c.tty out model
  redrawn time c ws out model (c', e, p, h) = (
    c',
    e,
    p,
    Handles-drawn (length names) ws c.tty (refresh time c).tty c'.tty (refresh-actions time c) h,
  )

  -- Where the loop goes on behind a key.
  goes_on :
      (a : After) (time : ℕ) (c : Comb) (xs : List ℕ) (rest : Comb → Option (End × Comb))
      (ws : List (List ℕ)) (model : End × List ℕ)
      → (a ≡ again) ⊎ (a ≡ draw)
      → IsTyped c xs
      → Continues rest ws xs model
      → Agrees (length names) ws c.tty (after_key a time c rest) model
  unfolding after_key
  goes_on a time c xs rest ws model (inl e) p ih = rw e (ih c p)
  goes_on a time c xs rest ws model (inr e) p ih = rw e (
      redrawn time c ws (rest (refresh time c)) model
        (ih (refresh time c) (refresh-IsTyped time c xs p)))

  behind_key :
      (end : End) (key time : ℕ) (xs : List ℕ) (r : After × Comb)
      (rest : Comb → Option (End × Comb)) (ws : List (List ℕ)) (model : End × List ℕ)
      → Lands end key xs r
      → Continues rest ws (edit key xs) model
      → Agrees
          (length names)
          (while_open end ws)
          r.1.tty
          (after_key r.0 time r.1 rest)
          (unless end xs model)
  unfolding after_key
  behind_key go_on key time xs (a, c) rest ws model (e, p) ih =
      goes_on a time c (edit key xs) rest ws model e p ih
  behind_key quit key time xs (a, c) rest ws model (e, p) ih = rw e (c, refl, p, refl)
  behind_key halted key time xs (a, c) rest ws model (e, p) ih = rw e (c, refl, p, refl)

  opens :
      (ws vs : List (List ℕ)) (t t1 : Tty) (out : Option (End × Comb)) (model : End × List ℕ)
      → Handles (length names) ws t t1
      → Agrees (length names) vs t1 out model
      → Agrees (length names) (ws ++ vs) t out model
  opens ws vs t t1 out model h (c', e, p, g) =
      (c', e, p, Handles-append (length names) ws vs t t1 c'.tty h g)

  -- The control console edits a line of at most 60 characters. On a buffer that holds a line, which
  -- is empty or ends with a 0, whatever scan codes come and go: a character is put behind the line
  -- while it has less than 60, a backspace takes the last one off, behind an entered line it is empty;
  -- the first word of each entered line is answered, as `handleCMD` answers it, once and in order, and
  -- in between nothing is written to ports; the console is left exactly where a line is entered whose
  -- first word is exit, and the CPU halts exactly where it is reboot; the buffer and its index hold
  -- the line of this description at every time. The fuel is more than 60, than the number of modules on
  -- the name pages, and than the reads after which the keyboard's controller is ready for the reset;
  -- the names on the pages have a 0.
  pub control_comb_refines :
      (polls : List Poll) (xs : List ℕ) (c : Comb)
      → IsTyped c xs
      → Agrees
          (length names)
          (words_of polls xs)
          c.tty
          (control_comb fuel status args pages bees polls c)
          (edited polls xs)
  unfolding control_comb edited words_of
  control_comb_refines [] xs c p = (c, refl, p, refl)
  control_comb_refines ((none, t) ∷ polls) xs c p =
      redrawn t c (words_of polls xs) (control_comb fuel status args pages bees polls (refresh t c))
        (edited polls xs) (control_comb_refines polls xs (refresh t c) (refresh-IsTyped t c xs p))
  control_comb_refines ((some sc, t) ∷ polls) xs c p =
      let key = scancode_to_char sc in
      let end = closes key xs in
      let (r, e, keyed, answered) =
        any_key pages top bees names fuel args status reads lists enough few soon ready ended long
          xs c key p in
      let loop : Comb → Option (End × Comb) =
        λ c'. control_comb fuel status args pages bees polls c' in
      let ws = words_of polls (edit key xs) in
      let model = edited polls (edit key xs) in
      rw e (
        opens (opened key xs) (while_open end ws) c.tty r.1.tty (after_key r.0 t r.1 loop)
          (unless end xs model) answered
          (behind_key end key t xs r loop ws model keyed
            (λ c' p'. control_comb_refines polls (edit key xs) c' p')))
