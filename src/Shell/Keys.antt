-- ===== src/Shell/Keys.antt =====
-- One key of `ControlComb` of queen/main.c, on a buffer that holds a line.
use hive_rk.Prelude.{bit_and, ap, ℕ, ◌+◌, ◌<◌, ◌≡◌, ◌≢◌, refl, arith, ◌^◌}
use hive_rk.Prelude.{Bool-cases, inl, inr, ◌⊎◌, ◌==◌, true, false, ltb, store}
use hive_rk.Prelude.{some, List, [], ◌∷◌, length}
use hive_rk.Names.{BeeName, Page}
use hive_rk.Names.Chain.{Lists}
use hive_rk.Shell.{End, go_on, quit, halted, Tty}
use hive_rk.Shell.Words.{IsText}
use hive_rk.Shell.Parse.{spelled, word_of}
use hive_rk.Shell.Dispatch.{AllEnd, end_for, handle_cmd_lem}
use hive_rk.Shell.Comb.{Comb, After, again, draw, exit, stop, on_char, handled}
use hive_rk.Shell.Comb.{entered, wiped}
use hive_rk.Shell.Edit.{
  splits, drop_last, edit, IsTyped, typed-IsText, wiped-IsTyped, append-IsTyped,
}
use hive_rk.Shell.Edit.{splits-IsLine, spelled-splits}
use hive_rk.Shell.Lines.{closes, opened, Handles}

-- What a key does to a line that the buffer holds.
abbrev pub Lands : End → ℕ → List ℕ → After × Comb → Type 0
Lands go_on key xs (a, c) = ((a ≡ again) ⊎ (a ≡ draw)) × IsTyped c (edit key xs)
Lands quit key xs (a, c) = (a ≡ exit) × IsTyped c xs
Lands halted key xs (a, c) = (a ≡ stop) × IsTyped c xs

abbrev pub Keyed : ℕ → List ℕ → After × Comb → Type 0
Keyed key xs r = Lands (closes key xs) key xs r

module _ (pages : ℕ → Page) (top bees : ℕ) (names : List BeeName) (fuel : ℕ) (args : ℕ → ℕ → ℕ)
    (status : ℕ → ℕ) (reads : ℕ) (lists : Lists pages top bees 0 names)
    (enough : length names < fuel) (few : length names < 2 ^ 31) (soon : reads < fuel)
    (ready : bit_and (status reads) 0x02 ≡ 0) (ended : AllEnd names) (long : 60 < fuel) where
  abbrev pub Does : ℕ → List ℕ → Comb → Type 0
  Does key xs c =
      (r : After × Comb) × (on_char fuel status args pages bees key c ≡ some r)
      × Keyed key xs r
      × Handles (length names) (opened key xs) c.tty r.1.tty

  stays_on : (xs : List ℕ) (key : ℕ) → (key == 10) ≡ false → closes key xs ≡ go_on
  unfolding closes
  stays_on [] key t = refl
  stays_on (x ∷ xs) key t = rw t refl

  -- Any other key enters nothing.
  opened_not : (xs : List ℕ) (key : ℕ) → (key == 10) ≡ false → opened key xs ≡ []
  unfolding opened
  opened_not [] key t = refl
  opened_not (x ∷ xs) key t = rw t refl

  Keyed-on :
      (key : ℕ) (xs : List ℕ) (r : After × Comb)
      → closes key xs ≡ go_on
      → (r.0 ≡ again) ⊎ (r.0 ≡ draw)
      → IsTyped r.1 (edit key xs)
      → Keyed key xs r
  Keyed-on key xs r stays on p = rw stays (on, p)

  no_key : (xs : List ℕ) (c : Comb) → IsTyped c xs → Does 0 xs c
  unfolding on_char closes edit opened
  no_key [] c p = ((again, c), refl, (inl refl, p), refl)
  no_key (x ∷ xs) c p = ((again, c), refl, (inl refl, p), refl)

  backspace : (xs : List ℕ) (c : Comb) → IsTyped c xs → Does 8 xs c
  unfolding on_char closes edit drop_last opened
  backspace [] c p = let e : c.index ≡ 0 = p.size in ((again, c), rw e refl, (inl refl, p), refl)
  backspace (x ∷ xs) c p =
      let size = p.size in
      let t : (c.index == 0) ≡ false = ground arith in
      ((draw, wiped c), rw t refl, (inr refl, wiped-IsTyped c (x ∷ xs) (wiped c).tty p), refl)

  typed :
      (xs : List ℕ) (c : Comb) (key : ℕ)
      → key ≢ 0
      → key ≢ 8
      → key ≢ 10
      → IsTyped c xs
      → Does key xs c
  unfolding on_char edit
  typed xs c key n0 n8 n10 p =
      let t0 : (key == 0) ≡ false = ground arith in
      let t8 : (key == 8) ≡ false = ground arith in
      let t10 : (key == 10) ≡ false = ground arith in
      let size = p.size in
      let stays = stays_on xs key t10 in
      let none_opened = opened_not xs key t10 in
      let next : Comb = record c {
        buf = store (store c.buf c.index key) (c.index + 1) 0;
        index = c.index + 1;
      } in
      elim (Bool-cases (ltb (length xs) 60)) [
        | inl e ↦
            let u : ltb c.index 60 ≡ true = ground arith in
            (
              (draw, next),
              rw (t0, t8, t10, u) refl,
              Keyed-on key xs (draw, next) stays (inr refl)
                  (rw (t0, t8, t10, e) (append-IsTyped c xs key p (ground arith) n0)),
              rw none_opened refl,
            )
        | inr e ↦
            let u : ltb c.index 60 ≡ false = ground arith in
            (
              (draw, c),
              rw (t0, t8, t10, u) refl,
              Keyed-on key xs (draw, c) stays (inr refl) (rw (t0, t8, t10, e) p),
              rw none_opened refl,
            )
      ]

  -- Behind an entered line the buffer is empty, or it stays where the loop ends.
  handled-Lands :
      (end : End) (tty : Tty) (x : ℕ) (xs : List ℕ) (c : Comb)
      → IsTyped c (x ∷ xs)
      → Lands end 10 (x ∷ xs) (handled (end, tty) (entered c))
  unfolding handled edit
  handled-Lands go_on tty x xs c p = (
    inr refl,
    record {
      size = refl;
      short = omega arith;
      bytes = λ k lt. absurd (omega arith);
      nul = inl refl;
      chars = tt;
    },
  )
  handled-Lands quit tty x xs c p = (
    refl,
    record { size = p.size; short = p.short; bytes = p.bytes; nul = p.nul; chars = p.chars },
  )
  handled-Lands halted tty x xs c p = (
    refl,
    record { size = p.size; short = p.short; bytes = p.bytes; nul = p.nul; chars = p.chars },
  )

  handled-tty : (end : End) (tty : Tty) (c : Comb) → (handled (end, tty) c).1.tty ≡ tty
  unfolding handled
  handled-tty go_on tty c = refl
  handled-tty quit tty c = refl
  handled-tty halted tty c = refl

  entered_line : (xs : List ℕ) (c : Comb) → IsTyped c xs → Does 10 xs c
  unfolding on_char closes edit opened
  entered_line [] c p =
      let size = p.size in
      let u : ltb 0 c.index ≡ false = ground arith in
      (
        (again, entered c),
        rw u refl,
        (
          inl refl,
          record { size = p.size; short = p.short; bytes = p.bytes; nul = p.nul; chars = p.chars },
        ),
        refl,
      )
  entered_line (x ∷ xs) c p =
      let size = p.size in
      let u : ltb 0 c.index ≡ true = ground arith in
      let same = spelled-splits (x ∷ xs) in
      let text : IsText c.buf 0 (spelled (splits (x ∷ xs))) =
        rw same (typed-IsText c (x ∷ xs) p (cc)) in
      let (t', runs, answers) =
        handle_cmd_lem pages top bees names fuel status reads lists enough few soon ready
          (splits (x ∷ xs)) c.buf args (entered c).tty ended (splits-IsLine (x ∷ xs))
          (rw same (omega (arith, p.short))) text in
      let end = end_for (word_of (splits (x ∷ xs)) 0) in
      (
        handled (end, t') (entered c),
        rw (u, runs) refl,
        handled-Lands end t' x xs c p,
        (
          (entered c).tty,
          t',
          refl,
          answers,
          ap (λ (t : Tty). t.actions) (handled-tty end t' (entered c)),
        ),
      )

  pub any_key : (xs : List ℕ) (c : Comb) (key : ℕ) → IsTyped c xs → Does key xs c
  any_key xs c key p = elim (Bool-cases (key == 0)) [
    | inl t ↦ let e : key ≡ 0 = ground arith in rw e (no_key xs c p)
    | inr t0 ↦ elim (Bool-cases (key == 8)) [
      | inl t ↦ let e : key ≡ 8 = ground arith in rw e (backspace xs c p)
      | inr t8 ↦ elim (Bool-cases (key == 10)) [
        | inl t ↦ let e : key ≡ 10 = ground arith in rw e (entered_line xs c p)
        | inr t10 ↦ typed xs c key (ground arith) (ground arith) (ground arith) p
      ]
    ]
  ]
