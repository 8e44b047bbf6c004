-- ===== src/Shell/Edit.antt =====
-- The editing of the line in `ControlComb` of queen/main.c.
use hive_rk.Prelude.{ℕ, zero, suc, ◌+◌, ◌-◌, ◌≤◌, ◌<◌, ◌≡◌, ◌≢◌, refl, sym, ◌∙◌, ap, arith}
use hive_rk.Prelude.{Bool-cases, inl, inr, ◌⊎◌, ◌==◌, if◌then◌else◌, true, false, ltb, store}
use hive_rk.Prelude.{All, All-append, get_or}
use hive_rk.Prelude.{List, [], ◌∷◌, ◌++◌, length, length-append}
use hive_rk.Shell.{Tty}
use hive_rk.Shell.Words.{IsText}
use hive_rk.Shell.Parse.{Line, spelled, IsLine}
use hive_rk.Shell.Comb.{Comb}

-- Every text is a line of words.
pub split_front : ℕ → Line → Line
split_front c [] = []
split_front c (([], g) ∷ rest) = if c == 32 then ([], g + 1) ∷ rest else (c ∷ [], g) ∷ rest
split_front c ((x ∷ w, g) ∷ rest) =
    if c == 32 then ([], 1) ∷ (x ∷ w, g) ∷ rest else (c ∷ x ∷ w, g) ∷ rest

pub splits : List ℕ → Line
splits [] = ([], 0) ∷ []
splits (c ∷ xs) = split_front c (splits xs)

split_front-IsLine : (c : ℕ) (l : Line) → IsLine l → IsLine (split_front c l)
unfolding split_front
split_front-IsLine c [] h = h
split_front-IsLine c (([], g) ∷ []) h = elim (Bool-cases (c == 32)) [
  | inl t ↦ rw t tt
  | inr t ↦ rw t (ground arith, tt)
]
split_front-IsLine c (([], g) ∷ (w', g') ∷ rest) h = elim (Bool-cases (c == 32)) [
  | inl t ↦ rw t (tt, omega arith, h.2, h.3)
  | inr t ↦ rw t ((ground arith, tt), h.1, h.2, h.3)
]
split_front-IsLine c ((x ∷ w, g) ∷ []) h = elim (Bool-cases (c == 32)) [
  | inl t ↦ rw t (tt, omega arith, cc, h)
  | inr t ↦ rw t (ground arith, h)
]
split_front-IsLine c ((x ∷ w, g) ∷ (w', g') ∷ rest) h = elim (Bool-cases (c == 32)) [
  | inl t ↦ rw t (tt, omega arith, cc, h)
  | inr t ↦ rw t ((ground arith, h.0), h.1, h.2, h.3)
]

pub splits-IsLine : (xs : List ℕ) → IsLine (splits xs)
unfolding splits
splits-IsLine [] = tt
splits-IsLine (c ∷ xs) = split_front-IsLine c (splits xs) (splits-IsLine xs)

spelled-split_front : (c : ℕ) (l : Line) → IsLine l → spelled (split_front c l) ≡ c ∷ spelled l
unfolding split_front
spelled-split_front c [] h = absurd h
spelled-split_front c (([], g) ∷ rest) h = elim (Bool-cases (c == 32)) [
  | inl t ↦
      let p : c ≡ 32 = ground arith in let n : g + 1 ≡ suc g = omega arith in rw (t, n, p) refl
  | inr t ↦ rw t refl
]
spelled-split_front c ((x ∷ w, g) ∷ rest) h = elim (Bool-cases (c == 32)) [
  | inl t ↦ let p : c ≡ 32 = ground arith in rw (t, p) refl
  | inr t ↦ rw t refl
]

pub spelled-splits : (xs : List ℕ) → spelled (splits xs) ≡ xs
unfolding splits
spelled-splits [] = refl
spelled-splits (c ∷ xs) =
    spelled-split_front c (splits xs) (splits-IsLine xs)
    ∙ ap (λ (l : List ℕ). c ∷ l) (spelled-splits xs)

-- The line as a list: what a key does to it.
unfoldable pub drop_last : List ℕ → List ℕ
drop_last [] = []
drop_last (x ∷ []) = []
drop_last (x ∷ y ∷ xs) = x ∷ drop_last (y ∷ xs)

unfoldable pub edit : ℕ → List ℕ → List ℕ
edit key xs =
    if key == 0
    then xs
    else (if key == 8
        then drop_last xs
        else (if key == 10 then [] else (if ltb (length xs) 60 then xs ++ key ∷ [] else xs)))

-- The buffer and its index hold a line.
pub record IsTyped (c : Comb) (xs : List ℕ) : Type 0 where
  pub size : c.index ≡ length xs
  pub short : length xs ≤ 60
  pub bytes : (k : ℕ) → k < length xs → c.buf k ≡ get_or xs k 0
  pub nul : (xs ≡ []) ⊎ (c.buf (length xs) ≡ 0)
  pub chars : All (λ x. x ≢ 0) xs

buffer-IsText :
    (xs : List ℕ) (s : ℕ → ℕ) (i : ℕ)
    → ((k : ℕ) → k < length xs → s (i + k) ≡ get_or xs k 0)
    → s (i + length xs) ≡ 0
    → All (λ x. x ≢ 0) xs
    → IsText s i xs
buffer-IsText [] s i bytes nul chars = let z : i + 0 ≡ i = omega arith in rw z at nul
buffer-IsText (x ∷ xs) s i bytes nul chars =
    let z : i + 0 ≡ i = omega arith in
    let n : i + suc (length xs) ≡ i + 1 + length xs = omega arith in
    (
      rw z at (bytes 0 (omega arith)),
      chars.0,
      buffer-IsText xs s (i + 1)
          (λ k lt.
            let q : i + 1 + k ≡ i + suc k = omega arith in rw q (bytes (suc k) (omega arith)))
          (rw n at nul) chars.1,
    )

-- The buffer of a line that is not empty is its text.
pub typed-IsText : (c : Comb) (xs : List ℕ) → IsTyped c xs → xs ≢ [] → IsText c.buf 0 xs
typed-IsText c xs p ne =
    let z : 0 + length xs ≡ length xs = omega arith in
    let nul : c.buf (length xs) ≡ 0 = elim p.nul [ inl e ↦ absurd (ne e) | inr e ↦ e ] in
    buffer-IsText xs c.buf 0 (λ k lt. let q : 0 + k ≡ k = omega arith in rw q (p.bytes k lt))
      (rw z nul) p.chars

length-drop_last : (xs : List ℕ) → length (drop_last xs) ≡ length xs - 1
unfolding drop_last
length-drop_last [] = refl
length-drop_last (x ∷ []) = refl
length-drop_last (x ∷ y ∷ xs) = omega (arith, length-drop_last (y ∷ xs))

get_or-drop_last :
    (xs : List ℕ) (k : ℕ) → k < length xs - 1 → get_or (drop_last xs) k 0 ≡ get_or xs k 0
unfolding drop_last
get_or-drop_last [] k lt = absurd (omega arith)
get_or-drop_last (x ∷ []) k lt = absurd (omega arith)
get_or-drop_last (x ∷ y ∷ xs) zero lt = refl
get_or-drop_last (x ∷ y ∷ xs) (suc k) lt = get_or-drop_last (y ∷ xs) k (omega arith)

All-drop_last : (xs : List ℕ) → All (λ x. x ≢ 0) xs → All (λ x. x ≢ 0) (drop_last xs)
unfolding drop_last
All-drop_last [] h = tt
All-drop_last (x ∷ []) h = tt
All-drop_last (x ∷ y ∷ xs) h = (h.0, All-drop_last (y ∷ xs) h.1)

pub wiped-IsTyped :
    (c : Comb) (xs : List ℕ) (tty : Tty)
    → IsTyped c xs
    → IsTyped
        (record c { buf = store c.buf (c.index - 1) 0; index = c.index - 1; tty = tty })
        (drop_last xs)
wiped-IsTyped c xs tty p =
    let n = length-drop_last xs in
    let size = p.size in
    let m : c.index - 1 ≡ length (drop_last xs) = omega arith in
    record {
      size = m;
      short = omega (arith, p.short);
      bytes = λ k lt.
          let t : (c.index - 1 == k) ≡ false = ground arith in
          rw t (p.bytes k (omega arith) ∙ sym (get_or-drop_last xs k (omega arith)));
      nul = inr (let t : (c.index - 1 == length (drop_last xs)) ≡ true = ground arith in rw t refl);
      chars = All-drop_last xs p.chars;
    }

get_or-snoc :
    (xs : List ℕ) (key k : ℕ)
    → k < length xs + 1
    → get_or (xs ++ key ∷ []) k 0 ≡ (if k == length xs then key else get_or xs k 0)
get_or-snoc [] key zero lt = refl
get_or-snoc [] key (suc k) lt = absurd (omega arith)
get_or-snoc (x ∷ xs) key zero lt = ground arith
get_or-snoc (x ∷ xs) key (suc k) lt = get_or-snoc xs key k (omega arith) ∙ ground arith

pub append-IsTyped :
    (c : Comb) (xs : List ℕ) (key : ℕ)
    → IsTyped c xs
    → length xs < 60
    → key ≢ 0
    → IsTyped
        (record c { buf = store (store c.buf c.index key) (c.index + 1) 0; index = c.index + 1 })
        (xs ++ key ∷ [])
append-IsTyped c xs key p lt ne =
    let n = length-append xs (key ∷ []) in
    let size = p.size in
    let m : c.index + 1 ≡ length (xs ++ key ∷ []) = omega arith in
    record {
      size = m;
      short = omega arith;
      bytes = λ k lt'.
          let t : (c.index + 1 == k) ≡ false = ground arith in
          elim (Bool-cases (k == length xs)) [
            | inl e ↦
                let u : (c.index == k) ≡ true = ground arith in
                rw (t, u, get_or-snoc xs key k (omega arith), e) refl
            | inr e ↦
                let u : (c.index == k) ≡ false = ground arith in
                rw (t, u, get_or-snoc xs key k (omega arith), e) (p.bytes k (ground arith))
          ];
      nul =
          inr (let t : (c.index + 1 == length (xs ++ key ∷ [])) ≡ true = ground arith in rw t refl);
      chars = All-append (λ x. x ≢ 0) xs (key ∷ []) p.chars (ne, tt);
    }
