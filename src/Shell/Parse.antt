-- ===== src/Shell/Parse.antt =====
-- `parseArgs` of queen/main.c splits a line at its spaces.
use hive_rk.Prelude.{ℕ, zero, suc, ◌+◌, ◌≤◌, ◌<◌, ◌≡◌, ◌≢◌, refl, ◌∙◌, arith}
use hive_rk.Prelude.{◌==◌, store, true, false, Option, some}
use hive_rk.Prelude.{List, [], ◌∷◌, ◌++◌, length, length-append, replicate, length-replicate}
use hive_rk.Shell.{copy_word, parse_from, parse_args}
use hive_rk.Shell.Words.{IsText, IsWord, Stops, copy_word_lem, Starts, skip_spaces_lem}

-- A line: words, each with the number of spaces behind it.
abbrev pub Line : Type 0
Line = List (List ℕ × ℕ)

abbrev pub spelled : Line → List ℕ
spelled [] = []
spelled ((w, g) ∷ rest) = w ++ (replicate g 32 ++ spelled rest)

-- There are spaces between words, and only the first word may be empty, in front of spaces.
abbrev pub IsLine : Line → Type 0
IsLine [] = ⊥
IsLine ((w, g) ∷ []) = IsWord w
IsLine ((w, g) ∷ (w', g') ∷ rest) = IsWord w × (1 ≤ g) × (w' ≢ []) × IsLine ((w', g') ∷ rest)

-- The word of a number; there is an empty one behind the last.
abbrev pub word_of : Line → ℕ → List ℕ
word_of [] m = []
word_of ((w, g) ∷ rest) zero = w
word_of ((w, g) ∷ rest) (suc m) = word_of rest m

spaces-Stops : (g : ℕ) (rest : List ℕ) → 1 ≤ g → Stops (replicate g 32 ++ rest)
spaces-Stops zero rest le = absurd (omega arith)
spaces-Stops (suc g) rest le = refl

last-Stops : (g : ℕ) → Stops (replicate g 32 ++ [])
last-Stops zero = tt
last-Stops (suc g) = refl

-- What a line behind spaces starts with.
word-Starts : (base : ℕ → ℕ) (w rest : List ℕ) → w ≢ [] → IsWord w → Starts base (w ++ rest)
word-Starts base [] rest ne word = absurd (ne refl)
word-Starts base (c ∷ w) rest ne word = word.0

word_there :
    (base : ℕ → ℕ) (i : ℕ) (w rest : List ℕ) → w ≢ [] → IsText base i (w ++ rest) → base i ≢ 0
word_there base i [] rest ne h = absurd (ne refl)
word_there base i (c ∷ w) rest ne h = ground (arith, h.0, h.1)

IsLine-IsWord : (w : List ℕ) (g : ℕ) (rest : Line) → IsLine ((w, g) ∷ rest) → IsWord w
IsLine-IsWord w g [] h = h
IsLine-IsWord w g (x ∷ rest) h = h.0

module _ (base : ℕ → ℕ) (fuel : ℕ) where
  -- The buffers from `k` on hold the words, and those in front stay.
  record Parsed (n k : ℕ) (l : Line) (args : ℕ → ℕ → ℕ) (out : Option (ℕ → ℕ → ℕ)) : Type 0 where
    after : ℕ → ℕ → ℕ
    runs : out ≡ some after
    words : (m : ℕ) → m < n → IsText (after (k + m)) 0 (word_of l m)
    front : (j : ℕ) → j < k → after j ≡ args j

  spaced :
      (w : List ℕ) (g : ℕ) (rest : Line)
      → IsLine ((w, g) ∷ rest)
      → Stops (replicate g 32 ++ spelled rest)
  spaced w g [] h = last-Stops g
  spaced w g ((w', g') ∷ rest) h = spaces-Stops g (spelled ((w', g') ∷ rest)) h.1

  -- The first word of what is left of a line.
  first_word :
      (w : List ℕ) (g : ℕ) (rest : Line) (i : ℕ) (s : ℕ → ℕ)
      → IsLine ((w, g) ∷ rest)
      → length (spelled ((w, g) ∷ rest)) < fuel
      → IsText base i (spelled ((w, g) ∷ rest))
      → s 0 ≡ 0
      → (s' : ℕ → ℕ) × (copy_word fuel i 0 base s ≡ some (i + length w, s'))
        × IsText s' 0 w
        × IsText base (i + length w) (replicate g 32 ++ spelled rest)
  first_word w g rest i s line enough h blank =
      let n = length-append w (replicate g 32 ++ spelled rest) in
      let (s', runs, text, below, left) =
        copy_word_lem base w (replicate g 32 ++ spelled rest) fuel i 0 s (omega (arith, n))
          (IsLine-IsWord w g rest line) (spaced w g rest line) h blank in
      (s', runs, text, left)

  gap-length :
      (w : List ℕ) (g : ℕ) (rest : Line)
      → length (spelled ((w, g) ∷ rest)) ≡ length w + (g + length (spelled rest))
  gap-length w g rest =
      let a = length-append w (replicate g 32 ++ spelled rest) in
      let b = length-append (replicate g 32) (spelled rest) in
      let c = length-replicate {A = ℕ} g 32 in omega (arith, a, b, c)

  -- A buffer that is written is the one of its number.
  written :
      (args : ℕ → ℕ → ℕ) (k : ℕ) (s : ℕ → ℕ) (w : List ℕ)
      → IsText s 0 w
      → IsText (store args k s (k + 0)) 0 w
  written args k s w text =
      let z : k + 0 ≡ k = omega arith in
      let self : (k == k) ≡ true = ground arith in rw (z, self) text

  blank_later :
      (args : ℕ → ℕ → ℕ) (k : ℕ) (s : ℕ → ℕ)
      → ((j : ℕ) → k ≤ j → args j 0 ≡ 0)
      → (j : ℕ) → k + 1 ≤ j
      → store args k s j 0 ≡ 0
  blank_later args k s blank j le =
      let t : (k == j) ≡ false = ground arith in rw t (blank j (omega arith))

  kept_front : (args : ℕ → ℕ → ℕ) (k : ℕ) (s : ℕ → ℕ) (j : ℕ) → j < k → store args k s j ≡ args j
  kept_front args k s j lt = let t : (k == j) ≡ false = ground arith in rw t refl

  -- The line ends behind the word.
  last_word :
      (w : List ℕ) (g n k : ℕ) (args : ℕ → ℕ → ℕ) (s : ℕ → ℕ) (out : Option (ℕ → ℕ → ℕ))
      → IsText s 0 w
      → ((j : ℕ) → k ≤ j → args j 0 ≡ 0)
      → out ≡ some (store args k s)
      → Parsed n k ((w, g) ∷ []) args out
  last_word w g n k args s out text blank e = record {
    after = store args k s;
    runs = e;
    words = λ m lt. go m;
    front = kept_front args k s;
  }
    where
      go : (m : ℕ) → IsText (store args k s (k + m)) 0 (word_of ((w, g) ∷ []) m)
      go zero = written args k s w text
      go (suc m) = blank_later args k s blank (k + suc m) (omega arith)

  next_word :
      (w : List ℕ) (g n k : ℕ) (rest : Line) (args : ℕ → ℕ → ℕ) (s : ℕ → ℕ)
      (out : Option (ℕ → ℕ → ℕ))
      → IsText s 0 w
      → Parsed n (k + 1) rest (store args k s) out
      → Parsed (suc n) k ((w, g) ∷ rest) args out
  next_word w g n k rest args s out text p = record {
    after = p.after;
    runs = p.runs;
    words = go;
    front = λ j lt. p.front j (omega arith) ∙ kept_front args k s j lt;
  }
    where
      go : (m : ℕ) → m < suc n → IsText (p.after (k + m)) 0 (word_of ((w, g) ∷ rest) m)
      go zero lt =
          let z : k + 0 ≡ k = omega arith in
          let e : p.after (k + 0) ≡ store args k s (k + 0) = rw z (p.front k (omega arith)) in
          rw e (written args k s w text)
      go (suc m) lt = let q : k + suc m ≡ k + 1 + m = omega arith in rw q (p.words m (omega arith))

  parse_from_lem :
      (l : Line) (n k i : ℕ) (args : ℕ → ℕ → ℕ)
      → IsLine l
      → length (spelled l) < fuel
      → IsText base i (spelled l)
      → ((j : ℕ) → k ≤ j → args j 0 ≡ 0)
      → Parsed n k l args (parse_from fuel n k i base args)
  unfolding parse_from
  parse_from_lem l zero k i args line enough h blank = record {
    after = args;
    runs = refl;
    words = λ m lt. absurd (omega arith);
    front = λ j lt. refl;
  }
  parse_from_lem [] (suc n) k i args line enough h blank = absurd line
  parse_from_lem ((w, g) ∷ rest) (suc zero) k i args line enough h blank =
      let (s, runs, text, left) =
        first_word w g rest i (args k) line enough h (blank k (omega arith)) in
      next_word w g 0 k rest args s _ text (record {
        after = store args k s;
        runs = rw runs refl;
        words = λ m lt. absurd (omega arith);
        front = λ j lt. refl;
      })
  parse_from_lem ((w, g) ∷ []) (suc (suc n)) k i args line enough h blank =
      let (s, runs, text, left) =
        first_word w g [] i (args k) line enough h (blank k (omega arith)) in
      let (skips, end) =
        skip_spaces_lem base g [] fuel (i + length w) (omega (arith, gap-length w g [])) tt left in
      last_word w g (suc (suc n)) k args s _ text blank (rw (runs, skips, end) refl)
  parse_from_lem ((w, g) ∷ (w', g') ∷ rest) (suc (suc n)) k i args line enough h blank =
      let l = (w', g') ∷ rest in
      let (s, runs, text, left) =
        first_word w g l i (args k) line enough h (blank k (omega arith)) in
      let len = gap-length w g l in
      let (skips, there) =
        skip_spaces_lem base g (spelled l) fuel (i + length w) (omega (arith, len))
          (word-Starts base w' (replicate g' 32 ++ spelled rest) line.2
            (IsLine-IsWord w' g' rest line.3))
          left in
      let ne =
        word_there base (i + length w + g) w' (replicate g' 32 ++ spelled rest) line.2 there in
      let t : (base (i + length w + g) == 0) ≡ false = ground arith in
      next_word w g (suc n) k l args s _ text (
        rw (runs, skips, t)
          (parse_from_lem l (suc n) (k + 1) (i + length w + g) (store args k s) line.3
            (omega (arith, len)) there (blank_later args k s blank)))

-- `parseArgs` of a line of words with spaces between them, and perhaps in front and behind, with fuel
-- for one round more than the line has bytes, returns with each of the first five words in the buffer
-- of its number, and an empty text in the buffers behind the last word.
pub parse_args_lem :
    (l : Line) (fuel : ℕ) (base : ℕ → ℕ) (args : ℕ → ℕ → ℕ)
    → IsLine l
    → length (spelled l) < fuel
    → IsText base 0 (spelled l)
    → (after : ℕ → ℕ → ℕ) × (parse_args fuel base args ≡ some after)
      × ((m : ℕ) → m < 5 → IsText (after m) 0 (word_of l m))
unfolding parse_args
parse_args_lem l fuel base args line enough h =
    let p =
      parse_from_lem base fuel l 5 0 0 (λ k. store (args k) 0 0) line enough h (λ j le. refl) in
    (p.after, p.runs, λ m lt. let z : 0 + m ≡ m = omega arith in rw z at (p.words m lt))
