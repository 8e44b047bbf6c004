-- ===== src/Keyboard/Script.antt =====
-- Interrupts and reads of bees/keyboard/keyboard.c in any order, against a queue of events.
use hive_rk.Prelude.{ℕ, suc, ◌-◌, ◌<◌, ◌≡◌, refl, arith, ◌∙◌, ap, bit_and}
use hive_rk.Prelude.{List, [], ◌∷◌, ◌++◌, length, length-append, subst}
use hive_rk.Keyboard.{GlobalData, enqueue, get_key, is_there_data, event, next_shift}
use hive_rk.Keyboard.{interrupt_handler}
use hive_rk.Keyboard.Ring.{IsRing, pending, Takes, get_key-Takes, enqueue_appends}

-- What happens to the module: an interrupt with the two bytes that the handler reads, or a command.
pub data Action : Type 0 where
  interrupt : ℕ → ℕ → Action
  take : Action
  poll : Action

-- The values that the commands store, in order.
unfoldable pub run : GlobalData → List Action → List ℕ
run g [] = []
run g (interrupt a b ∷ acts) = run (interrupt_handler a b g) acts
run g (take ∷ acts) = (get_key g).0 ∷ run (get_key g).1 acts
run g (poll ∷ acts) = is_there_data g ∷ run g acts

-- The same from a queue of events and the shift field.
pub model : List ℕ → ℕ → List Action → List ℕ
model q shift [] = []
model q shift (interrupt a b ∷ acts) =
    let s = next_shift shift (bit_and b 0x7F) (bit_and b 0x80) in
    model (q ++ event s (bit_and b 0x7F) (bit_and b 0x80) ∷ []) s acts
model [] shift (take ∷ acts) = 0 ∷ model [] shift acts
model (e ∷ q) shift (take ∷ acts) = e ∷ model q shift acts
model [] shift (poll ∷ acts) = 0 ∷ model [] shift acts
model (e ∷ q) shift (poll ∷ acts) = 1 ∷ model (e ∷ q) shift acts

-- Never more than 63 events wait.
abbrev pub Fits : ℕ → List Action → Type 0
Fits n [] = Unit {0}
Fits n (interrupt a b ∷ acts) = (n < 63) × Fits (suc n) acts
Fits n (take ∷ acts) = Fits (n - 1) acts
Fits n (poll ∷ acts) = Fits n acts

sub_one : (n : ℕ) → suc n - 1 ≡ n
sub_one n = omega arith

shift-get_key : (g : GlobalData) → (get_key g).1.shift ≡ g.shift
unfolding get_key
shift-get_key g = ground arith

-- The shift field after an interrupt, and the event that it stores.
abbrev shift_of : ℕ → ℕ → ℕ
shift_of shift b = next_shift shift (bit_and b 0x7F) (bit_and b 0x80)

abbrev event_of : ℕ → ℕ → ℕ
event_of shift b = event (shift_of shift b) (bit_and b 0x7F) (bit_and b 0x80)

interrupt_appends :
    (a b : ℕ) (g : GlobalData) (q : List ℕ)
    → IsRing g
    → pending g ≡ q
    → length q < 63
    → IsRing (interrupt_handler a b g)
      × (pending (interrupt_handler a b g) ≡ q ++ event_of g.shift b ∷ [])
      × ((interrupt_handler a b g).shift ≡ shift_of g.shift b)
unfolding interrupt_handler enqueue
interrupt_appends a b g q r e lt =
    let g' : GlobalData = record g { shift = shift_of g.shift b } in
    let r' : IsRing g' = omega (arith, r.head_in) in
    let room : length (pending g') < 63 = omega (arith, ap length e) in
    let (ring, appended) = enqueue_appends (event_of g.shift b) g' r' room in
    (ring, appended ∙ ap (λ l. l ++ event_of g.shift b ∷ []) e, refl)

-- In any order of interrupts and commands in which never more than 63 events wait, the commands
-- store what a queue of events gives: each event once, in the order of the interrupts.
pub run-model :
    (acts : List Action) (g : GlobalData) (q : List ℕ)
    → IsRing g
    → pending g ≡ q
    → Fits (length q) acts
    → run g acts ≡ model q g.shift acts
unfolding run model
run-model [] g q r e f = refl
run-model (interrupt a b ∷ acts) g q r e f =
    let (ring, appended, shift) = interrupt_appends a b g q r e f.0 in
    let len : length (q ++ event_of g.shift b ∷ []) ≡ suc (length q) =
      omega (arith, length-append q (event_of g.shift b ∷ [])) in
    run-model acts (interrupt_handler a b g) (q ++ event_of g.shift b ∷ []) ring appended
      (rw len f.1)
    ∙ rw shift
run-model (take ∷ acts) g [] r e f =
    let (ring, t) = get_key-Takes g r in
    let t' = subst (Takes g) e t in
    rw (t'.0, run-model acts (get_key g).1 [] ring t'.1 f, shift-get_key g)
run-model (take ∷ acts) g (k ∷ q) r e f =
    let (ring, t) = get_key-Takes g r in
    let t' = subst (Takes g) e t in
    let f' : Fits (length q) acts = subst (λ n. Fits n acts) (sub_one (length q)) f in
    rw (t'.0, run-model acts (get_key g).1 q ring t'.1 f', shift-get_key g)
run-model (poll ∷ acts) g [] r e f =
    let t' = subst (Takes g) e (get_key-Takes g r).1 in rw (t'.2, run-model acts g [] r e f)
run-model (poll ∷ acts) g (k ∷ q) r e f =
    let t' = subst (Takes g) e (get_key-Takes g r).1 in rw (t'.2, run-model acts g (k ∷ q) r e f)
