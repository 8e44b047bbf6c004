-- ===== src/Keyboard/Tests.antt =====
-- Runs of bees/keyboard/keyboard.c, and its theorems at concrete inputs.
use hive_rk.Prelude.{◌≡◌, refl, List, [], ◌∷◌, arith}
use hive_rk.Keyboard.{GlobalData, make_key_event, key_map, shift_map, interrupt_handler, enqueue}
use hive_rk.Keyboard.{get_key, is_there_data, next_shift, event}
use hive_rk.Keyboard.Event.{Handles, interrupt_handler-Handles}
use hive_rk.Keyboard.Maps.{has_char, letter, upper, shift_map_agrees}
use hive_rk.Keyboard.Ring.{IsRing, pending, enqueue_overflows}
use hive_rk.Keyboard.Script.{Action, interrupt, take, poll, run, model, run-model}

abbrev fresh : GlobalData
fresh = record { buffer = λ i. i; head = 0; tail = 0; shift = 0 }

-- 63 events wait, with the values 1 to 63 in the cells after the first.
abbrev full : GlobalData
full = record { buffer = λ i. i; head = 0; tail = 1; shift = 0 }

abbrev script : List Action
script = poll ∷ interrupt 0 0x2A ∷ interrupt 0 0x1E ∷ poll ∷ take ∷ take ∷ take ∷ []

-- The key A with shift: the event of the shift key, then 'A' with its scan code and modifier.
script_runs : run fresh script ≡ 0 ∷ 1 ∷ 0x012A00 ∷ 0x011E41 ∷ 0 ∷ []
unfolding run interrupt_handler get_key is_there_data next_shift event make_key_event enqueue
    key_map shift_map
script_runs = refl

interrupt_handler-Handles_example : Handles 0x2A fresh (interrupt_handler 0 0x2A fresh)
interrupt_handler-Handles_example = interrupt_handler-Handles 0 0x2A fresh (omega arith)

shift_map_agrees_example :
    (has_char (shift_map 30) ≡ has_char (key_map 30))
    × (letter (key_map 30) (shift_map 30) ≡ upper (key_map 30))
shift_map_agrees_example = shift_map_agrees 30 (omega arith)

enqueue_overflows_example : IsRing (enqueue 7 full) × (pending (enqueue 7 full) ≡ [])
enqueue_overflows_example = enqueue_overflows 7 full (omega arith) refl

run-model_example : run fresh script ≡ model [] 0 script
run-model_example = run-model script fresh [] (omega arith) refl (omega arith)
