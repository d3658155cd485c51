-- ===== src/Input/Tests.antt =====
-- kernel/src/devices/input/input.c: the ring at its end, with one event in it.
use nju_os_lab.Prelude.{
  take, some, none, ◌==◌, if◌then◌else◌, ℕ, ◌≡◌, refl, false, List, [], ◌∷◌, replicate, arith,
}
use nju_os_lab.Input.{waiting, input_init, InputEvent, Ring, Outcome, finished, push_event}
use nju_os_lab.Input.Keys.{
  Keys, Keyboard, all_codes, input_keydown, key_down, key_up, set_key, event_of,
}
use nju_os_lab.Input.Keys.Shift.{shift_history, all_codes_lem}
use nju_os_lab.Input.Queue.{HoldsQueue}
use nju_os_lab.Input.Service.{pushes, reads, run_ring, run_queue, run_ring-run_queue}

abbrev press : ℕ → InputEvent
press k = record { ctrl = false; alt = false; key = k }

abbrev last_slot : Ring
last_slot = record { events = replicate 128 (press 97); front = 127; rear = 0; event_sem = 1 }

last_slot-HoldsQueue : HoldsQueue last_slot (press 97 ∷ [])
last_slot-HoldsQueue = record {
  slots = (omega arith, refl, refl);
  size = refl;
  front_inside = omega arith;
  rear_inside = omega arith;
  counted = refl;
}

-- The second read has no room for its event.
run_ring-run_queue_example :
    run_ring (pushes (press 97) ∷ pushes (press 98) ∷ reads 4 ∷ reads 2 ∷ reads 4 ∷ []) input_init
    ≡ ((4, some (press 97)) ∷ (0, none) ∷ [], waiting)
unfolding run_queue
run_ring-run_queue_example =
    run_ring-run_queue (pushes (press 97) ∷ pushes (press 98) ∷ reads 4 ∷ reads 2 ∷ reads 4 ∷ [])

abbrev no_keys : Keys
no_keys = record {
  capslock = false;
  lshift = false;
  rshift = false;
  lctrl = false;
  rctrl = false;
  lalt = false;
  ralt = false;
}

-- The key 43 is the letter a.
abbrev map : ℕ → ℕ
map key = if key == 43 then b'a' else 0

abbrev map_shift : ℕ → ℕ
map_shift key = if key == 43 then b'A' else 0

abbrev start : Keyboard
start = record { ring = last_slot; keys = no_keys }

-- Shift down, the letter, shift up.
abbrev codes : List ℕ
codes = 32823 ∷ 32811 ∷ 55 ∷ []

abbrev typed : Outcome Keyboard → List InputEvent
typed (finished kb) = take 1 kb.ring.events
typed _ = []

all_codes-typed : typed (all_codes map map_shift codes start) ≡ press b'A' ∷ []
unfolding all_codes input_keydown key_down key_up set_key event_of push_event
all_codes-typed = refl

all_codes_lem_example :
    (kb' : Keyboard) × (queue' : List InputEvent) × (all_codes map map_shift codes start
      ≡ finished kb')
    × HoldsQueue kb'.ring queue'
    × (kb'.keys.lshift ≡ shift_history codes false)
all_codes_lem_example =
    all_codes_lem map map_shift codes start (press 97 ∷ []) (omega arith) last_slot-HoldsQueue
