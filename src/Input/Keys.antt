-- ===== src/Input/Keys.antt =====
-- kernel/src/devices/input/input.c: `input_keydown`, with the key codes of abstract-machine/am/amdev.h. The
-- two key maps are parameters.
pub mod Shift
use nju_os_lab.Prelude.{
  ℕ, ◌+◌, ◌-◌, ◌/◌, ◌%◌, ◌^◌, Bool, true, false, Option, none, some, List, [], ◌∷◌, ◌==◌, ◌&&◌,
  ◌||◌, leb, not, if◌then◌else◌,
}
use nju_os_lab.Input.{InputEvent, Ring, Outcome, finished, panicked, waiting, push_event}

-- `capslock`, `shift_down`, `ctrl_down` and `alt_down`.
pub record Keys : Type 0 where
  pub capslock : Bool
  pub lshift : Bool
  pub rshift : Bool
  pub lctrl : Bool
  pub rctrl : Bool
  pub lalt : Bool
  pub ralt : Bool

pub record Keyboard : Type 0 where
  pub ring : Ring
  pub keys : Keys

abbrev pub key_capslock : ℕ
key_capslock = 42

abbrev pub key_lshift : ℕ
key_lshift = 55

-- The cases of the two `switch` statements that set and clear a key; `none` for the other keys.
unfoldable pub set_key : ℕ → Bool → Keys → Option Keys
set_key code v k =
    if code == 67
    then some (record k { lctrl = v })
    else if code == 72
    then some (record k { rctrl = v })
    else if code == 69
    then some (record k { lalt = v })
    else if code == 71
    then some (record k { ralt = v })
    else if code == key_lshift
    then some (record k { lshift = v })
    else if code == 66
    then some (record k { rshift = v })
    else none

abbrev pub flip : Bool → Bool → Bool
flip a true = not a
flip a false = a

module _ (keymap keymap_shift : ℕ → ℕ) where
  -- The event of a key with a character.
  unfoldable pub event_of : ℕ → Keys → InputEvent
  event_of key k =
      let ch = keymap key in
      let ctrl = k.lctrl || k.rctrl in
      let alt = k.lalt || k.ralt in
      let shift = k.lshift || k.rshift in
      let shifted = if leb b'a' ch && leb ch b'z' then flip shift k.capslock else shift in
      if ctrl || alt
      then record { ctrl = ctrl; alt = alt; key = ch }
      else record { ctrl = false; alt = false; key = if shifted then keymap_shift key else ch }

  abbrev pub pushed : Keys → Outcome Ring → Outcome Keyboard
  pushed k (finished r) = finished (record { ring = r; keys = k })
  pushed k panicked = panicked
  pushed k waiting = waiting

  unfoldable pub key_down : ℕ → Keyboard → Outcome Keyboard
  key_down key kb =
      let typed = pushed kb.keys (push_event (event_of key kb.keys) kb.ring) in
      if key == key_capslock
      then finished (record kb { keys = record kb.keys { capslock = not kb.keys.capslock } })
      else elim (set_key key true kb.keys) [
        | some k ↦ finished (record kb { keys = k })
        | none ↦ if keymap key == 0 then finished kb else typed
      ]

  unfoldable pub key_up : ℕ → Keyboard → Outcome Keyboard
  key_up code kb = elim (set_key code false kb.keys) [
    | some k ↦ finished (record kb { keys = k })
    | none ↦ finished kb
  ]

  -- Bit 15 of the code, a 16-bit number, tells a press from a release.
  unfoldable pub input_keydown : ℕ → Keyboard → Outcome Keyboard
  input_keydown code kb = if leb (2 ^ 15) code then key_down (code - 2 ^ 15) kb else key_up code kb

  -- The inner loop of `input_task` over the codes that `read_key` gives.
  unfoldable pub all_codes : List ℕ → Keyboard → Outcome Keyboard
  all_codes [] kb = finished kb
  all_codes (code ∷ codes) kb = elim (input_keydown code kb) [
    | finished kb' ↦ all_codes codes kb'
    | panicked ↦ panicked
    | waiting ↦ waiting
  ]
