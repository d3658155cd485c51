-- ===== src/Input/Keys/Shift.antt =====
-- kernel/src/devices/input/input.c: what `input_keydown` makes of a sequence of codes.
use nju_os_lab.Prelude.{
  ℕ, suc, ◌+◌, ◌-◌, ◌^◌, ◌≤◌, ◌<◌, ◌≡◌, refl, Bool, true, false, Option, none, some, List, [], ◌∷◌,
  ◌++◌, ◌==◌, leb, not, length, if◌then◌else◌, arith, Bool-cases, Option-cases, inl, inr, ap, ◌∙◌,
  length-append,
}
use nju_os_lab.Input.{InputEvent, Outcome, finished}
use nju_os_lab.Input.Queue.{HoldsQueue, push_event-HoldsQueue}
use nju_os_lab.Input.Keys.{
  Keys, Keyboard, key_capslock, key_lshift, set_key, event_of, key_down, key_up, input_keydown,
  all_codes,
}

-- Whether the left shift key is down after a code.
abbrev pub shift_after : ℕ → Bool → Bool
shift_after code b =
    if code == 2 ^ 15 + key_lshift then true else if code == key_lshift then false else b

-- What `set_key` does to that key.
abbrev Lshift : ℕ → Bool → Keys → Option Keys → Type 0
Lshift code v k none = (code == key_lshift) ≡ false
Lshift code v k (some k') = k'.lshift ≡ (if code == key_lshift then v else k.lshift)

set_key-Lshift : (code : ℕ) (v : Bool) (k : Keys) → Lshift code v k (set_key code v k)
unfolding set_key
set_key-Lshift code v k = ground arith

after_up :
    (code : ℕ) (b : Bool)
    → code < 2 ^ 15
    → (if code == key_lshift then false else b) ≡ shift_after code b
after_up code b low = ground arith

after_down :
    (key : ℕ) (b : Bool) → (if key == key_lshift then true else b) ≡ shift_after (2 ^ 15 + key) b
after_down key b = ground arith

unchanged :
    (key : ℕ) (v b : Bool) → (key == key_lshift) ≡ false → b ≡ (if key == key_lshift then v else b)
unchanged key v b e = rw e refl

abbrev pub shift_history : List ℕ → Bool → Bool
shift_history [] b = b
shift_history (code ∷ codes) b = shift_history codes (shift_after code b)

module _ (keymap keymap_shift : ℕ → ℕ) where
  -- The call ends, with the ring well formed and at most one event longer.
  abbrev Handled : ℕ → ℕ → Bool → Outcome Keyboard → Type 0
  Handled code n b o =
      (kb' : Keyboard) × (queue' : List InputEvent) × (o ≡ finished kb')
      × HoldsQueue kb'.ring queue'
      × (length queue' ≤ suc n)
      × (kb'.keys.lshift ≡ shift_after code b)

  key_up-Handled :
      (code : ℕ) (kb : Keyboard) (queue : List InputEvent)
      → code < 2 ^ 15
      → HoldsQueue kb.ring queue
      → Handled code (length queue) kb.keys.lshift (key_up keymap keymap_shift code kb)
  unfolding key_up
  key_up-Handled code kb queue low h = elim (Option-cases (set_key code false kb.keys)) [
    | inl e ↦
        let other : (code == key_lshift) ≡ false = rw e at (set_key-Lshift code false kb.keys) in
        (
          kb,
          queue,
          rw (key_up, e) refl,
          h,
          omega arith,
          unchanged code false kb.keys.lshift other ∙ after_up code _ low,
        )
    | inr (k, e) ↦
        let state = rw e at (set_key-Lshift code false kb.keys) in
        (
          record kb { keys = k },
          queue,
          rw (key_up, e) refl,
          h,
          omega arith,
          state ∙ after_up code _ low,
        )
  ]

  key_down-Handled :
      (key : ℕ) (kb : Keyboard) (queue : List InputEvent)
      → length queue < 127
      → HoldsQueue kb.ring queue
      → Handled (2 ^ 15 + key) (length queue) kb.keys.lshift (key_down keymap keymap_shift key kb)
  unfolding key_down
  key_down-Handled key kb queue room h = elim (Bool-cases (key == key_capslock)) [
    | inl caps ↦
        let other : (key == key_lshift) ≡ false = ground arith in
        (
          record kb { keys = record kb.keys { capslock = not kb.keys.capslock } },
          queue,
          rw (key_down, caps) refl,
          h,
          omega arith,
          unchanged key true kb.keys.lshift other ∙ after_down key _,
        )
    | inr plain ↦ elim (Option-cases (set_key key true kb.keys)) [
      | inr (k, e) ↦
          let state = rw e at (set_key-Lshift key true kb.keys) in
          (
            record kb { keys = k },
            queue,
            rw (key_down, plain, e) refl,
            h,
            omega arith,
            state ∙ after_down key _,
          )
      | inl e ↦
          let other : (key == key_lshift) ≡ false = rw e at (set_key-Lshift key true kb.keys) in
          let same = unchanged key true kb.keys.lshift other ∙ after_down key _ in
          elim (Bool-cases (keymap key == 0)) [
            | inl silent ↦ (kb, queue, rw (key_down, plain, e, silent) refl, h, omega arith, same)
            | inr typed ↦
                let ev = event_of keymap keymap_shift key kb.keys in
                let (r, er, h') = (push_event-HoldsQueue kb.ring queue ev h).0 room in
                (
                  record { ring = r; keys = kb.keys },
                  queue ++ ev ∷ [],
                  rw (key_down, plain, e, typed, er) refl,
                  h',
                  omega (arith, length-append queue (ev ∷ [])),
                  same,
                )
          ]
    ]
  ]

  input_keydown-Handled :
      (code : ℕ) (kb : Keyboard) (queue : List InputEvent)
      → length queue < 127
      → HoldsQueue kb.ring queue
      → Handled code (length queue) kb.keys.lshift (input_keydown keymap keymap_shift code kb)
  unfolding input_keydown
  input_keydown-Handled code kb queue room h = elim (Bool-cases (leb (2 ^ 15) code)) [
    | inl down ↦
        let whole : 2 ^ 15 + (code - 2 ^ 15) ≡ code = ground arith in
        let (kb', queue', e, h', len, state) = key_down-Handled (code - 2 ^ 15) kb queue room h in
        (
          kb',
          queue',
          rw (input_keydown, down) e,
          h',
          len,
          state ∙ ap (λ c. shift_after c kb.keys.lshift) whole,
        )
    | inr up ↦
        let low : code < 2 ^ 15 = ground arith in
        let (kb', queue', e, h', len, state) = key_up-Handled code kb queue low h in
        (kb', queue', rw (input_keydown, up) e, h', len, state)
  ]

  -- While the ring has room for one event more for each code, `input_keydown` of any codes in any order
  -- ends without a panic and leaves a well-formed ring; and the left shift key counts as down exactly if the last of the
  -- codes that press or release it pressed it, or, with no such code, if it did before.
  pub all_codes_lem :
      (codes : List ℕ) (kb : Keyboard) (queue : List InputEvent)
      → length queue + length codes ≤ 127
      → HoldsQueue kb.ring queue
      → (kb' : Keyboard) × (queue' : List InputEvent) × (all_codes keymap keymap_shift codes kb
          ≡ finished kb')
        × HoldsQueue kb'.ring queue'
        × (kb'.keys.lshift ≡ shift_history codes kb.keys.lshift)
  unfolding all_codes
  all_codes_lem [] kb queue room h = (kb, queue, refl, h, refl)
  all_codes_lem (code ∷ codes) kb queue room h =
      let (kb1, queue1, e1, h1, len1, state1) =
        input_keydown-Handled code kb queue (omega arith) h in
      let (kb2, queue2, e2, h2, state2) = all_codes_lem codes kb1 queue1 (omega arith) h1 in
      (kb2, queue2, rw (all_codes, e1) e2, h2, state2 ∙ ap (shift_history codes) state1)
