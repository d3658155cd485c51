-- ===== src/Input/Queue.antt =====
-- kernel/src/devices/input/input.c: the ring is a queue of at most 127 events.
use nju_os_lab.Prelude.{
  ℕ, suc, ◌+◌, ◌-◌, ◌≤◌, ◌<◌, ◌≡◌, ◌≢◌, refl, true, false, some, List, [], ◌∷◌, ◌++◌, ◌==◌,
  if◌then◌else◌, leb, get_elem?, set, length, length-set, length-append, get_elem?-set_self,
  get_elem?-set_ne, arith, ap, sym, ◌∙◌,
}
use nju_os_lab.Input.{
  InputEvent, Ring, finished, panicked, waiting, next_slot, push_event, take_event, pop_event,
}

-- How many slots there are from `i` to `j` around the ring.
abbrev gap : ℕ → ℕ → ℕ
gap i j = if leb i j then j - i else j + 128 - i

-- The slots from `i` up to `rear` hold these events.
abbrev Slots : List InputEvent → ℕ → ℕ → List InputEvent → Type 0
Slots events i rear [] = i ≡ rear
Slots events i rear (ev ∷ queue) =
    (i ≢ rear) × (get_elem? events i ≡ some ev) × Slots events (next_slot i) rear queue

-- The ring holds the queue, oldest first, and the semaphore counts it.
pub record HoldsQueue (r : Ring) (queue : List InputEvent) : Type 0 where
  pub slots : Slots r.events r.front r.rear queue
  pub size : length r.events ≡ 128
  pub front_inside : r.front < 128
  pub rear_inside : r.rear < 128
  pub counted : r.event_sem ≡ length queue

next-< : (i : ℕ) → next_slot i < 128
next-< i = omega arith

gap-next :
    (i rear : ℕ) → i < 128 → rear < 128 → i ≢ rear → suc (gap (next_slot i) rear) ≡ gap i rear
gap-next i rear hi hr ne = ground arith

not_next : (i : ℕ) → i < 128 → i ≢ next_slot i
not_next i hi e = omega arith

full : (i rear : ℕ) → i < 128 → rear < 128 → gap i rear < 127 → i ≢ next_slot rear
full i rear hi hr room e = ground arith

length-Slots :
    (events : List InputEvent) (i rear : ℕ) (queue : List InputEvent)
    → i < 128
    → rear < 128
    → Slots events i rear queue
    → length queue ≡ gap i rear
length-Slots events i rear [] hi hr s = ground arith
length-Slots events i rear (ev ∷ queue) hi hr s =
    let rest = length-Slots events (next_slot i) rear queue (next-< i) hr s.2 in
    ap suc rest ∙ gap-next i rear hi hr s.0

push-Slots :
    (events : List InputEvent) (i rear : ℕ) (queue : List InputEvent) (ev : InputEvent)
    → length events ≡ 128
    → i < 128
    → rear < 128
    → gap i rear < 127
    → Slots events i rear queue
    → Slots (set events rear ev) i (next_slot rear) (queue ++ ev ∷ [])
push-Slots events i rear [] ev size hi hr room s =
    let here = get_elem?-set_self events rear ev (omega arith) in
    (
      λ e. not_next rear hr (sym s ∙ e),
      ap (λ k. get_elem? (set events rear ev) k) s ∙ here,
      ap next_slot s,
    )
push-Slots events i rear (x ∷ queue) ev size hi hr room s =
    let closer = gap-next i rear hi hr s.0 in
    (
      λ e. full i rear hi hr room e,
      get_elem?-set_ne events rear i ev (λ e. s.0 (sym e)) ∙ s.1,
      push-Slots events (next_slot i) rear queue ev size (next-< i) hr (omega arith) s.2,
    )

has_room : (i rear : ℕ) → i < 128 → rear < 128 → gap i rear < 127 → (next_slot rear == i) ≡ false
has_room i rear hi hr room = ground arith

no_room : (i rear : ℕ) → i < 128 → rear < 128 → 127 ≤ gap i rear → (next_slot rear == i) ≡ true
no_room i rear hi hr many = ground arith

-- `push_event` on a ring with fewer than 127 events puts the event at the end of the queue; on a
-- ring with 127 it panics.
pub push_event-HoldsQueue :
    (r : Ring) (queue : List InputEvent) (ev : InputEvent)
    → HoldsQueue r queue
    → (length queue < 127
        → (r' : Ring) × (push_event ev r ≡ finished r') × HoldsQueue r' (queue ++ ev ∷ []))
      × (127 ≤ length queue → push_event ev r ≡ panicked)
unfolding push_event
push_event-HoldsQueue r queue ev h =
    let len = length-Slots r.events r.front r.rear queue h.front_inside h.rear_inside h.slots in
    let front = h.front_inside in
    let rear = h.rear_inside in
    (
      λ room.
          let free : (next_slot r.rear == r.front) ≡ false =
            has_room r.front r.rear front rear (omega arith) in
          (
            _,
            rw (push_event, free) refl,
            record {
              slots =
                  push-Slots r.events r.front r.rear queue ev h.size front rear (omega arith)
                    h.slots;
              size = length-set r.events r.rear ev ∙ h.size;
              front_inside = front;
              rear_inside = next-< r.rear;
              counted = ap suc h.counted ∙ (omega (arith, length-append queue (ev ∷ [])));
            },
          ),
      λ many.
          let busy : (next_slot r.rear == r.front) ≡ true =
            no_room r.front r.rear front rear (omega arith) in
          rw (push_event, busy) refl,
    )

-- `pop_event` takes the oldest event of the queue; with no event it waits. It does not panic.
pub pop_event-HoldsQueue :
    (r : Ring)
    → (HoldsQueue r [] → pop_event r ≡ waiting)
      × ((ev : InputEvent) (queue : List InputEvent)
          → HoldsQueue r (ev ∷ queue)
          → (r' : Ring) × (pop_event r ≡ finished (ev, r')) × HoldsQueue r' queue)
unfolding pop_event take_event
pop_event-HoldsQueue r = (
  λ h. rw (pop_event, h.counted) refl,
  λ ev queue h.
      let (ne, here, rest) = h.slots in
      let apart : (r.rear == r.front) ≡ false = ground arith in
      (
        _,
        rw (pop_event, h.counted, apart, here) refl,
        record {
          slots = rest;
          size = h.size;
          front_inside = next-< r.front;
          rear_inside = h.rear_inside;
          counted = refl;
        },
      ),
)
