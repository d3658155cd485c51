-- ===== src/Input.antt =====
-- kernel/src/devices/input/input.c: the keyboard's ring of events, and the state of the keys.
pub mod Queue
pub mod Keys
pub mod Service
mod Tests
use nju_os_lab.Prelude.{
  ℕ, zero, suc, ◌+◌, ◌%◌, Bool, true, false, Option, none, some, List, ◌==◌, leb, replicate,
  if◌then◌else◌, get_elem?, set,
}

-- `NEVENTS`.
abbrev pub events_size : ℕ
events_size = 128

-- `struct input_event`; `key` is its field `data`.
pub record InputEvent : Type 0 where
  pub ctrl : Bool
  pub alt : Bool
  pub key : ℕ

-- The ring of `input_t`, and the value of the semaphore `event_sem`.
pub record Ring : Type 0 where
  pub events : List InputEvent
  pub front : ℕ
  pub rear : ℕ
  pub event_sem : ℕ

-- What a call does: it ends, panics, or waits at the semaphore.
pub data Outcome (A : Type 0) : Type 0 where
  finished : A → Outcome A
  panicked waiting : Outcome A

abbrev pub next_slot : ℕ → ℕ
next_slot i = (i + 1) % events_size

unfoldable pub push_event : InputEvent → Ring → Outcome Ring
push_event ev r =
    if next_slot r.rear == r.front
    then panicked
    else finished (record r {
      events = set r.events r.rear ev;
      rear = next_slot r.rear;
      event_sem = suc r.event_sem;
    })

-- The case of an event number outside the ring does not arise while the ring is well formed.
unfoldable pub take_event : Ring → Outcome (InputEvent × Ring)
take_event r = if r.rear == r.front then panicked else elim (get_elem? r.events r.front) [
  | none ↦ panicked
  | some ev ↦ finished (ev, record r { front = next_slot r.front })
]

unfoldable pub pop_event : Ring → Outcome (InputEvent × Ring)
pop_event r = elim r.event_sem [ zero ↦ waiting | suc n ↦ take_event (record r { event_sem = n }) ]

-- `input_init`, with memory that `pmm` has cleared.
unfoldable pub input_init : Ring
input_init = record {
  events = replicate events_size (record { ctrl = false; alt = false; key = 0 });
  front = 0;
  rear = 0;
  event_sem = 0;
}

-- What `input_read` returns, and what it puts into `buf`. An event has 4 bytes.
abbrev pub event_read : ℕ → Outcome (InputEvent × Ring) → Outcome ((ℕ × Option InputEvent) × Ring)
event_read count (finished (ev, r)) = finished (if leb 4 count then (4, some ev) else (0, none), r)
event_read count panicked = panicked
event_read count waiting = waiting

unfoldable pub input_read : ℕ → Ring → Outcome ((ℕ × Option InputEvent) × Ring)
input_read count r = event_read count (pop_event r)
