-- ===== src/Input/Service.antt =====
-- kernel/src/devices/input/input.c: the keyboard and its readers, in any order.
use nju_os_lab.Prelude.{
  ℕ, ◌≡◌, refl, Option, none, some, List, [], ◌∷◌, ◌++◌, leb, ltb, if◌then◌else◌, length, arith,
  Bool-cases, inl, inr, ap,
}
use nju_os_lab.Input.{
  InputEvent, Ring, Outcome, finished, panicked, waiting, push_event, input_init, input_read,
}
use nju_os_lab.Input.Queue.{HoldsQueue, push_event-HoldsQueue, pop_event-HoldsQueue}

-- The keyboard has an event, or a task reads.
pub data Request : Type 0 where
  pushes : InputEvent → Request
  reads : ℕ → Request

abbrev pub Answer : Type 0
Answer = ℕ × Option InputEvent

-- The answers to the reads, and how the last request ended.
abbrev pub Answers : Type 0
Answers = List Answer × Outcome (Unit {0})

abbrev pub answered : Answer → Answers → Answers
answered a (answers, end) = (a ∷ answers, end)

unfoldable pub run_ring : List Request → Ring → Answers
run_ring [] r = ([], finished tt)
run_ring (pushes ev ∷ requests) r = elim (push_event ev r) [
  | finished r' ↦ run_ring requests r'
  | panicked ↦ ([], panicked)
  | waiting ↦ ([], waiting)
]
run_ring (reads count ∷ requests) r = elim (input_read count r) [
  | finished (a, r') ↦ answered a (run_ring requests r')
  | panicked ↦ ([], panicked)
  | waiting ↦ ([], waiting)
]

-- The queue that the ring is to be: it has room for 127 events, and a read takes the oldest, also where the reader has no room for it.
unfoldable pub run_queue : List Request → List InputEvent → Answers
run_queue [] queue = ([], finished tt)
run_queue (pushes ev ∷ requests) queue =
    let later = run_queue requests (queue ++ ev ∷ []) in
    if ltb (length queue) 127 then later else ([], panicked)
run_queue (reads count ∷ requests) [] = ([], waiting)
run_queue (reads count ∷ requests) (ev ∷ queue) =
    answered (if leb 4 count then (4, some ev) else (0, none)) (run_queue requests queue)

run_ring-HoldsQueue :
    (requests : List Request) (r : Ring) (queue : List InputEvent)
    → HoldsQueue r queue
    → run_ring requests r ≡ run_queue requests queue
unfolding run_ring run_queue input_read
run_ring-HoldsQueue [] r queue h = refl
run_ring-HoldsQueue (pushes ev ∷ requests) r queue h =
    let (room, full) = push_event-HoldsQueue r queue ev h in
    elim (Bool-cases (ltb (length queue) 127)) [
      | inl q ↦
          let (r', e, h') = room (ground (arith, q)) in
          rw (run_ring, e, q) (run_ring-HoldsQueue requests r' (queue ++ ev ∷ []) h')
      | inr q ↦ rw (run_ring, full (ground (arith, q)), q) refl
    ]
run_ring-HoldsQueue (reads count ∷ requests) r [] h =
    rw (run_ring, input_read, (pop_event-HoldsQueue r).0 h) refl
run_ring-HoldsQueue (reads count ∷ requests) r (ev ∷ queue) h =
    let (r', e, h') = (pop_event-HoldsQueue r).1 ev queue h in
    rw (run_ring, input_read, e)
      (ap (λ a. answered (if leb 4 count then (4, some ev) else (0, none)) a)
        (run_ring-HoldsQueue requests r' queue h'))

input_init-HoldsQueue : HoldsQueue input_init []
unfolding input_init
input_init-HoldsQueue = record {
  slots = refl;
  size = refl;
  front_inside = omega arith;
  rear_inside = omega arith;
  counted = refl;
}

-- From `input_init` on, events of the keyboard and reads in any order do what they do to a queue with room for 127 events: a read returns the oldest event that was not
-- read, or waits if there is none, and the kernel panics at the first event that has no room.
pub run_ring-run_queue :
    (requests : List Request) → run_ring requests input_init ≡ run_queue requests []
run_ring-run_queue requests = run_ring-HoldsQueue requests input_init [] input_init-HoldsQueue
