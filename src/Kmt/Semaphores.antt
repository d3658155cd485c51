-- ===== src/Kmt/Semaphores.antt =====
-- kernel/src/kmt.c: semaphores. What a task does between taking and giving back the lock of the semaphore is one
-- step, by the exclusion of spin locks; the rounds of `sem_wait` of several tasks follow each other in any order.
pub mod Service
mod Tests
use nju_os_lab.Prelude.{
  ℕ, zero, suc, ◌+◌, ◌-◌, ◌%◌, ◌^◌, Bool, true, false, List, [], ◌∷◌, ◌==◌, ◌&&◌, ◌||◌, ltb,
  if◌then◌else◌,
}

-- `sem_t`; the value is an `int`, as a 32-bit word.
pub record Sem : Type 0 where
  pub value : ℕ

unfoldable pub sem_init : ℕ → Sem
sem_init value = record { value = value % 2 ^ 32 }

-- `value > 0` of an `int`.
abbrev pub is_positive : ℕ → Bool
is_positive w = ltb 0 w && ltb w (2 ^ 31)

-- One round of the loop of `sem_wait`, and whether it is the last.
unfoldable pub sem_round : Sem → Bool × Sem
sem_round s = if is_positive s.value then (true, record { value = s.value - 1 }) else (false, s)

unfoldable pub sem_signal : Sem → Sem
sem_signal s = record { value = (s.value + 1) % 2 ^ 32 }

-- A semaphore, the tasks that are in `sem_wait`, and how many calls of it have returned.
pub record Users : Type 0 where
  pub sem : Sem
  pub waiting : List ℕ
  pub served : ℕ

-- A task calls `sem_wait`; it makes one more round; some task calls `sem_signal`.
pub data Event : Type 0 where
  enter : ℕ → Event
  attempt : ℕ → Event
  signal : Event

unfoldable pub member : ℕ → List ℕ → Bool
member i [] = false
member i (x ∷ xs) = (i == x) || member i xs

unfoldable pub remove : ℕ → List ℕ → List ℕ
remove i [] = []
remove i (x ∷ xs) = let rest = remove i xs in if i == x then rest else x ∷ rest

abbrev pub after_round : ℕ → Bool × Sem → Users → Users
after_round i (true, s) u = record { sem = s; waiting = remove i u.waiting; served = suc u.served }
after_round i (false, s) u = record u { sem = s }

-- A task that is in `sem_wait` does not call it again, and one that is not makes no round.
unfoldable pub sem_step : Event → Users → Users
sem_step (enter i) u = if member i u.waiting then u else record u { waiting = i ∷ u.waiting }
sem_step (attempt i) u = if member i u.waiting then after_round i (sem_round u.sem) u else u
sem_step signal u = record u { sem = sem_signal u.sem }

unfoldable pub sem_run : List Event → Users → Users
sem_run [] u = u
sem_run (e ∷ es) u = sem_run es (sem_step e u)

abbrev pub start : ℕ → Users
start value = record { sem = sem_init value; waiting = []; served = 0 }
