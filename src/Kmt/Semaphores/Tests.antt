-- ===== src/Kmt/Semaphores/Tests.antt =====
-- kernel/src/kmt.c: runs of a semaphore, and each theorem at an input.
use nju_os_lab.Prelude.{◌+◌, ◌≡◌, refl, ◌≤◌, false, List, [], ◌∷◌, arith}
use nju_os_lab.Kmt.Semaphores.{
  sem_init, sem_round, sem_signal, Users, Event, enter, attempt, signal, member, remove, sem_step,
  sem_run, start,
}
use nju_os_lab.Kmt.Semaphores.Service.{
  signals, enters, calls_wait, attempts, semaphore_counts, waiting_served,
}

-- Two tasks wait, one unit is there and one comes.
abbrev events : List Event
events = enter 4 ∷ enter 7 ∷ attempt 7 ∷ attempt 4 ∷ attempt 4 ∷ signal ∷ attempt 4 ∷ []

served_runs : (sem_run events (start 1)).served ≡ 2
unfolding sem_run sem_step sem_round sem_signal sem_init member remove
served_runs = refl

semaphore_counts_example :
    ((sem_run events (start 1)).sem.value + (sem_run events (start 1)).served ≡ 2)
    × ((sem_run events (start 1)).served ≤ 2)
unfolding signals
semaphore_counts_example = semaphore_counts 1 events (omega arith)

-- Tasks 4 and 7 wait, and there are two units.
abbrev two_wait : Users
two_wait = record { sem = record { value = 2 }; waiting = 4 ∷ 7 ∷ []; served = 0 }

waiting_served_example :
    member 4 (sem_run (attempt 7 ∷ signal ∷ attempt 4 ∷ attempt 7 ∷ []) two_wait).waiting ≡ false
unfolding signals enters calls_wait attempts
waiting_served_example =
    waiting_served 4 (attempt 7 ∷ signal ∷ attempt 4 ∷ attempt 7 ∷ []) two_wait (omega arith)
      (omega arith) refl refl
