-- ===== src/Tty.antt =====
-- kernel/src/devices/tty/tty.c, the terminals: the ring of typed bytes. `lock` makes one step of each of `tty_cook`,
-- `tty_read` and the loop of `tty_write`.
pub mod Ring
pub mod Lines
pub mod Screen
pub mod Task
mod Tests
use nju_os_lab.Prelude.{
  ℕ, zero, suc, ◌+◌, ◌-◌, Bool, true, false, Option, none, some, List, [], ◌∷◌, ◌==◌, ◌&&◌, not,
  ltb, if◌then◌else◌, ◌>>=◌,
}
use nju_os_lab.Klib.Strings.{Bytes}
use nju_os_lab.Kmt.Semaphores.{Sem, sem_init, sem_round, sem_signal}

-- `TTY_COOK_BUF_SZ`, the index of `end`.
abbrev pub cook_buf_size : ℕ
cook_buf_size = 1024

-- `struct tty_queue`, with indices for pointers.
pub record TtyQueue : Type 0 where
  pub buf : ℕ → ℕ
  pub front : ℕ
  pub rear : ℕ

abbrev pub put : (ℕ → ℕ) → ℕ → ℕ → ℕ → ℕ
put buf i v k = if k == i then v else buf k

-- A pointer moved on by one, and back to the start at the end.
abbrev pub wrapped : ℕ → ℕ
wrapped i = if i + 1 == cook_buf_size then 0 else i + 1

-- `none`: the queue is full, which panics.
unfoldable pub tty_enqueue : TtyQueue → ℕ → Option TtyQueue
tty_enqueue q ch =
    if wrapped q.rear == q.front
    then none
    else some
        (record q { buf = put (put q.buf q.rear ch) (wrapped q.rear) 0; rear = wrapped q.rear })

-- The result, 0 as true, and the queue.
unfoldable pub tty_pop_back : TtyQueue → Bool × TtyQueue
tty_pop_back q =
    let pos = if q.rear == 0 then cook_buf_size else q.rear in
    if not (q.front == cook_buf_size) && not (q.buf (pos - 1) == 0)
    then (true, record q { buf = put q.buf (pos - 1) 0; rear = pos - 1 })
    else (false, q)

-- The queue and the semaphore `cooked` of a `tty_t`.
pub record TtyInput : Type 0 where
  pub queue : TtyQueue
  pub cooked : Sem

abbrev pub newline : ℕ
newline = b'\n'

abbrev pub backspace : ℕ
backspace = 8

-- `none` halts. The result 0 as true: the byte is to be shown.
unfoldable pub tty_cook : TtyInput → ℕ → Option (Bool × TtyInput)
tty_cook t ch =
    let line = (do
      q1 ← tty_enqueue t.queue ch
      q2 ← tty_enqueue q1 0
      some (true, record { queue = q2; cooked = sem_signal t.cooked })) in
    let other = (do q1 ← tty_enqueue t.queue ch; some (true, record t { queue = q1 })) in
    let (shown, q) = tty_pop_back t.queue in
    if ch == newline
    then line
    else if ch == backspace
    then some (shown, record t { queue = q })
    else other

-- The loop of `tty_read`, with `nread` so far: the last `nread`, and the bytes that are still stored into `buf`. `none`: the end of the fuel.
unfoldable pub read_loop : ℕ → ℕ → ℕ → TtyQueue → Option ((ℕ × Bytes) × TtyQueue)
read_loop zero count nread q = none
read_loop (suc fuel) count nread q =
    let ch = q.buf q.front in
    let q' = record q { front = wrapped q.front } in
    let more = (do
      ((n, stored), q'') ← read_loop fuel count (nread + 1) q'
      some ((n, if ltb nread count then ch ∷ stored else stored), q'')) in
    if ch == 0 then some ((nread, []), q') else more

-- With a unit of `cooked`, or without, when it waits. The ring has 1024 places, and a NUL in one of them.
abbrev pub read_cooked : ℕ → TtyInput → Bool × Sem → Option ((ℕ × Bytes) × TtyInput)
read_cooked count t (false, s) = none
read_cooked count t (true, s) = do
  (read, q) ← read_loop cook_buf_size count 0 t.queue
  some (read, record { queue = q; cooked = s })

-- What the call returns, and the bytes that it stores into `buf`.
unfoldable pub tty_read : ℕ → TtyInput → Option ((ℕ × Bytes) × TtyInput)
tty_read count t = read_cooked count t (sem_round t.cooked)

-- The queue of `tty_init`.
abbrev pub tty_init_queue : TtyInput
tty_init_queue = record {
  queue = record { buf = λ k. 0; front = 0; rear = 0 };
  cooked = sem_init 0;
}
