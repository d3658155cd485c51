-- ===== src/Kmt/Spin.antt =====
-- kernel/src/kmt.c: spin locks, one step of one processor at a time. Each processor runs
-- `spin_lock`, its critical section and `spin_unlock` over and over; a step is one access to the lock, or
-- one call of `pushcli` or `popcli` with it.
pub mod Exclusion
pub mod Runs
use nju_os_lab.Prelude.{
  ℕ, Bool, true, false, Option, none, some, List, [], ◌∷◌, ◌==◌, if◌then◌else◌, ◌>>=◌,
}
use nju_os_lab.Kmt.{Cpu, pushcli, popcli}

-- Where a processor is.
pub data Stage : Type 0 where
  -- outside; next is `pushcli` of `spin_lock`
  outside : Stage
  -- `is_holding_spin` of `spin_lock`, before it reads `locked` and before it reads `cpu`
  check_locked check_cpu : Stage
  -- before an exchange of the loop
  spinning : Stage
  -- behind the loop, before `lk->cpu = _cpu()`
  taken : Stage
  -- holding the lock; next `is_holding_spin` of `spin_unlock` reads `locked`, and then `cpu`
  inside release_cpu : Stage
  -- before `lk->cpu = -1`, before the exchange, before `popcli`
  clear_cpu unlocking leaving : Stage

pub record Proc : Type 0 where
  pub stage : Stage
  pub cli : Cpu

-- `lk->locked`, `lk->cpu` with -1 as `none`, and the processors.
pub record Spin : Type 0 where
  pub locked : Bool
  pub cpu : Option ℕ
  pub procs : ℕ → Proc

abbrev pub put : ℕ → Stage → Cpu → Spin → Spin
put i g c s = record s { procs = λ k. if i == k then record { stage = g; cli = c } else s.procs k }

-- `lk->cpu == _cpu()`.
abbrev pub is_cpu : ℕ → Option ℕ → Bool
is_cpu i none = false
is_cpu i (some k) = k == i

-- `none`: a panic.
unfoldable pub step_at : Stage → ℕ → Cpu → Spin → Option Spin
step_at outside i c s = do c' ← pushcli c; some (put i check_locked c' s)
step_at check_locked i c s = do
  c' ← pushcli c
  c'' ← popcli c'
  some (if s.locked then put i check_cpu c' s else put i spinning c'' s)
step_at check_cpu i c s = do
  c' ← popcli c
  if is_cpu i s.cpu then none else some (put i spinning c' s)
step_at spinning i c s =
    some (put i (if s.locked then spinning else taken) c (record s { locked = true }))
step_at taken i c s = some (put i inside c (record s { cpu = some i }))
step_at inside i c s = do c' ← pushcli c; if s.locked then some (put i release_cpu c' s) else none
step_at release_cpu i c s = do
  c' ← popcli c
  if is_cpu i s.cpu then some (put i clear_cpu c' s) else none
step_at clear_cpu i c s = some (put i unlocking c (record s { cpu = none }))
step_at unlocking i c s = some (put i leaving c (record s { locked = false }))
step_at leaving i c s = do c' ← popcli c; some (put i outside c' s)

unfoldable pub step : ℕ → Spin → Option Spin
step i s = step_at (s.procs i).stage i (s.procs i).cli s

-- The processors of the list take a step each, in its order.
unfoldable pub run : List ℕ → Spin → Option Spin
run [] s = some s
run (i ∷ order) s = step i s >>= run order
