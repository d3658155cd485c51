-- ===== src/Kmt.antt =====
-- kernel/src/kmt.c, tasks and locks: how a processor turns its interrupts off and on again.
pub mod Cli
pub mod Spin
pub mod Semaphores
pub mod Tasks
mod Tests
use nju_os_lab.Prelude.{
  ℕ, suc, ◌+◌, ◌-◌, Bool, true, false, Option, none, some, ◌==◌, ◌&&◌, if◌then◌else◌,
}

-- A processor: whether interrupts are on, and its entry of `cpu_cli`.
pub record Cpu : Type 0 where
  pub interrupts : Bool
  pub count : ℕ
  pub has_if : Bool

unfoldable pub pushcli : Cpu → Option Cpu
pushcli c =
    if c.count == 0
    then if c.has_if
      then none
      else some (record { interrupts = false; count = 1; has_if = c.interrupts })
    else some (record c { interrupts = false; count = suc c.count })

unfoldable pub popcli : Cpu → Option Cpu
popcli c =
    if c.interrupts
    then none
    else if c.count == 0
    then none
    else if (c.count - 1 == 0) && c.has_if
    then some (record { interrupts = true; count = 0; has_if = false })
    else some (record c { count = c.count - 1 })
