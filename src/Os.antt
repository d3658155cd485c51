-- ===== src/Os.antt =====
-- kernel/src/os.c: the table of interrupt handlers. `trap` runs them one after the other under its lock.
pub mod Order
pub mod Trap
mod Tests
use nju_os_lab.Prelude.{
  ℕ, Bool, true, false, Option, none, some, List, [], ◌∷◌, ◌++◌, ◌==◌, ◌||◌, leb, if◌then◌else◌, ℤ,
  pos, negsuc,
}

-- The comparison of `int`.
abbrev pub leb_int : ℤ → ℤ → Bool
leb_int (pos a) (pos b) = leb a b
leb_int (negsuc a) (pos b) = true
leb_int (pos a) (negsuc b) = false
leb_int (negsuc a) (negsuc b) = leb b a

-- `_EVENT_NULL` is 0. `C` are the contexts, `W` is what the handlers change; a handler may return
-- `NULL`.
pub record IrqHandler (C W : Type 0) : Type 0 where
  pub seq : ℤ
  pub event : ℕ
  pub handler : ℕ → C → W → Option C × W

abbrev pub or_else : {C : Type 0} → C → Option C → C
or_else ret none = ret
or_else ret (some c) = c

module _ {C W : Type 0} where
  -- The last handler whose `seq` is not greater, with the list before and behind it.
  unfoldable pub find_handler_seq :
      ℤ
      → List (IrqHandler C W)
      → Option (List (IrqHandler C W) × IrqHandler C W × List (IrqHandler C W))
  find_handler_seq seq [] = none
  find_handler_seq seq (cur ∷ rest) = elim (find_handler_seq seq rest) [
    | some (before, ans, after) ↦ some (cur ∷ before, ans, after)
    | none ↦ if leb_int cur.seq seq then some ([], cur, rest) else none
  ]

  unfoldable pub on_irq : IrqHandler C W → List (IrqHandler C W) → List (IrqHandler C W)
  on_irq ih head = elim (find_handler_seq ih.seq head) [
    | none ↦ ih ∷ head
    | some (before, h, after) ↦ before ++ h ∷ ih ∷ after
  ]

  -- The loop, with the `ret` so far. Every handler gets the context of the interrupt.
  unfoldable pub trap_loop : ℕ → C → List (IrqHandler C W) → C → W → C × W
  trap_loop ev context [] ret w = (ret, w)
  trap_loop ev context (cur ∷ rest) ret w =
      let (next, w') = cur.handler ev context w in
      let called = trap_loop ev context rest (or_else ret next) w' in
      let passed = trap_loop ev context rest ret w in
      if (cur.event == 0) || (cur.event == ev) then called else passed

  unfoldable pub trap : ℕ → C → List (IrqHandler C W) → W → C × W
  trap ev context head w = trap_loop ev context head context w
