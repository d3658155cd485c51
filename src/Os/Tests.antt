-- ===== src/Os/Tests.antt =====
-- kernel/src/os.c: the table that kmt.c registers, with one handler of a device in between.
use nju_os_lab.Prelude.{ℕ, ◌≡◌, refl, none, some, [], ◌∷◌, pos, negsuc, suc}
use nju_os_lab.Os.{or_else, IrqHandler, on_irq, trap, trap_loop, find_handler_seq}
use nju_os_lab.Os.Order.{Inserted, on_irq-Inserted}
use nju_os_lab.Os.Trap.{trap_lem}

-- The contexts are numbers; the state counts the calls.
abbrev save : IrqHandler ℕ ℕ
save = record { seq = negsuc 9999; event = 0; handler = λ ev context w. (none, suc w) }

abbrev device : IrqHandler ℕ ℕ
device = record { seq = pos 0; event = 4; handler = λ ev context w. (none, suc w) }

abbrev switch : IrqHandler ℕ ℕ
switch = record {
  seq = pos 10000;
  event = 0;
  handler = λ ev context w. (some (suc context), suc w);
}

trap-on_irq : trap 1 7 (on_irq device (on_irq switch (on_irq save []))) 0 ≡ (8, 2)
unfolding trap trap_loop on_irq find_handler_seq
trap-on_irq = refl

on_irq-Inserted_example : Inserted device (save ∷ switch ∷ [])
on_irq-Inserted_example = on_irq-Inserted device (save ∷ switch ∷ []) ((refl, tt), (tt, tt))

trap_lem_example :
    let before = trap 4 7 (save ∷ device ∷ []) 0 in
    let answer = switch.handler 4 7 before.1 in
    trap 4 7 (on_irq switch (save ∷ device ∷ [])) 0 ≡ (or_else before.0 answer.0, answer.1)
trap_lem_example = trap_lem switch (save ∷ device ∷ []) 4 7 0 (refl, (refl, tt)) refl
