-- ===== src/Os/Trap.antt =====
-- kernel/src/os.c: what `trap` returns.
use nju_os_lab.Prelude.{
  ℕ, ℤ, ◌≡◌, refl, true, List, [], ◌∷◌, ◌++◌, ◌==◌, ◌||◌, All, Bool-cases, Option-cases, inl, inr,
  append_assoc, ap, ◌∙◌, All-split, sym,
}
use nju_os_lab.Os.{or_else, IrqHandler, find_handler_seq, on_irq, trap_loop, trap}
use nju_os_lab.Os.Order.{NotAbove, Above, find_handler_seq-Found}

module _ {C W : Type 0} where
  trap_loop-append :
      (ev : ℕ) (context : C) (xs ys : List (IrqHandler C W)) (ret : C) (w : W)
      → trap_loop ev context (xs ++ ys) ret w
        ≡ trap_loop ev context ys
            (trap_loop ev context xs ret w).0
            (trap_loop ev context xs ret w).1
  unfolding trap_loop
  trap_loop-append ev context [] ys ret w = refl
  trap_loop-append ev context (x ∷ xs) ys ret w =
      elim (Bool-cases ((x.event == 0) || (x.event == ev))) [
        | inl e ↦ rw e (trap_loop-append ev context xs ys _ _)
        | inr e ↦ rw e (trap_loop-append ev context xs ys _ _)
      ]

  both_ways :
      (seq : ℤ) (list : List (IrqHandler C W))
      → All (NotAbove seq) list
      → All (Above seq) list
      → list ≡ []
  both_ways seq [] below above = refl
  both_ways seq (x ∷ list) below above = let b = below.0 in let a = above.0 in absurd (cc)

  on_irq-last :
      (h : IrqHandler C W) (head : List (IrqHandler C W))
      → All (NotAbove h.seq) head
      → on_irq h head ≡ head ++ h ∷ []
  unfolding on_irq
  on_irq-last h head below = elim (Option-cases (find_handler_seq h.seq head)) [
    | inl e ↦
        let above : All (Above h.seq) head = rw e at (find_handler_seq-Found h.seq head) in
        let nothing = both_ways h.seq head below above in rw (on_irq, e, nothing) refl
    | inr ((before, ans, after), e) ↦
        let (whole, here, above) = rw e at (find_handler_seq-Found h.seq head) in
        let below_after = (All-split _ before (ans ∷ after) (rw whole at below)).1.1 in
        let nothing = both_ways h.seq after below_after above in
        let end : head ≡ before ++ ans ∷ [] = whole ∙ ap (λ l. before ++ ans ∷ l) nothing in
        rw (on_irq, e, nothing)
          (sym (ap (λ l. l ++ h ∷ []) end ∙ append_assoc before (ans ∷ []) (h ∷ [])))
  ]

  -- A handler for every event, registered with a `seq` that no other exceeds, is called last, with the context of
  -- the interrupt: `trap` returns the context that it returns, or, if that is `NULL`, what `trap`
  -- returned without it.
  pub trap_lem :
      (h : IrqHandler C W) (head : List (IrqHandler C W)) (ev : ℕ) (context : C) (w : W)
      → All (NotAbove h.seq) head
      → h.event ≡ 0
      → let before = trap ev context head w in
        let answer = h.handler ev context before.1 in
        trap ev context (on_irq h head) w ≡ (or_else before.0 answer.0, answer.1)
  unfolding trap trap_loop
  trap_lem h head ev context w below any =
      ap (λ l. trap ev context l w) (on_irq-last h head below)
      ∙ trap_loop-append ev context head (h ∷ []) context w
      ∙ last (trap_loop ev context head context w).0 (trap_loop ev context head context w).1
    where
      last :
          (r : C) (v : W)
          → trap_loop ev context (h ∷ []) r v
            ≡ (or_else r (h.handler ev context v).0, (h.handler ev context v).1)
      last r v =
          let called : ((h.event == 0) || (h.event == ev)) ≡ true = rw any refl in rw called refl
