-- ===== src/Os/Order.antt =====
-- kernel/src/os.c: where `on_irq` puts a handler.
use nju_os_lab.Prelude.{
  ◌≡◌, refl, true, false, Option, none, some, List, [], ◌∷◌, ◌++◌, ℤ, pos, negsuc, arith, All,
  Bool-cases, Option-cases, inl, inr, append_assoc, ap, ◌∙◌, All-append, All-split, sym, All-map,
}
use nju_os_lab.Os.{leb_int, IrqHandler, find_handler_seq, on_irq}

leb_int_trans : (a b c : ℤ) → leb_int a b ≡ true → leb_int b c ≡ true → leb_int a c ≡ true
leb_int_trans (pos a) (pos b) (pos c) h k = ground arith
leb_int_trans (negsuc a) b (pos c) h k = refl
leb_int_trans (negsuc a) (negsuc b) (negsuc c) h k = ground arith
leb_int_trans (pos a) (negsuc b) c h k = cc
leb_int_trans a (pos b) (negsuc c) h k = cc

gt_le : (a b : ℤ) → leb_int a b ≡ false → leb_int b a ≡ true
gt_le (pos a) (pos b) h = ground arith
gt_le (negsuc a) (pos b) h = cc
gt_le (pos a) (negsuc b) h = refl
gt_le (negsuc a) (negsuc b) h = ground arith

module _ {C W : Type 0} where
  -- By `seq`, from the lowest.
  abbrev pub IsSorted : List (IrqHandler C W) → Type 0
  IsSorted [] = Unit
  IsSorted (h ∷ rest) = All (λ x. leb_int h.seq x.seq ≡ true) rest × IsSorted rest

  abbrev pub NotAbove : ℤ → IrqHandler C W → Type 0
  NotAbove seq x = leb_int x.seq seq ≡ true

  abbrev pub Above : ℤ → IrqHandler C W → Type 0
  Above seq x = leb_int x.seq seq ≡ false

  -- What `find_handler_seq` finds in any list.
  abbrev pub Found :
      ℤ
      → List (IrqHandler C W)
      → Option (List (IrqHandler C W) × IrqHandler C W × List (IrqHandler C W))
      → Type 0
  Found seq list none = All (Above seq) list
  Found seq list (some (before, ans, after)) =
      (list ≡ before ++ ans ∷ after) × NotAbove seq ans × All (Above seq) after

  pub find_handler_seq-Found :
      (seq : ℤ) (list : List (IrqHandler C W)) → Found seq list (find_handler_seq seq list)
  unfolding find_handler_seq
  find_handler_seq-Found seq [] = tt
  find_handler_seq-Found seq (cur ∷ rest) = elim (Option-cases (find_handler_seq seq rest)) [
    | inl e ↦
        let above : All (Above seq) rest = rw e at (find_handler_seq-Found seq rest) in
        elim (Bool-cases (leb_int cur.seq seq)) [
          | inl here ↦ rw (e, here) (refl, here, above)
          | inr past ↦ rw (e, past) (past, above)
        ]
    | inr ((before, ans, after), e) ↦
        let (whole, here, above) = rw e at (find_handler_seq-Found seq rest) in
        rw e (ap (λ l. cur ∷ l) whole, here, above)
  ]

  prefix_le :
      (xs : List (IrqHandler C W)) (h : IrqHandler C W) (ys : List (IrqHandler C W))
      → IsSorted (xs ++ h ∷ ys)
      → All (NotAbove h.seq) xs
  prefix_le [] h ys s = tt
  prefix_le (x ∷ xs) h ys s = ((All-split _ xs (h ∷ ys) s.0).1.0, prefix_le xs h ys s.1)

  insert-IsSorted :
      (pre : List (IrqHandler C W)) (h : IrqHandler C W) (post : List (IrqHandler C W))
      → IsSorted (pre ++ post)
      → All (NotAbove h.seq) pre
      → All (λ x. leb_int h.seq x.seq ≡ true) post
      → IsSorted (pre ++ h ∷ post)
  insert-IsSorted [] h post s below above = (above, s)
  insert-IsSorted (x ∷ pre) h post s below above =
      let (left, right) = All-split _ pre post s.0 in
      (
        All-append _ pre (h ∷ post) left (below.0, right),
        insert-IsSorted pre h post s.1 below.1 above,
      )

  -- The table after a registration: `ih` stands between the handlers that are not above it and those that are, the others
  -- keep their order, and the table is sorted.
  pub record Inserted (ih : IrqHandler C W) (head : List (IrqHandler C W)) : Type 0 where
    pub pre : List (IrqHandler C W)
    pub post : List (IrqHandler C W)
    pub whole : head ≡ pre ++ post
    pub result : on_irq ih head ≡ pre ++ ih ∷ post
    pub below : All (NotAbove ih.seq) pre
    pub above : All (Above ih.seq) post
    pub sorted : IsSorted (on_irq ih head)

  inserted :
      (ih : IrqHandler C W) (head pre post : List (IrqHandler C W))
      → IsSorted head
      → head ≡ pre ++ post
      → on_irq ih head ≡ pre ++ ih ∷ post
      → All (NotAbove ih.seq) pre
      → All (Above ih.seq) post
      → Inserted ih head
  inserted ih head pre post s whole result below above = record {
    pre = pre;
    post = post;
    whole = whole;
    result = result;
    below = below;
    above = above;
    sorted = rw result (
        insert-IsSorted pre ih post (rw whole at s) below
          (All-map _ post (λ x a. gt_le x.seq ih.seq a) above));
  }

  -- `on_irq` on a sorted table puts the handler behind all handlers whose `seq` is not above its own and in front of all
  -- others, leaves these in their order, and the table stays sorted.
  pub on_irq-Inserted :
      (ih : IrqHandler C W) (head : List (IrqHandler C W)) → IsSorted head → Inserted ih head
  unfolding on_irq
  on_irq-Inserted ih head s = elim (Option-cases (find_handler_seq ih.seq head)) [
    | inl e ↦
        let above : All (Above ih.seq) head = rw e at (find_handler_seq-Found ih.seq head) in
        inserted ih head [] head s refl (rw (on_irq, e) refl) tt above
    | inr ((before, ans, after), e) ↦
        let (whole, here, above) = rw e at (find_handler_seq-Found ih.seq head) in
        let split = whole ∙ sym (append_assoc before (ans ∷ []) after) in
        let below = prefix_le before ans after (rw whole at s) in
        inserted ih head (before ++ ans ∷ []) after s split
          (rw (on_irq, e) (sym (append_assoc before (ans ∷ []) (ih ∷ after))))
          (All-append _ before (ans ∷ [])
            (All-map _ before (λ x b. leb_int_trans x.seq ans.seq ih.seq b here) below) (here, tt))
          above
  ]
