-- ===== src/Tty/Lines.antt =====
-- kernel/src/devices/tty/tty.c: `tty_cook` edits a line, and `tty_read` takes finished lines in order.
use nju_os_lab.Prelude.{
  take, ℕ, ◌+◌, ◌-◌, ◌^◌, ◌<◌, ◌≡◌, ◌≢◌, refl, ◌⊎◌, inl, inr, Bool, true, false, some, List, [],
  ◌∷◌, ◌++◌, ◌==◌, ◌&&◌, not, if◌then◌else◌, length, length-append, append_assoc, append-nil, All,
  All-append, All-split, ltb, arith, ap, sym, subst, ◌∙◌, Bool-cases, ==→≡,
}
use native.Mathlib.Nat.{mod-eq_of_lt}
use nju_os_lab.Klib.Strings.{Bytes}
use nju_os_lab.Klib.Strings.Search.{Lacks}
use nju_os_lab.Kmt.Semaphores.{sem_round, sem_signal}
use nju_os_lab.Tty.{TtyInput, newline, backspace, tty_cook, tty_read}
use nju_os_lab.Tty.Ring.{
  Window, Holds, tty_enqueue-Holds, tty_pop_back_lem, tty_pop_back_stop, read_line-Holds,
}

-- Finished lines as they stand in the ring, each with its NUL.
abbrev pub packed : List Bytes → Bytes
packed [] = []
packed (l ∷ ls) = l ++ 0 ∷ packed ls

packed-append : (ls : List Bytes) (l : Bytes) → packed (ls ++ l ∷ []) ≡ packed ls ++ (l ++ 0 ∷ [])
packed-append [] l = refl
packed-append (x ∷ ls) l =
    rw (packed-append ls l) (sym (append_assoc x (0 ∷ packed ls) (l ++ 0 ∷ [])))

-- What a terminal's user has typed: the finished lines that nobody has read, and the line that is being edited.
pub record Typed (t : TtyInput) (lines : List Bytes) (edit : Bytes) : Type 0 where
  pub holds : Holds t.queue (packed lines ++ edit)
  pub counted : t.cooked.value ≡ length lines
  pub lines_plain : All (Lacks 0) lines
  pub edit_plain : Lacks 0 edit

-- A line editor: the last byte is taken back, where there is one; the line ends with a newline; other bytes are
-- added. The result says what is to be shown.
abbrev pub without_last : Bytes → Bytes
without_last [] = []
without_last (c ∷ []) = []
without_last (c ∷ d ∷ s) = c ∷ without_last (d ∷ s)

abbrev pub is_empty : Bytes → Bool
is_empty [] = true
is_empty (c ∷ s) = false

unfoldable pub edit_step : ℕ → List Bytes → Bytes → Bool × List Bytes × Bytes
edit_step ch lines edit =
    if ch == newline
    then (true, lines ++ (edit ++ newline ∷ []) ∷ [], [])
    else if ch == backspace
    then (not (is_empty edit), lines, without_last edit)
    else (true, lines, edit ++ ch ∷ [])

-- A list is empty, or it has a last element.
pub last-cases :
    (s : Bytes) → (s ≡ []) ⊎ ((d : Bytes) × (c : ℕ) × (s ≡ d ++ c ∷ []) × (without_last s ≡ d))
last-cases [] = inl refl
last-cases (x ∷ []) = inr ([], x, refl, refl)
last-cases (x ∷ y ∷ s) = elim (last-cases (y ∷ s)) [
  | inl e ↦ absurd cc
  | inr (d, c, e, w) ↦ inr (x ∷ d, c, ap (λ l. x ∷ l) e, ap (λ l. x ∷ l) w)
]

packed_stop : (ls : List Bytes) → (packed ls ≡ []) ⊎ ((ys : Bytes) × (packed ls ≡ ys ++ 0 ∷ []))
packed_stop [] = inl refl
packed_stop (l ∷ ls) = elim (packed_stop ls) [
  | inl e ↦ inr (l, rw e refl)
  | inr (ys, e) ↦ inr (l ++ 0 ∷ ys, rw e (sym (append_assoc l (0 ∷ ys) (0 ∷ []))))
]

-- One byte typed, while there is room for two more. A byte that ends a line is followed by a NUL.
module _ (t : TtyInput) (lines : List Bytes) (edit : Bytes) (h : Typed t lines edit) where
  abbrev all : Bytes
  all = packed lines ++ edit

  cook_other :
      (ch : ℕ)
      → ch ≢ 0
      → (ch == newline) ≡ false
      → (ch == backspace) ≡ false
      → length all + 2 < 1024
      → (t' : TtyInput) × (tty_cook t ch ≡ some (true, t')) × Typed t' lines (edit ++ ch ∷ [])
  unfolding tty_cook
  cook_other ch ne nl bs room =
      let (q', e, h') = tty_enqueue-Holds t.queue all ch h.holds (omega arith) in
      (
        record t { queue = q' },
        rw (tty_cook, nl, bs, e) refl,
        record {
          holds = subst (Holds q') (append_assoc (packed lines) edit (ch ∷ [])) h';
          counted = h.counted;
          lines_plain = h.lines_plain;
          edit_plain = All-append (λ x. x ≢ 0) edit (ch ∷ []) h.edit_plain (ne, tt);
        },
      )

  cook_newline :
      length all + 2 < 1024
      → t.cooked.value + 1 < 2 ^ 32
      → (t' : TtyInput) × (tty_cook t newline ≡ some (true, t'))
        × Typed t' (lines ++ (edit ++ newline ∷ []) ∷ []) []
  unfolding tty_cook sem_signal
  cook_newline room small =
      let line = edit ++ newline ∷ [] in
      let (q1, e1, h1) = tty_enqueue-Holds t.queue all newline h.holds (omega arith) in
      let longer = length-append all (newline ∷ []) in
      let (q2, e2, h2) = tty_enqueue-Holds q1 (all ++ newline ∷ []) 0 h1 (omega (arith, longer)) in
      (
        record { queue = q2; cooked = sem_signal t.cooked },
        rw (tty_cook, e1) (rw e2 refl),
        record {
          holds = subst (Holds q2) (simp (append_assoc, append-nil, packed-append) refl) h2;
          counted =
              mod-eq_of_lt small
              ∙ ap (λ n. n + 1) h.counted
              ∙ sym (length-append lines (line ∷ []));
          lines_plain = All-append (Lacks 0) lines (line ∷ []) h.lines_plain (
            All-append (λ x. x ≢ 0) edit (newline ∷ []) h.edit_plain
                ((λ e. absurd (omega arith)), tt),
            tt,
          );
          edit_plain = tt;
        },
      )

cook_empty :
    (t : TtyInput) (lines : List Bytes) → Typed t lines [] → tty_cook t backspace ≡ some (false, t)
unfolding tty_cook
cook_empty t lines h =
    let h' : Holds t.queue (packed lines) =
      subst (Holds t.queue) (append-nil (packed lines)) h.holds in
    rw (tty_cook, tty_pop_back_stop t.queue (packed lines) h' (packed_stop lines)) refl

cook_take :
    (t : TtyInput) (lines : List Bytes) (d : Bytes) (c : ℕ)
    → Typed t lines (d ++ c ∷ [])
    → (t' : TtyInput) × (tty_cook t backspace ≡ some (true, t')) × Typed t' lines d
unfolding tty_cook
cook_take t lines d c h =
    let (plain, last) = All-split (λ x. x ≢ 0) d (c ∷ []) h.edit_plain in
    let h' = subst (Holds t.queue) (sym (append_assoc (packed lines) d (c ∷ []))) h.holds in
    let (q', e, h'') = tty_pop_back_lem t.queue (packed lines ++ d) c h' last.0 in
    (
      record t { queue = q' },
      rw (tty_cook, e) refl,
      record { holds = h''; counted = h.counted; lines_plain = h.lines_plain; edit_plain = plain },
    )

is_empty-append : (d : Bytes) (c : ℕ) → is_empty (d ++ c ∷ []) ≡ false
is_empty-append [] c = refl
is_empty-append (x ∷ d) c = refl

abbrev CooksTo : TtyInput → ℕ → Bool → List Bytes → Bytes → Type 0
CooksTo t ch shown lines edit =
    (t' : TtyInput) × (tty_cook t ch ≡ some (shown, t')) × Typed t' lines edit

cook_backspace :
    (t : TtyInput) (lines : List Bytes) (edit : Bytes)
    → Typed t lines edit
    → CooksTo t backspace (not (is_empty edit)) lines (without_last edit)
cook_backspace t lines edit h = elim (last-cases edit) [
  | inl e ↦
      let h' = subst (Typed t lines) e h in
      subst (λ s. CooksTo t backspace (not (is_empty s)) lines (without_last s)) (sym e)
        (t, cook_empty t lines h', h')
  | inr (d, c, e, w) ↦
      let (t', run, h') = cook_take t lines d c (subst (Typed t lines) e h) in
      let shown : not (is_empty edit) ≡ true = rw (e, is_empty-append d c) refl in
      (t', rw shown run, rw w h')
]

-- `tty_cook` is a line editor. Where the ring has room for two more bytes, and the semaphore does not overflow, it does not halt on a byte that is not NUL: it
-- adds the byte to the line, takes the last byte of the line back, or finishes the line, and it returns whether there was something to do.
pub tty_cook-Typed :
    (t : TtyInput) (lines : List Bytes) (edit : Bytes) (ch : ℕ)
    → Typed t lines edit
    → ch ≢ 0
    → length (packed lines ++ edit) + 2 < 1024
    → t.cooked.value + 1 < 2 ^ 32
    → (t' : TtyInput) × (tty_cook t ch ≡ some ((edit_step ch lines edit).0, t'))
      × Typed t' (edit_step ch lines edit).1 (edit_step ch lines edit).2
unfolding edit_step
tty_cook-Typed t lines edit ch h ne room small = elim (Bool-cases (ch == newline)) [
  | inl e ↦
      rw e (
        let at : ch ≡ newline = ==→≡ ch newline e in rw at (cook_newline t lines edit h room small))
  | inr nl ↦ elim (Bool-cases (ch == backspace)) [
    | inl e ↦
        rw (nl, e)
          (let at : ch ≡ backspace = ==→≡ ch backspace e in rw at (cook_backspace t lines edit h))
    | inr bs ↦ rw (nl, bs) (cook_other t lines edit h ch ne nl bs room)
  ]
]

-- `tty_read` takes the oldest finished line, with its newline, and leaves the others and the line that is being edited. It stores as many of its bytes
-- as the caller has room for, `count`, and drops the rest, but returns the length of the whole line.
pub tty_read-Typed :
    (t : TtyInput) (lines : List Bytes) (line edit : Bytes) (count : ℕ)
    → Typed t (line ∷ lines) edit
    → length lines + 1 < 2 ^ 31
    → (t' : TtyInput) × (tty_read count t ≡ some ((length line, take count line), t'))
      × Typed t' lines edit
unfolding tty_read sem_round
tty_read-Typed t lines line edit count h small =
    let rest = packed lines ++ edit in
    let w = subst (Window t.queue) (append_assoc line (0 ∷ packed lines) edit) h.holds.window in
    let size = length-append line (0 ∷ rest) in
    let one = h.counted in
    let some_line : (ltb 0 t.cooked.value && ltb t.cooked.value (2 ^ 31)) ≡ true =
      ground (arith, one) in
    let (q', e, h') =
      read_line-Holds line rest 1024 count t.queue w h.lines_plain.0
        (let r = w.room in omega (arith, size)) in
    (
      record { queue = q'; cooked = record { value = t.cooked.value - 1 } },
      rw (tty_read, some_line) (rw e refl),
      record {
        holds = h';
        counted = omega (arith, one);
        lines_plain = h.lines_plain.1;
        edit_plain = h.edit_plain;
      },
    )
