-- ===== src/Tty/Screen/Steps.antt =====
-- kernel/src/devices/tty/tty.c: the carriage return and the backspace on the paper that the screen shows.
use nju_os_lab.Prelude.{
  ℕ, ◌+◌, ◌-◌, ◌*◌, ◌%◌, ◌<◌, ◌≡◌, refl, inl, inr, true, false, Option, some, ltb, ◌>>=◌, arith,
  Bool-cases,
}
use native.Mathlib.Nat.{mul-add-mod_self_left, mod-le}
use nju_os_lab.Tty.{backspace, put}
use nju_os_lab.Tty.Screen.{
  Screen, write_at, tty_mark, tty_upd_cr, tty_upd_backsp, carriage_return, tty_putc,
}
use nju_os_lab.Tty.Screen.Paper.{
  Paper, paper_putc, Written, Shows, Marks, tty_mark-Marks, marked-Written, tty_mark_line-Marks,
}

-- A step goes on to a screen of the same size that shows this paper.
abbrev pub ShowsNext : Screen → Option Screen → Paper → Type 0
ShowsNext t r p =
    (t' : Screen) × (r ≡ some t') × Shows t' p × (t'.columns ≡ t.columns) × (t'.size ≡ t.size)

pub marked-ShowsNext :
    (t : Screen) (r : Option Screen) (p : Paper) → Shows t p → Marks t r → ShowsNext t r p
marked-ShowsNext t r p v (d, run, kept) = (
  record t { dirty = d },
  run,
  record { written = marked-Written t p d v.written kept; inside = v.inside },
  refl,
  refl,
)

-- The place in its line is the same on the paper.
pub pos-mod : (t : Screen) (p : Paper) → Written t p → p.pos % t.columns ≡ t.cursor % t.columns
pos-mod t p w = rw w.place (mul-add-mod_self_left t.columns p.gone t.cursor)

pub putc_return :
    (t : Screen) (p : Paper)
    → Shows t p
    → ShowsNext t (tty_putc carriage_return t) (paper_putc t.columns t.size carriage_return p)
unfolding tty_putc tty_upd_cr paper_putc
putc_return t p v =
    let w = v.written in
    let x = mod-le t.cursor t.columns in
    let at = w.place in
    let p' = record p { pos = p.pos - p.pos % t.columns } in
    let t1 = record t { cursor = t.cursor - t.cursor % t.columns } in
    let w' : Written t1 p' = record {
      wide = w.wide;
      tall = w.tall;
      sized = w.sized;
      two = w.two;
      place = rw (pos-mod t p w) (omega (arith, at, x));
      shown = w.shown;
      blank = w.blank;
      dirty = w.dirty;
    } in
    let below : t1.cursor < t.size = let i = v.inside in omega (arith, i, x) in
    marked-ShowsNext t1 _ p' (record { written = w'; inside = below })
      (tty_mark_line-Marks t1.cursor t1 p' w' below)

-- Two places that are marked one after the other.
pub mark_twice :
    (t : Screen) (j : ℕ) (k : Screen → ℕ)
    → j < t.size
    → ((d : ℕ → ℕ) → k (record t { dirty = d }) < t.size)
    → Marks t (do t' ← tty_mark j t; tty_mark (k t') t')
mark_twice t j k hj hk =
    let (d, run, kept) = tty_mark-Marks j t hj in
    let (d', run', kept') =
      tty_mark-Marks (k (record t { dirty = d })) (record t { dirty = d }) (hk d) in
    (d', rw run run', λ i e. kept' i (kept i e))

pub putc_backspace :
    (t : Screen) (p : Paper)
    → Shows t p
    → ShowsNext t (tty_putc backspace t) (paper_putc t.columns t.size backspace p)
unfolding tty_putc tty_upd_backsp write_at paper_putc
putc_backspace t p v = elim (Bool-cases (ltb 0 t.cursor)) [
  | inl some_place ↦
      let w = v.written in
      let i = v.inside in
      let at = w.place in
      let t1 = record t { cursor = t.cursor - 1; buf = put t.buf (t.cursor - 1) 0 } in
      let p1 = record p { cells = put p.cells (p.pos - 1) 0; pos = p.pos - 1 } in
      let before : ltb (t.columns * p.gone) p.pos ≡ true = ground (arith, at) in
      let valid : ltb (t.cursor - 1) t.size ≡ true = ground (arith, i) in
      let v1 : Shows t1 p1 = record {
        written = record {
          wide = w.wide;
          tall = w.tall;
          sized = w.sized;
          two = w.two;
          place = ground (arith, at);
          shown = λ k h. ground (arith, at, w.shown k h);
          blank = λ k h. ground (arith, at, i, w.blank k h);
          dirty = w.dirty;
        };
        inside = ground (arith, i);
      } in
      rw (some_place, valid, before)
        (marked-ShowsNext t1 _ p1 v1 (
          mark_twice t1 t1.cursor (λ t'. t'.cursor + 1) (ground (arith, i))
            (λ d. ground (arith, i))))
  | inr none_left ↦
      let w = v.written in
      let at = w.place in
      let i = v.inside in
      let n = w.two in
      let before : ltb (t.columns * p.gone) p.pos ≡ false = ground (arith, at) in
      rw (none_left, before)
        (marked-ShowsNext t _ p v
          (mark_twice t t.cursor (λ t'. t'.cursor + 1) i (λ d. ground (arith, n))))
]
