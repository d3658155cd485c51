-- ===== src/Tty/Screen/Writes.antt =====
-- kernel/src/devices/tty/tty.c: `tty_putc` and `tty_write` write on the paper that the screen shows.
use nju_os_lab.Prelude.{
  ℕ, ◌+◌, ◌-◌, ◌*◌, ◌%◌, ◌≤◌, ◌<◌, ◌≡◌, refl, inl, inr, true, false, some, [], ◌∷◌, ◌==◌, ltb,
  arith, subst, ◌∙◌, Bool-cases, ==→≡,
}
use native.Mathlib.Nat.{mod-le}
use nju_os_lab.Klib.Strings.{Bytes}
use nju_os_lab.Tty.{newline, backspace, put}
use nju_os_lab.Tty.Screen.{
  Screen, write_at, tty_upd_cr, tty_upd_lf, tty_upd_putc, carriage_return, after_newline,
  after_putc, tty_putc, tty_write,
}
use nju_os_lab.Tty.Screen.Paper.{
  Paper, rolled, paper_putc, paper_write, Written, Shows, line_end, marked-Written,
  tty_mark_line-Marks, scroll_lem,
}
use nju_os_lab.Tty.Screen.Steps.{
  ShowsNext, marked-ShowsNext, pos-mod, putc_return, mark_twice, putc_backspace,
}

-- The two ends of a line that is written to or left.
rolled_end :
    (t : Screen) (p : Paper)
    → Written t p
    → t.cursor ≡ t.size
    → rolled t.columns t.size p ≡ record p { gone = p.gone + 1 }
rolled_end t p w e =
    let at = w.place in
    let full : (p.pos == t.columns * p.gone + t.size) ≡ true = ground (arith, at) in rw full refl

rolled_inside :
    (t : Screen) (p : Paper) → Written t p → t.cursor < t.size → rolled t.columns t.size p ≡ p
rolled_inside t p w i =
    let at = w.place in
    let full : (p.pos == t.columns * p.gone + t.size) ≡ false = ground (arith, at) in rw full refl

after_newline_lem :
    (t : Screen) (p : Paper)
    → Written t p
    → t.cursor ≤ t.size
    → t.columns ≤ t.cursor
    → ShowsNext t (after_newline t) (rolled t.columns t.size p)
unfolding after_newline
after_newline_lem t p w le past = elim (Bool-cases (t.cursor == t.size)) [
  | inl e ↦ let at = ==→≡ t.cursor t.size e in rw (e, rolled_end t p w at) (scroll_lem t p w at)
  | inr ne ↦
      let i : t.cursor < t.size = ground (arith, le, ne) in
      let v : Shows t p = record { written = w; inside = i } in
      let (d, run, kept) = tty_mark_line-Marks (t.cursor - t.columns) t p w (ground (arith, i)) in
      let t1 = record t { dirty = d } in
      let (d', run', kept') = tty_mark_line-Marks t1.cursor t1 p (marked-Written t p d w kept) i in
      rw (ne, rolled_inside t p w i)
        (marked-ShowsNext t _ p v (d', rw run run', λ k h. kept' k (kept k h)))
]

after_putc_lem :
    (t : Screen) (p : Paper)
    → Written t p
    → t.cursor ≤ t.size
    → 1 ≤ t.cursor
    → ShowsNext t (after_putc t) (rolled t.columns t.size p)
unfolding after_putc
after_putc_lem t p w le past = elim (Bool-cases (t.cursor == t.size)) [
  | inl e ↦ let at = ==→≡ t.cursor t.size e in rw (e, rolled_end t p w at) (scroll_lem t p w at)
  | inr ne ↦
      let i : t.cursor < t.size = ground (arith, le, ne) in
      rw (ne, rolled_inside t p w i)
        (marked-ShowsNext t _ p (record { written = w; inside = i })
          (mark_twice t (t.cursor - 1) (λ t'. t'.cursor) (ground (arith, i)) (λ d. i)))
]

putc_newline :
    (t : Screen) (p : Paper)
    → Shows t p
    → ShowsNext t (tty_putc newline t) (paper_putc t.columns t.size newline p)
unfolding tty_putc tty_upd_cr tty_upd_lf paper_putc
putc_newline t p v =
    let w = v.written in
    let i = v.inside in
    let x = mod-le t.cursor t.columns in
    let at = w.place in
    let size = w.sized in
    let before : t.cursor < t.columns * t.lines = omega (arith, i, size) in
    let end = line_end t.columns t.lines t.cursor w.wide before in
    let t1 = record t { cursor = t.cursor - t.cursor % t.columns + t.columns } in
    let w1 : Written t1 (record p { pos = p.pos - p.pos % t.columns + t.columns }) = record {
      wide = w.wide;
      tall = w.tall;
      sized = w.sized;
      two = w.two;
      place = rw (pos-mod t p w) (omega (arith, at, x));
      shown = w.shown;
      blank = w.blank;
      dirty = w.dirty;
    } in
    after_newline_lem t1 _ w1 (omega (arith, end, size)) (omega arith)

putc_other :
    (ch : ℕ) (t : Screen) (p : Paper)
    → (ch == carriage_return) ≡ false
    → (ch == backspace) ≡ false
    → (ch == newline) ≡ false
    → Shows t p
    → ShowsNext t (tty_putc ch t) (paper_putc t.columns t.size ch p)
unfolding tty_putc tty_upd_putc write_at paper_putc
putc_other ch t p cr bs nl v =
    let w = v.written in
    let i = v.inside in
    let at = w.place in
    let valid : ltb t.cursor t.size ≡ true = ground (arith, i) in
    let t1 = record t { buf = put t.buf t.cursor ch; cursor = t.cursor + 1 } in
    let w1 : Written t1 (record p { cells = put p.cells p.pos ch; pos = p.pos + 1 }) = record {
      wide = w.wide;
      tall = w.tall;
      sized = w.sized;
      two = w.two;
      place = omega (arith, at);
      shown = λ k h. ground (arith, at, w.shown k h);
      blank = λ k h. ground (arith, at, i, w.blank k h);
      dirty = w.dirty;
    } in
    rw (cr, bs, nl, valid) (after_putc_lem t1 _ w1 (omega (arith, i)) (omega arith))

-- On a screen of at least two places that shows a paper, `tty_putc` stays inside of the two arrays and writes on that paper: the
-- carriage return, the backspace, the newline and the printed byte, with the paper moved up by a line where the screen is full. The cursor stays on the screen.
pub tty_putc-Shows :
    (ch : ℕ) (t : Screen) (p : Paper)
    → Shows t p
    → ShowsNext t (tty_putc ch t) (paper_putc t.columns t.size ch p)
tty_putc-Shows ch t p v = elim (Bool-cases (ch == carriage_return)) [
  | inl e ↦ let at : ch ≡ carriage_return = ==→≡ ch carriage_return e in rw at (putc_return t p v)
  | inr cr ↦ elim (Bool-cases (ch == backspace)) [
    | inl e ↦ let at : ch ≡ backspace = ==→≡ ch backspace e in rw at (putc_backspace t p v)
    | inr bs ↦ elim (Bool-cases (ch == newline)) [
      | inl e ↦ let at : ch ≡ newline = ==→≡ ch newline e in rw at (putc_newline t p v)
      | inr nl ↦ putc_other ch t p cr bs nl v
    ]
  ]
]

-- `tty_write` refines writing on a sheet of paper without an end: on a screen that shows a paper it stays inside of the two
-- arrays for every sequence of bytes, and the screen then shows the paper with these bytes written on it.
pub tty_write-Shows :
    (s : Bytes) (t : Screen) (p : Paper)
    → Shows t p
    → (t' : Screen) × (tty_write s t ≡ some t')
      × Shows t' (paper_write t.columns t.size s p)
      × (t'.columns ≡ t.columns)
      × (t'.size ≡ t.size)
unfolding tty_write paper_write
tty_write-Shows [] t p v = (t, refl, v, refl, refl)
tty_write-Shows (ch ∷ s) t p v =
    let (t1, run, v1, columns, size) = tty_putc-Shows ch t p v in
    let (t2, run', v2, columns', size') =
      tty_write-Shows s t1 (paper_putc t.columns t.size ch p) v1 in
    let on = λ (c n : ℕ). Shows t2 (paper_write c n s (paper_putc t.columns t.size ch p)) in
    (
      t2,
      rw run run',
      subst (on t.columns) size (subst (λ c. on c t1.size) columns v2),
      columns' ∙ columns,
      size' ∙ size,
    )
