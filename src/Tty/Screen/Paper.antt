-- ===== src/Tty/Screen/Paper.antt =====
-- kernel/src/devices/tty/tty.c: the screen is a window on an endless sheet of paper.
use nju_os_lab.Prelude.{
  ℕ, zero, suc, ◌+◌, ◌-◌, ◌*◌, ◌/◌, ◌%◌, ◌≤◌, ◌<◌, ◌≡◌, refl, true, Option, some, [], ◌∷◌, ◌==◌,
  ◌&&◌, ltb, leb, if◌then◌else◌, ◌>>=◌, arith, ap, sym, ◌∙◌,
}
use native.Mathlib.Nat.{div-add-mod, mod-lt, mul-le-mul_left, mul-suc, lt_of_mul-lt-mul_left}
use nju_os_lab.Klib.Strings.{Bytes}
use nju_os_lab.Tty.{newline, backspace, put}
use nju_os_lab.Tty.Screen.{
  Screen, write_at, tty_mark, blank_from, mark_from, moved_up, tty_upd_scrollup, tty_mark_line,
  tty_mark_all, carriage_return,
}

-- Marking changes nothing but `dirty`, and that only to 1.
abbrev pub Marks : Screen → Option Screen → Type 0
Marks t r = (d : ℕ → ℕ) × (r ≡ some (record t { dirty = d })) × ((k : ℕ) → t.dirty k ≡ 1 → d k ≡ 1)

pub tty_mark-Marks : (k : ℕ) (t : Screen) → k < t.size → Marks t (tty_mark k t)
unfolding tty_mark
tty_mark-Marks k t h = (put t.dirty k 1, ground arith, λ j e. ground (arith, e))

mark_from-Marks : (n i : ℕ) (t : Screen) → i + n ≤ t.size → Marks t (mark_from n i t)
unfolding mark_from
mark_from-Marks zero i t h = (t.dirty, refl, λ k e. e)
mark_from-Marks (suc n) i t h =
    let (d, run, kept) = tty_mark-Marks i t (omega arith) in
    let (d', run', kept') = mark_from-Marks n (i + 1) (record t { dirty = d }) (omega arith) in
    (d', rw run run', λ k e. kept' k (kept k e))

-- Blanks in a row of places, and everything else as it was.
blank_from_lem :
    (n i : ℕ) (t : Screen)
    → i + n ≤ t.size
    → (b : ℕ → ℕ) × (blank_from n i t ≡ some (record t { buf = b }))
      × ((k : ℕ) → b k ≡ (if leb i k && ltb k (i + n) then 0 else t.buf k))
unfolding blank_from write_at
blank_from_lem zero i t h = (t.buf, refl, λ k. ground arith)
blank_from_lem (suc n) i t h =
    let (b, run, cells) =
      blank_from_lem n (i + 1) (record t { buf = put t.buf i 0 }) (omega arith) in
    let inside : ltb i t.size ≡ true = ground arith in
    (b, rw (inside) run, λ k. ground (arith, cells k))

-- A sheet of paper without an end: what stands in its places, the place to write at, and how many lines are above the screen.
pub record Paper : Type 0 where
  pub cells : ℕ → ℕ
  pub pos : ℕ
  pub gone : ℕ

-- At the end of the screen the paper moves up by a line; nothing on it changes.
abbrev pub rolled : ℕ → ℕ → Paper → Paper
rolled columns size p =
    if p.pos == columns * p.gone + size then record p { gone = p.gone + 1 } else p

unfoldable pub paper_putc : ℕ → ℕ → ℕ → Paper → Paper
paper_putc columns size ch p =
    if ch == carriage_return
    then record p { pos = p.pos - p.pos % columns }
    else if ch == backspace
    then if ltb (columns * p.gone) p.pos
      then record p { cells = put p.cells (p.pos - 1) 0; pos = p.pos - 1 }
      else p
    else if ch == newline
    then rolled columns size (record p { pos = p.pos - p.pos % columns + columns })
    else rolled columns size (record p { cells = put p.cells p.pos ch; pos = p.pos + 1 })

unfoldable pub paper_write : ℕ → ℕ → Bytes → Paper → Paper
paper_write columns size [] p = p
paper_write columns size (ch ∷ s) p = paper_write columns size s (paper_putc columns size ch p)

-- The screen shows the paper from line `gone` on, all places are dirty, and the paper below the screen is blank.
pub record Written (t : Screen) (p : Paper) : Type 0 where
  pub wide : 0 < t.columns
  pub tall : 0 < t.lines
  pub sized : t.size ≡ t.columns * t.lines
  pub two : 1 < t.size
  pub place : p.pos ≡ t.columns * p.gone + t.cursor
  pub shown : (k : ℕ) → k < t.size → t.buf k ≡ p.cells (t.columns * p.gone + k)
  pub blank : (k : ℕ) → t.size ≤ k → p.cells (t.columns * p.gone + k) ≡ 0
  pub dirty : (k : ℕ) → k < t.size → t.dirty k ≡ 1

pub record Shows (t : Screen) (p : Paper) : Type 0 where
  pub written : Written t p
  pub inside : t.cursor < t.size

last_line : (c l : ℕ) → 0 < l → c * (l - 1) + c ≡ c * l
last_line c zero h = elim h [ ]
last_line c (suc l) h = let e : suc l - 1 ≡ l = omega arith in rw e (grind arith)

next_line : (c g : ℕ) → c * (g + 1) ≡ c * g + c
next_line c g = let e : g + 1 ≡ suc g = omega arith in rw e (mul-suc c g)

-- The line of a place ends inside of the screen.
pub line_end : (c l x : ℕ) → 0 < c → x < c * l → x - x % c + c ≤ c * l
line_end c l x pos h =
    let e = div-add-mod x c in
    let r = mod-lt x pos in
    let before : x / c < l = lt_of_mul-lt-mul_left c (omega (arith, e)) in
    let up = mul-le-mul_left c (before) in omega (arith, e, up, mul-suc c (x / c))

pub marked-Written :
    (t : Screen) (p : Paper) (d : ℕ → ℕ)
    → Written t p
    → ((k : ℕ) → t.dirty k ≡ 1 → d k ≡ 1)
    → Written (record t { dirty = d }) p
marked-Written t p d w kept = record {
  wide = w.wide;
  tall = w.tall;
  sized = w.sized;
  two = w.two;
  place = w.place;
  shown = w.shown;
  blank = w.blank;
  dirty = λ k h. kept k (w.dirty k h);
}

pub tty_mark_line-Marks :
    (k : ℕ) (t : Screen) (p : Paper) → Written t p → k < t.size → Marks t (tty_mark_line k t)
unfolding tty_mark_line
tty_mark_line-Marks k t p w h =
    mark_from-Marks t.columns (k - k % t.columns) t
      (rw w.sized (line_end t.columns t.lines k w.wide (rw (sym w.sized) h)))

-- The end of the screen: the paper moves up, and the new line at the bottom is blank.
pub scroll_lem :
    (t : Screen) (p : Paper)
    → Written t p
    → t.cursor ≡ t.size
    → (t' : Screen) × ((do t1 ← tty_upd_scrollup t; tty_mark_all t1) ≡ some t')
      × Shows t' (record p { gone = p.gone + 1 })
      × (t'.columns ≡ t.columns)
      × (t'.size ≡ t.size)
unfolding tty_upd_scrollup tty_mark_all
scroll_lem t p w end =
    let full : t.columns * (t.lines - 1) + t.columns ≡ t.size =
      last_line t.columns t.lines w.tall ∙ sym w.sized in
    let t0 = record t {
      buf = moved_up t t.buf;
      dirty = moved_up t t.dirty;
      cursor = t.cursor - t.columns;
    } in
    let (b, run, cells) =
      blank_from_lem t.columns (t.cursor - t.columns) t0 (omega (arith, full)) in
    let t1 = record t0 { buf = b } in
    let (d, run', kept) = mark_from-Marks t.size 0 t1 (omega arith) in
    let more = next_line t.columns p.gone in
    let scrolled : (k : ℕ) → k < t.size → b k ≡ p.cells (t.columns * (p.gone + 1) + k) = λ k h.
      let at : t.columns * p.gone + (k + t.columns) ≡ t.columns * (p.gone + 1) + k =
        omega (arith, more) in
      rw (sym at)
        (ground (arith, full, cells k, w.shown (k + t.columns), w.blank (k + t.columns))) in
    (
      record t1 { dirty = d },
      rw run run',
      record {
        written = record {
          wide = w.wide;
          tall = w.tall;
          sized = w.sized;
          two = w.two;
          place = let at = w.place in omega (arith, at, full, more);
          shown = λ k h. scrolled k h;
          blank = λ k h. ap p.cells (omega (arith, more)) ∙ w.blank (t.columns + k) (omega arith);
          dirty = λ k h. kept k (ground (arith, full, w.dirty k h, w.dirty (k + t.columns)));
        };
        inside = let wd = w.wide in omega (arith, full);
      },
      refl,
      refl,
    )
