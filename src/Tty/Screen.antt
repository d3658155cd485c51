-- ===== src/Tty/Screen.antt =====
-- kernel/src/devices/tty/tty.c: the screen of a terminal. A place on the screen is its index in `buf`; a `character`
-- is its `ch`, since its `metadata` is always 0.
pub mod Paper
pub mod Steps
pub mod Writes
use nju_os_lab.Prelude.{
  ℕ, zero, suc, ◌+◌, ◌-◌, ◌*◌, ◌/◌, ◌%◌, Bool, true, false, Option, none, some, List, [], ◌∷◌, ◌++◌,
  ◌==◌, ◌&&◌, ltb, if◌then◌else◌, ◌>>=◌, ◌>>◌, assert,
}
use nju_os_lab.Klib.Strings.{Bytes}
use nju_os_lab.Tty.{newline, backspace, put}

-- The fields of a `tty_t` that the screen has; `size` is the index of `end`.
pub record Screen : Type 0 where
  pub lines : ℕ
  pub columns : ℕ
  pub size : ℕ
  pub buf : ℕ → ℕ
  pub dirty : ℕ → ℕ
  pub cursor : ℕ

-- The screen of `tty_init`, for a display of so many pixels.
unfoldable pub tty_init_screen : ℕ → ℕ → Screen
tty_init_screen width height = record {
  lines = height / 16;
  columns = width / 8;
  size = width / 8 * (height / 16);
  buf = λ k. 0;
  dirty = λ k. 1;
  cursor = 0;
}

-- Writes to `buf` and `dirty`. `none`: the place is outside of the array.
unfoldable pub write_at : ℕ → ℕ → Screen → Option Screen
write_at k ch t = do assert (ltb k t.size); some (record t { buf = put t.buf k ch })

unfoldable pub tty_mark : ℕ → Screen → Option Screen
tty_mark k t = do assert (ltb k t.size); some (record t { dirty = put t.dirty k 1 })

-- The loops over the `n` places from `i` on.
unfoldable pub blank_from : ℕ → ℕ → Screen → Option Screen
blank_from zero i t = some t
blank_from (suc n) i t = do t' ← write_at i 0 t; blank_from n (i + 1) t'

unfoldable pub mark_from : ℕ → ℕ → Screen → Option Screen
mark_from zero i t = some t
mark_from (suc n) i t = do t' ← tty_mark i t; mark_from n (i + 1) t'

-- `memmove` of everything but the first line to the start.
abbrev pub moved_up : Screen → (ℕ → ℕ) → ℕ → ℕ
moved_up t a k = if ltb k (t.columns * (t.lines - 1)) then a (k + t.columns) else a k

unfoldable pub tty_upd_scrollup : Screen → Option Screen
tty_upd_scrollup t =
    blank_from t.columns (t.cursor - t.columns) (record t {
      buf = moved_up t t.buf;
      dirty = moved_up t t.dirty;
      cursor = t.cursor - t.columns;
    })

unfoldable pub tty_upd_cr : Screen → Screen
tty_upd_cr t = record t { cursor = t.cursor - t.cursor % t.columns }

unfoldable pub tty_upd_lf : Screen → Screen
tty_upd_lf t = record t { cursor = t.cursor + t.columns }

unfoldable pub tty_upd_backsp : Screen → Option Screen
tty_upd_backsp t =
    if ltb 0 t.cursor
    then write_at (t.cursor - 1) 0 (record t { cursor = t.cursor - 1 })
    else some t

unfoldable pub tty_upd_putc : ℕ → Screen → Option Screen
tty_upd_putc ch t = do t' ← write_at t.cursor ch t; some (record t' { cursor = t'.cursor + 1 })

unfoldable pub tty_mark_line : ℕ → Screen → Option Screen
tty_mark_line k t = mark_from t.columns (k - k % t.columns) t

unfoldable pub tty_mark_all : Screen → Option Screen
tty_mark_all t = mark_from t.size 0 t

abbrev pub carriage_return : ℕ
carriage_return = 13

-- The end of a line that has been written to, or left: the screen scrolls, or two parts of it are marked.
unfoldable pub after_newline : Screen → Option Screen
after_newline t =
    let scrolled = (do t' ← tty_upd_scrollup t; tty_mark_all t') in
    let marked = (do t' ← tty_mark_line (t.cursor - t.columns) t; tty_mark_line t'.cursor t') in
    if t.cursor == t.size then scrolled else marked

unfoldable pub after_putc : Screen → Option Screen
after_putc t =
    let scrolled = (do t' ← tty_upd_scrollup t; tty_mark_all t') in
    let marked = (do t' ← tty_mark (t.cursor - 1) t; tty_mark t'.cursor t') in
    if t.cursor == t.size then scrolled else marked

abbrev pub after_backsp : Screen → Option Screen
after_backsp t = do t' ← tty_mark t.cursor t; tty_mark (t'.cursor + 1) t'

unfoldable pub tty_putc : ℕ → Screen → Option Screen
tty_putc ch t =
    let returned = tty_mark_line (tty_upd_cr t).cursor (tty_upd_cr t) in
    let back = (do t' ← tty_upd_backsp t; after_backsp t') in
    let other = (do t' ← tty_upd_putc ch t; after_putc t') in
    if ch == carriage_return
    then returned
    else if ch == backspace
    then back
    else if ch == newline
    then after_newline (tty_upd_lf (tty_upd_cr t))
    else other

-- The loop of `tty_write`; the drawing follows it.
unfoldable pub tty_write : Bytes → Screen → Option Screen
tty_write [] t = some t
tty_write (ch ∷ s) t = do t' ← tty_putc ch t; tty_write s t'

-- A half of a character on the display. `z` is always 0, and `display` is the one of the terminal.
pub record Sprite : Type 0 where
  pub x : ℕ
  pub y : ℕ
  pub texture : ℕ

-- What `tty_render` draws at a place: the cursor, or the character, in two halves.
unfoldable pub draw_at : Screen → ℕ → ℕ → List Sprite
draw_at t x y =
    let k = y * t.columns + x in
    let draw = if k == t.cursor then 219 else t.buf k in
    if t.dirty k == 0
    then []
    else record { x = x * 8; y = y * 16; texture = draw * 2 + 1 }
      ∷ record { x = x * 8; y = y * 16 + 8; texture = draw * 2 + 2 }
      ∷ []

-- The loops of `tty_render`: the `n` places of line `y` from `x` on, and the `n` lines from `y` on.
unfoldable pub draw_line : ℕ → ℕ → ℕ → Screen → List Sprite
draw_line zero x y t = []
draw_line (suc n) x y t = draw_at t x y ++ draw_line n (x + 1) y t

unfoldable pub draw_lines : ℕ → ℕ → Screen → List Sprite
draw_lines zero y t = []
draw_lines (suc n) y t = draw_line t.columns 0 y t ++ draw_lines n (y + 1) t

unfoldable pub tty_render : Screen → List Sprite
tty_render t = draw_lines t.lines 0 t
