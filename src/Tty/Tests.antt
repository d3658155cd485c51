-- ===== src/Tty/Tests.antt =====
-- The terminal's theorems at a line that is typed, edited and read, and on a small screen.
use nju_os_lab.Prelude.{
  ℕ, ◌≡◌, refl, false, Option, some, [], ◌∷◌, ◌==◌, if◌then◌else◌, ◌>>=◌, arith,
}
use nju_os_lab.Kmt.Semaphores.{sem_init}
use nju_os_lab.Tty.{TtyInput, tty_read, tty_init_queue, newline}
use nju_os_lab.Tty.Lines.{Typed, edit_step, tty_read-Typed}
use nju_os_lab.Tty.Screen.{
  Screen, tty_init_screen, tty_putc, tty_write, after_newline, after_putc, tty_upd_cr, tty_upd_lf,
  tty_upd_putc, tty_upd_scrollup, tty_mark, tty_mark_all, tty_mark_line, blank_from, mark_from,
  write_at,
}
use nju_os_lab.Tty.Task.{Terminals, tty_task_step}
use nju_os_lab.Tty.Task.Keys.{Works, echoed, SameElsewhere, tty_task_step_lem}
use nju_os_lab.Tty.Screen.Paper.{Paper, Shows, paper_write}
use nju_os_lab.Tty.Screen.Writes.{tty_write-Shows}

-- The new terminal has nothing typed.
tty_init_queue-Typed : Typed tty_init_queue [] []
unfolding sem_init
tty_init_queue-Typed = record {
  holds = record {
    window = record {
      inside = omega arith;
      room = omega arith;
      rear = refl;
      bytes = tt;
      ended = refl;
    };
    before = refl;
  };
  counted = refl;
  lines_plain = tt;
  edit_plain = tt;
}

abbrev h_and_newline : TtyInput
h_and_newline = record {
  queue = record {
    buf = λ k. if k == 0 then b'h' else if k == 1 then newline else 0;
    front = 0;
    rear = 3;
  };
  cooked = record { value = 1 };
}

h_and_newline-Typed : Typed h_and_newline ((b'h' ∷ newline ∷ []) ∷ []) []
h_and_newline-Typed = record {
  holds = record {
    window = record {
      inside = omega arith;
      room = omega arith;
      rear = refl;
      bytes = (refl, (refl, (refl, tt)));
      ended = refl;
    };
    before = refl;
  };
  counted = refl;
  lines_plain = (((λ e. absurd (omega arith)), ((λ e. absurd (omega arith)), tt)), tt);
  edit_plain = tt;
}

tty_read-Typed_example :
    (t' : TtyInput) × (tty_read 1 h_and_newline ≡ some ((2, b'h' ∷ []), t')) × Typed t' [] []
tty_read-Typed_example =
    tty_read-Typed h_and_newline [] (b'h' ∷ newline ∷ []) [] 1 h_and_newline-Typed (omega arith)

-- A screen of two lines of two places.
abbrev small : Screen
small = record { lines = 2; columns = 2; size = 4; buf = λ k. 0; dirty = λ k. 1; cursor = 0 }

abbrev blank_paper : Paper
blank_paper = record { cells = λ k. 0; pos = 0; gone = 0 }

small-init : tty_init_screen 16 32 ≡ small
unfolding tty_init_screen
small-init = refl

small-Shows : Shows small blank_paper
small-Shows = record {
  written = record {
    wide = omega arith;
    tall = omega arith;
    sized = refl;
    two = omega arith;
    place = refl;
    shown = λ k h. refl;
    blank = λ k h. refl;
    dirty = λ k h. refl;
  };
  inside = omega arith;
}

tty_write-Shows_example :
    (t' : Screen) × (tty_write (b'a' ∷ newline ∷ b'b' ∷ newline ∷ b'c' ∷ []) small ≡ some t')
    × Shows t' (paper_write 2 4 (b'a' ∷ newline ∷ b'b' ∷ newline ∷ b'c' ∷ []) blank_paper)
    × (t'.columns ≡ 2)
    × (t'.size ≡ 4)
tty_write-Shows_example =
    tty_write-Shows (b'a' ∷ newline ∷ b'b' ∷ newline ∷ b'c' ∷ []) small blank_paper small-Shows

-- After the two newlines the screen has scrolled by a line.
written_text : Option (ℕ × ℕ × ℕ × ℕ)
written_text = do
  t ← tty_write (b'a' ∷ newline ∷ b'b' ∷ newline ∷ b'c' ∷ []) small
  some (t.buf 0, t.buf 1, t.buf 2, t.cursor)

written_text_lem : written_text ≡ some (b'b', 0, b'c', 3)
unfolding written_text tty_write tty_putc after_newline after_putc tty_upd_cr tty_upd_lf
    tty_upd_putc tty_upd_scrollup tty_mark tty_mark_all tty_mark_line blank_from mark_from write_at
written_text_lem = refl

-- Four new terminals.
abbrev terminals : Terminals
terminals = record { input = λ k. tty_init_queue; screen = λ k. small; current = 0; display = 0 }

tty_task_step_lem_example :
    (ts' : Terminals) × (tty_task_step (record { ctrl = false; alt = false; key = b'h' }) terminals
      ≡ some ts')
    × Works ts' 0
        (edit_step b'h' [] []).1
        (edit_step b'h' [] []).2
        (echoed small b'h' (edit_step b'h' [] []).0 blank_paper)
    × SameElsewhere terminals ts' 0
unfolding sem_init
tty_task_step_lem_example =
    tty_task_step_lem terminals b'h' [] [] blank_paper
      (record { typed = tty_init_queue-Typed; shows = small-Shows }) (λ e. absurd (omega arith))
      (omega arith) (omega arith)
