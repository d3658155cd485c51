-- ===== src/Tty/Task.antt =====
-- kernel/src/devices/tty/tty.c: `tty_task`, which hands each key to the terminal in front.
pub mod Keys
use nju_os_lab.Prelude.{
  ℕ, zero, suc, ◌+◌, ◌-◌, ◌%◌, Bool, true, false, Option, none, some, List, [], ◌∷◌, ◌==◌, ◌&&◌,
  not, if◌then◌else◌, ◌>>=◌,
}
use nju_os_lab.Klib.Strings.{Bytes}
use nju_os_lab.Input.{InputEvent}
use nju_os_lab.Tty.{TtyInput, tty_cook}
use nju_os_lab.Tty.Screen.{Screen, tty_mark_all, tty_write}

-- The devices `tty1` to `tty4` are the terminals 0 to 3. `current` is the device of the task, and `display` is what the
-- display shows, by `fb->ops->write`; a terminal's `display` is its place among the devices.
pub record Terminals : Type 0 where
  pub input : ℕ → TtyInput
  pub screen : ℕ → Screen
  pub current : ℕ
  pub display : ℕ

abbrev pub put_at {ℓ} : {A : Type ℓ} → (ℕ → A) → ℕ → A → ℕ → A
put_at f i v k = if k == i then v else f k

abbrev pub tty_char_ctrl_d : ℕ
tty_char_ctrl_d = 3

-- The terminal that a key with `alt` asks for.
abbrev pub asked : ℕ → ℕ → ℕ
asked now key =
    if key == b'4'
    then 3
    else if key == b'3'
    then 2
    else if key == b'2'
    then 1
    else if key == b'1'
    then 0
    else now

unfoldable pub switch_to : ℕ → Terminals → Option Terminals
switch_to next ts =
    let changed = (do
      t ← tty_mark_all (ts.screen next)
      t' ← tty_write [] t
      some (record ts { screen = put_at ts.screen next t'; current = next; display = next })) in
    if next == ts.current then some ts else changed

-- A byte that the terminal takes, with its echo if there was something to do.
abbrev pub echo : ℕ → Bool → Terminals → Option Terminals
echo ch false ts = some ts
echo ch true ts = do
  t ← tty_write (ch ∷ []) (ts.screen ts.current)
  some (record ts { screen = put_at ts.screen ts.current t })

unfoldable pub cook_key : ℕ → Terminals → Option Terminals
cook_key ch ts = do
  (shown, t) ← tty_cook (ts.input ts.current) ch
  echo ch shown (record ts { input = put_at ts.input ts.current t })

unfoldable pub control_key : ℕ → Terminals → Option Terminals
control_key ch ts =
    let cooked = (do
      (shown, t) ← tty_cook (ts.input ts.current) tty_char_ctrl_d
      some (record ts { input = put_at ts.input ts.current t })) in
    if ch == b'd' then cooked else some ts

-- The loop of `tty_task` for one event. `data` has 16 bits, and `char ch = ev.data` keeps 8 of them; a `char` is taken as a byte. `none` halts.
unfoldable pub tty_task_step : InputEvent → Terminals → Option Terminals
tty_task_step ev ts = do
  ts1 ← if ev.alt then switch_to (asked ts.current ev.key) ts else some ts
  ts2 ← if ev.ctrl then control_key ev.key ts1 else some ts1
  if not ev.ctrl && not ev.alt then cook_key (ev.key % 256) ts2 else some ts2
