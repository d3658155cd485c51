-- ===== src/Tty/Task/Keys.antt =====
-- kernel/src/devices/tty/tty.c: what a key does to the line and to the screen of the terminal in front.
use nju_os_lab.Prelude.{
  ℕ, ◌+◌, ◌^◌, ◌%◌, ◌<◌, ◌≡◌, ◌≢◌, refl, Bool, true, false, some, List, [], ◌∷◌, ◌++◌, ◌==◌, length,
  arith, sym, subst,
}
use nju_os_lab.Klib.Strings.{Bytes}
use nju_os_lab.Tty.{TtyInput}
use nju_os_lab.Tty.Lines.{Typed, packed, edit_step, tty_cook-Typed}
use nju_os_lab.Tty.Screen.{Screen}
use nju_os_lab.Tty.Screen.Paper.{Paper, Shows, paper_write}
use nju_os_lab.Tty.Screen.Writes.{tty_write-Shows}
use nju_os_lab.Tty.Task.{Terminals, put_at, echo, cook_key, tty_task_step}

-- The line and the paper of the terminal `k`.
pub record Works (ts : Terminals) (k : ℕ) (lines : List Bytes) (edit : Bytes) (p : Paper)
    : Type 0 where
  pub typed : Typed (ts.input k) lines edit
  pub shows : Shows (ts.screen k) p

-- The paper after a key: the byte is written on it if the line has changed.
abbrev pub echoed : Screen → ℕ → Bool → Paper → Paper
echoed t ch false p = p
echoed t ch true p = paper_write t.columns t.size (ch ∷ []) p

put_at_same {ℓ} : {A : Type ℓ} (f : ℕ → A) (k : ℕ) (v : A) → put_at f k v k ≡ v
put_at_same f k v = let same : (k == k) ≡ true = ground arith in rw same refl

put_at_other {ℓ} : {A : Type ℓ} (f : ℕ → A) (k j : ℕ) (v : A) → j ≢ k → put_at f k v j ≡ f j
put_at_other f k j v ne = let other : (j == k) ≡ false = ground (arith, ne) in rw other refl

-- Everything but the terminal `k` is as it was.
pub record SameElsewhere (ts ts' : Terminals) (k : ℕ) : Type 0 where
  pub current : ts'.current ≡ ts.current
  pub display : ts'.display ≡ ts.display
  pub input : (j : ℕ) → j ≢ k → ts'.input j ≡ ts.input j
  pub screen : (j : ℕ) → j ≢ k → ts'.screen j ≡ ts.screen j

echo_lem :
    (ch : ℕ) (shown : Bool) (ts : Terminals) (t : TtyInput) (lines : List Bytes) (edit : Bytes)
    (p : Paper)
    → Typed t lines edit
    → Shows (ts.screen ts.current) p
    → (ts' : Terminals) × (echo ch shown (record ts { input = put_at ts.input ts.current t })
        ≡ some ts')
      × Works ts' ts.current lines edit (echoed (ts.screen ts.current) ch shown p)
      × SameElsewhere ts ts' ts.current
echo_lem ch false ts t lines edit p h v = (
  record ts { input = put_at ts.input ts.current t },
  refl,
  record {
    typed = subst (λ i. Typed i lines edit) (sym (put_at_same ts.input ts.current t)) h;
    shows = v;
  },
  record {
    current = refl;
    display = refl;
    input = λ j ne. put_at_other ts.input ts.current j t ne;
    screen = λ j ne. refl;
  },
)
echo_lem ch true ts t lines edit p h v =
    let k = ts.current in
    let (s, run, v', columns, size) = tty_write-Shows (ch ∷ []) (ts.screen k) p v in
    (
      record ts { input = put_at ts.input k t; screen = put_at ts.screen k s },
      rw run refl,
      record {
        typed = subst (λ i. Typed i lines edit) (sym (put_at_same ts.input k t)) h;
        shows =
            subst (λ i. Shows i (echoed (ts.screen k) ch true p)) (sym (put_at_same ts.screen k s))
              v';
      },
      record {
        current = refl;
        display = refl;
        input = λ j ne. put_at_other ts.input k j t ne;
        screen = λ j ne. put_at_other ts.screen k j s ne;
      },
    )

-- A key that is pressed alone and has a low byte that is not NUL, where the ring of the terminal in front has room for two bytes: `tty_task` does not
-- halt, that terminal's line changes as in a line editor by the low byte of the key, its screen shows this byte exactly if the line has changed, and every other terminal is as it was.
pub tty_task_step_lem :
    (ts : Terminals) (key : ℕ) (lines : List Bytes) (edit : Bytes) (p : Paper)
    → Works ts ts.current lines edit p
    → key % 256 ≢ 0
    → length (packed lines ++ edit) + 2 < 1024
    → (ts.input ts.current).cooked.value + 1 < 2 ^ 32
    → (ts' : Terminals) × (tty_task_step (record { ctrl = false; alt = false; key = key }) ts
        ≡ some ts')
      × Works ts' ts.current
          (edit_step (key % 256) lines edit).1
          (edit_step (key % 256) lines edit).2
          (echoed (ts.screen ts.current) (key % 256) (edit_step (key % 256) lines edit).0 p)
      × SameElsewhere ts ts' ts.current
unfolding tty_task_step cook_key
tty_task_step_lem ts key lines edit p w ne room small =
    let ch = key % 256 in
    let (t, run, h) = tty_cook-Typed (ts.input ts.current) lines edit ch w.typed ne room small in
    rw run (
      echo_lem ch (edit_step ch lines edit).0 ts t (edit_step ch lines edit).1
        (edit_step ch lines edit).2 p h w.shows)
