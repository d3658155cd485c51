-- ===== src/Procfs/Contents.antt =====
-- kernel/src/vfs/procfs.c: what `inode_open` prints.
use nju_os_lab.Prelude.{
  ℕ, zero, suc, ◌+◌, ◌-◌, ◌/◌, ◌%◌, ◌^◌, ◌≤◌, ◌<◌, ◌≡◌, ◌≢◌, refl, true, Option, none, some, List,
  [], ◌∷◌, ◌++◌, ◌==◌, length, All-append, arith, Bool-cases, inl, inr, pos,
}
use nju_os_lab.Klib.Strings.{Bytes}
use nju_os_lab.Klib.Strings.Search.{Lacks}
use nju_os_lab.Klib.Memory.{Mem}
use nju_os_lab.Klib.Memory.Copy.{Holds, strlen_at-Holds}
use nju_os_lab.Klib.Format.{int, text, push_digits, digit_char, number_text, convert, sprintf}
use nju_os_lab.Klib.Format.Pieces.{
  Piece, lit, conv, Renders, nothing, literal, converted, spelled, args_of,
}
use nju_os_lab.Klib.Format.Written.{Spells, vsnprintf-Renders}
use nju_os_lab.Procfs.{
  Task, InfoType, cpu_info, mem_info, task_info, Info, World, alloc_content, number_of_cpu,
  memory_line, tid_label, name_label, cpu_label, format_of, written_from, make_content,
}

-- A decimal number is made of at most 20 digits.
push_digits_lem :
    (fuel v : ℕ) (s : Bytes)
    → Lacks 0 s
    → Lacks 0 (push_digits fuel 10 v s) × (length (push_digits fuel 10 v s) ≤ fuel + length s)
unfolding push_digits
push_digits_lem zero v s h = (h, omega arith)
push_digits_lem (suc fuel) v s h =
    let digit : digit_char (v % 10) ≢ 0 = λ e. ground (arith, e) in
    let (plain, short) = push_digits_lem fuel (v / 10) (digit_char (v % 10) ∷ s) (digit, h) in
    elim (Bool-cases (v / 10 == 0)) [
      | inl e ↦ rw e ((digit, h), omega arith)
      | inr e ↦ rw e (plain, omega (arith, short))
    ]

-- The text of a file.
abbrev pub text_of : ℕ → InfoType → Option Task → Bytes
text_of ncpu cpu_info obj = number_of_cpu ++ (number_text 10 ncpu ++ (b'\n' ∷ []))
text_of ncpu mem_info obj = memory_line
text_of ncpu task_info none = []
text_of ncpu task_info (some tk) =
    tid_label
    ++ (number_text 10 tk.tid
        ++ (name_label ++ (tk.name ++ (cpu_label ++ (number_text 10 tk.cpu ++ (b'\n' ∷ []))))))

-- A file of a task has the task, whose name is a string of fewer than 400 bytes.
abbrev pub HasTask : InfoType → Option Task → Type 0
HasTask cpu_info obj = Unit {0}
HasTask mem_info obj = Unit {0}
HasTask task_info none = ⊥
HasTask task_info (some tk) = Lacks 0 tk.name × (length tk.name < 400)

abbrev lits : Bytes → List Piece → List Piece
lits [] ps = ps
lits (c ∷ s) ps = lit c ∷ lits s ps

lits-Renders :
    (s : Bytes) (ps : List Piece) (t : Bytes)
    → Lacks b'%' s
    → Renders ps t
    → Renders (lits s ps) (s ++ t)
lits-Renders [] ps t h r = r
lits-Renders (c ∷ s) ps t h r = literal c (lits s ps) (s ++ t) h.0 (lits-Renders s ps t h.1 r)

abbrev number : ℕ → List Piece → List Piece
number n ps = conv none b'd' (int (pos n)) ∷ ps

number-Renders :
    (n : ℕ) (ps : List Piece) (t : Bytes)
    → Renders ps t
    → Renders (number n ps) (number_text 10 n ++ t)
unfolding convert
number-Renders n ps t r =
    let (plain, short) = push_digits_lem 20 n [] tt in
    converted none b'd' (int (pos n)) (number_text 10 n) ps t tt refl refl (omega (arith, short)) r

newline-Renders : Renders (lits (b'\n' ∷ []) []) (b'\n' ∷ [])
newline-Renders = literal b'\n' [] [] (λ e. absurd (omega arith)) nothing

-- The format and its parts.
abbrev pieces_of : ℕ → InfoType → Option Task → List Piece
pieces_of ncpu cpu_info obj = lits number_of_cpu (number ncpu (lits (b'\n' ∷ []) []))
pieces_of ncpu mem_info obj = lits memory_line []
pieces_of ncpu task_info none = []
pieces_of ncpu task_info (some tk) = lits tid_label (
    number tk.tid (
      lits name_label
        (conv none b's' (text tk.name) ∷ lits cpu_label (number tk.cpu (lits (b'\n' ∷ []) [])))))

format_of_lem :
    (ncpu : ℕ) (type : InfoType) (obj : Option Task)
    → HasTask type obj
    → format_of ncpu type obj
      ≡ some (spelled (pieces_of ncpu type obj), args_of (pieces_of ncpu type obj))
unfolding format_of
format_of_lem ncpu cpu_info obj h = refl
format_of_lem ncpu mem_info obj h = refl
format_of_lem ncpu task_info none h = absurd h
format_of_lem ncpu task_info (some tk) h = refl

text_of-Renders :
    (ncpu : ℕ) (type : InfoType) (obj : Option Task)
    → HasTask type obj
    → Renders (pieces_of ncpu type obj) (text_of ncpu type obj)
unfolding convert
text_of-Renders ncpu cpu_info obj h =
    lits-Renders number_of_cpu _ _ (omega arith) (number-Renders ncpu _ _ newline-Renders)
text_of-Renders ncpu mem_info obj h = lits-Renders memory_line [] [] (omega arith) nothing
text_of-Renders ncpu task_info none h = absurd h
text_of-Renders ncpu task_info (some tk) h = lits-Renders tid_label _ _ (omega arith) (
    number-Renders tk.tid _ _ (
      lits-Renders name_label _ _ (omega arith) (
        converted none b's' (text tk.name) tk.name _ _ tt refl refl h.1
          (lits-Renders cpu_label _ _ (omega arith) (number-Renders tk.cpu _ _ newline-Renders)))))

text_of-Lacks :
    (ncpu : ℕ) (type : InfoType) (obj : Option Task)
    → HasTask type obj
    → Lacks 0 (text_of ncpu type obj)
text_of-Lacks ncpu cpu_info obj h =
    All-append (λ x. x ≢ 0) number_of_cpu _ (omega arith)
      (All-append (λ x. x ≢ 0) (number_text 10 ncpu) _ (push_digits_lem 20 ncpu [] tt).0
        (omega arith))
text_of-Lacks ncpu mem_info obj h = omega arith
text_of-Lacks ncpu task_info none h = tt
text_of-Lacks ncpu task_info (some tk) h =
    All-append (λ x. x ≢ 0) tid_label _ (omega arith)
      (All-append (λ x. x ≢ 0) (number_text 10 tk.tid) _ (push_digits_lem 20 tk.tid [] tt).0
        (All-append (λ x. x ≢ 0) name_label _ (omega arith)
          (All-append (λ x. x ≢ 0) tk.name _ h.0
            (All-append (λ x. x ≢ 0) cpu_label _ (omega arith)
              (All-append (λ x. x ≢ 0) (number_text 10 tk.cpu) _ (push_digits_lem 20 tk.cpu [] tt).0
                (omega arith))))))

Holds-written_from :
    (i a : ℕ) (m old : Mem) (t : Bytes)
    → Spells m i t
    → Lacks 0 t
    → Holds (written_from a m old) (a + i) t
Holds-written_from i a m old [] h plain = ground (arith, h)
Holds-written_from i a m old (c ∷ t) h plain =
    let here : (written_from a m old) (a + i) ≡ c = ground (arith, h.0) in
    let rest = Holds-written_from (i + 1) a m old t h.1 plain.1 in
    let next : a + (i + 1) ≡ a + i + 1 = omega arith in (here, plain.0, rw next at rest)

-- `sprintf` writes the text of a file that fits its 128 bytes into fresh memory.
pub make_content_lem :
    (info : Info) (w : World)
    → HasTask info.type info.obj
    → length (text_of w.ncpu info.type info.obj) < 128
    → (m : Mem) × (make_content info w
        ≡ some (
          record info {
            has_opened = true;
            content = some w.next;
            size = length (text_of w.ncpu info.type info.obj);
          },
          record w { mem = m; next = w.next + 128; live = w.next ∷ w.live },
        ))
      × Holds m w.next (text_of w.ncpu info.type info.obj)
      × ((a : ℕ) → a < w.next → m a ≡ w.mem a)
unfolding make_content sprintf
make_content_lem info w task short =
    let t = text_of w.ncpu info.type info.obj in
    let ps = pieces_of w.ncpu info.type info.obj in
    let w1 = alloc_content 128 w in
    let r = text_of-Renders w.ncpu info.type info.obj task in
    let plain = text_of-Lacks w.ncpu info.type info.obj task in
    let (m, run, spells, _) =
      vsnprintf-Renders (λ k. w1.mem (w.next + k)) (2 ^ 32 - 1) 128 ps t r plain
        (omega (arith, short)) short in
    let held : Holds (written_from w.next m w1.mem) w.next t =
      ground (arith, Holds-written_from 0 w.next m w1.mem t spells plain) in
    let size =
      strlen_at-Holds (length t + 1) w.next (written_from w.next m w1.mem) t held (omega arith) in
    (
      written_from w.next m w1.mem,
      rw (format_of_lem w.ncpu info.type info.obj task) (rw run (rw size refl)),
      held,
      λ a lt. ground (arith, lt),
    )
