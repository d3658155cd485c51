-- ===== src/Procfs/Files.antt =====
-- kernel/src/vfs/procfs.c: a file from `fs_lookup` to `fs_close`.
use nju_os_lab.Prelude.{
  ℕ, ◌+◌, ◌-◌, ◌≤◌, ◌<◌, ◌≡◌, refl, sym, ◌∙◌, true, ◌==◌, Option, none, some, List, [], All,
  Bool-cases, Option-cases, inl, inr, subst, ◌∷◌, length, append-nil, arith, pos,
}
use nju_os_lab.Klib.Strings.{Bytes, streq}
use nju_os_lab.Klib.Strings.Search.{Lacks}
use nju_os_lab.Klib.Memory.{Mem}
use nju_os_lab.Klib.Memory.Copy.{Holds}
use nju_os_lab.Devfs.{file_read}
use nju_os_lab.Procfs.{
  Task, InfoType, Info, cpu_info, mem_info, task_info, cpuinfo, meminfo, task_lookup, lookup_name,
  ProcFile, World, smaller, inode_access, inode_open, inode_read, inode_close, fs_lookup, fs_close,
  new_info, without, free_content,
}
use nju_os_lab.Procfs.Contents.{text_of, HasTask, make_content_lem}
use nju_os_lab.Procfs.Reads.{reading, read_behind, read_end, take_whole}

abbrev pub looked_up : InfoType → Option Task → ProcFile
looked_up type obj = record { info = some (new_info type obj); flags = none; offset = 0 }

-- `open` for reading.
pub open_read :
    (w : World) (type : InfoType) (obj : Option Task)
    → HasTask type obj
    → length (text_of w.ncpu type obj) < 128
    → (m : Mem) × (inode_open file_read (looked_up type obj) w
        ≡ some (
          pos 0,
          reading type obj w.next (length (text_of w.ncpu type obj)) 0,
          record w { mem = m; next = w.next + 128; live = w.next ∷ w.live },
        ))
      × Holds m w.next (text_of w.ncpu type obj)
      × ((a : ℕ) → a < w.next → m a ≡ w.mem a)
unfolding inode_open inode_access
open_read w type obj task short =
    let (m, e, held, same) = make_content_lem (new_info type obj) w task short in
    (m, rw e refl, held, same)

-- `close` and `fs_close`: the text is freed once.
pub closed_once :
    (w w' : World) (type : InfoType) (obj : Option Task) (size o : ℕ)
    → w'.live ≡ w.next ∷ w.live
    → (f : ProcFile) × (inode_close (reading type obj w.next size o) w'
        ≡ some (pos 0, f, record w' { live = w.live }))
      × (fs_close f.info (record w' { live = w.live }) ≡ some (pos 0, record w' { live = w.live }))
unfolding inode_close fs_close free_content without
closed_once w w' type obj size o e =
    let same : (w.next == w.next) ≡ true = ground arith in
    (
      record { info = some (new_info type obj); flags = some file_read; offset = o },
      rw e (rw same refl),
      refl,
    )

-- What `fs_lookup` makes of a path.
abbrev pub IsTask : Task → Type 0
IsTask tk = Lacks 0 tk.name × (length tk.name < 400)

task_lookup-IsTask :
    (name : Bytes) (tasks : List Task) (tk : Task)
    → All IsTask tasks
    → task_lookup name tasks ≡ some tk
    → IsTask tk
unfolding task_lookup
task_lookup-IsTask name [] tk h e = cc
task_lookup-IsTask name (cur ∷ rest) tk h e = elim (Bool-cases (streq cur.name name)) [
  | inl q ↦ let same : cur ≡ tk = cc in subst IsTask same h.0
  | inr q ↦ task_lookup-IsTask name rest tk h.1 cc
]

lookup_name-HasTask :
    (name : Bytes) (tasks : List Task) (info : Info)
    → All IsTask tasks
    → lookup_name name tasks ≡ some (some info)
    → (info ≡ new_info info.type info.obj) × HasTask info.type info.obj
unfolding lookup_name
lookup_name-HasTask name tasks info h e = elim (Bool-cases (streq name cpuinfo)) [
  | inl q ↦ let same : new_info cpu_info none ≡ info = cc in rw⁻¹ same (refl, tt)
  | inr q ↦ elim (Bool-cases (streq name meminfo)) [
    | inl q2 ↦ let same : new_info mem_info none ≡ info = cc in rw⁻¹ same (refl, tt)
    | inr q2 ↦ elim (Option-cases (task_lookup name tasks)) [
      | inl l ↦ cc
      | inr (tk, l) ↦
          let same : new_info task_info (some tk) ≡ info = cc in
          rw⁻¹ same (refl, task_lookup-IsTask name tasks tk h l)
    ]
  ]
]

fs_lookup-HasTask :
    (path : Bytes) (tasks : List Task) (info : Info)
    → All IsTask tasks
    → fs_lookup path tasks ≡ some (some (some info))
    → (info ≡ new_info info.type info.obj) × HasTask info.type info.obj
unfolding fs_lookup
fs_lookup-HasTask [] tasks info h e = cc
fs_lookup-HasTask (c ∷ name) tasks info h e = elim (Bool-cases (c == b'/')) [
  | inr q ↦ cc
  | inl q ↦ elim (Bool-cases (length (c ∷ name) == 1)) [
    | inl q2 ↦ cc
    | inr q2 ↦
        let found : lookup_name name tasks ≡ some (some info) = cc in
        lookup_name-HasTask name tasks info h found
  ]
]

-- A file of procfs from `open` to `fs_close`.
abbrev pub ReadWhole : World → InfoType → Option Task → Info → ℕ → ℕ → Type 0
ReadWhole w type obj info buf size =
    (f1 f2 f3 : ProcFile) × (w1 w2 w3 w4 : World) × (inode_open file_read
        (record { info = some info; flags = none; offset = 0 }) w
      ≡ some (pos 0, f1, w1))
    × (inode_read buf size f1 w1 ≡ some (pos (length (text_of w.ncpu type obj)), f2, w2))
    × Holds w2.mem buf (text_of w.ncpu type obj)
    × (inode_read buf size f2 w2 ≡ some (pos 0, f2, w3))
    × (inode_close f2 w3 ≡ some (pos 0, f3, w4))
    × (fs_close f3.info w4 ≡ some (pos 0, w4))
    × (w4.live ≡ w.live)

read_new :
    (w : World) (type : InfoType) (obj : Option Task) (buf size : ℕ)
    → HasTask type obj
    → length (text_of w.ncpu type obj) < 128
    → 0 < length (text_of w.ncpu type obj)
    → length (text_of w.ncpu type obj) ≤ size
    → buf + size < w.next
    → w.mem (buf + length (text_of w.ncpu type obj)) ≡ 0
    → ReadWhole w type obj (new_info type obj) buf size
read_new w type obj buf size task short some_text room below clean =
    let t = text_of w.ncpu type obj in
    let (m1, opens, held1, same) = open_read w type obj task short in
    let w1 : World = record w { mem = m1; next = w.next + 128; live = w.next ∷ w.live } in
    let whole : smaller (length t - 0) size ≡ length t = ground (arith, room) in
    let behind : m1 (buf + length t) ≡ 0 = same _ (omega (arith, room, below)) ∙ clean in
    let (m2, reads, read, held2) =
      read_behind w1 type obj w.next t held1 0 buf size (length t) [] whole (inl below) some_text
        (omega arith) behind (omega (arith, short)) in
    let w2 : World = record w1 { mem = m2 } in
    let (m3, ends, held3) =
      read_end w2 type obj w.next t held2 buf size (inl below) (omega (arith, short)) in
    let w3 : World = record w2 { mem = m3 } in
    let (f3, closes, frees) = closed_once w w3 type obj (length t) (length t) refl in
    let n1 : length t + 0 ≡ length t = omega arith in
    let n2 : 0 + length t ≡ length t = omega arith in
    (
      reading type obj w.next (length t) 0,
      reading type obj w.next (length t) (length t),
      f3,
      w1,
      w2,
      w3,
      record w3 { live = w.live },
      opens,
      rw (n1, n2) at reads,
      rw (take_whole (length t) t (omega arith), append-nil t) at read,
      ends,
      closes,
      frees,
      refl,
    )

some_text :
    (ncpu : ℕ) (type : InfoType) (obj : Option Task)
    → HasTask type obj
    → 0 < length (text_of ncpu type obj)
some_text ncpu cpu_info obj h = omega arith
some_text ncpu mem_info obj h = omega arith
some_text ncpu task_info none h = absurd h
some_text ncpu task_info (some tk) h = omega arith

-- All tasks have names of fewer than 400 bytes. A path that `fs_lookup` finds is opened for reading, and its text fits the 128 bytes there are for it. The reader has a buffer for the text, with
-- a NUL behind the place of the text, in memory that `pmm` does not give out again. Then `open` succeeds; the first `read` puts the whole text into the buffer and returns its length, and the next one returns 0;
-- `close` and `fs_close` return 0, and what is in use afterwards is what was in use before. The text is the number of processors, the line about the memory, or the number, name and processor of the task.
pub read_text :
    (w : World) (path : Bytes) (info : Info) (buf size : ℕ)
    → All IsTask w.tasks
    → fs_lookup path w.tasks ≡ some (some (some info))
    → length (text_of w.ncpu info.type info.obj) < 128
    → length (text_of w.ncpu info.type info.obj) ≤ size
    → buf + size < w.next
    → w.mem (buf + length (text_of w.ncpu info.type info.obj)) ≡ 0
    → ReadWhole w info.type info.obj info buf size
read_text w path info buf size tasks looked short room below clean =
    let (new, task) = fs_lookup-HasTask path w.tasks info tasks looked in
    subst (λ x. ReadWhole w info.type info.obj x buf size) (sym new)
      (read_new w info.type info.obj buf size task short (some_text w.ncpu info.type info.obj task)
        room below clean)
