-- ===== src/Procfs.antt =====
-- kernel/src/vfs/procfs.c, the file system of the tasks, with `task_lookup` of kernel/src/kmt.c. The asserted name of the file
-- system is that of all its inodes. The memory of the inodes is left out.
pub mod Contents
pub mod Reads
pub mod Files
pub mod Parts
pub mod Life
mod Tests
use nju_os_lab.Prelude.{
  ℕ, zero, suc, ◌+◌, ◌-◌, ◌%◌, ◌^◌, Bool, true, false, Option, none, some, List, [], ◌∷◌, ◌++◌,
  ◌==◌, ◌&&◌, ltb, leb, if◌then◌else◌, ◌>>=◌, ◌>>◌, assert, length, ℤ, pos, minus_one,
}
use nju_os_lab.Klib.Strings.{Bytes, streq}
use nju_os_lab.Klib.Memory.{Mem, strlen_at, strncpy}
use nju_os_lab.Klib.Format.{Arg, int, text, sprintf}
use nju_os_lab.Devfs.{Flag, dir_exist, file_exist, file_read, file_write, file_append, other}

-- The fields of a task that procfs reads.
pub record Task : Type 0 where
  pub tid : ℕ
  pub name : Bytes
  pub cpu : ℕ

pub data InfoType : Type 0 where
  cpu_info mem_info task_info : InfoType

-- `task_info`.
pub record Info : Type 0 where
  pub type : InfoType
  pub has_opened : Bool
  pub obj : Option Task
  pub content : Option ℕ
  pub size : ℕ

-- A `file`, with the `ptr` of its inode, `NULL` for the root. `flags` is `none` before the first `open`.
pub record ProcFile : Type 0 where
  pub info : Option Info
  pub flags : Option Flag
  pub offset : ℕ

-- The list of tasks, `_ncpu()`, the memory, and what `pmm` keeps: the next free address, which is never used again, and the addresses of the contents in use.
pub record World : Type 0 where
  pub tasks : List Task
  pub ncpu : ℕ
  pub mem : Mem
  pub next : ℕ
  pub live : List ℕ

-- `pmm->alloc`, which clears the memory.
abbrev pub alloc_content : ℕ → World → World
alloc_content size w = record w {
  mem = λ a. if leb w.next a && ltb a (w.next + size) then 0 else w.mem a;
  next = w.next + size;
  live = w.next ∷ w.live;
}

-- `pmm->free` halts when the block is not in use.
unfoldable pub without : ℕ → List ℕ → Option (List ℕ)
without a [] = none
without a (x ∷ live) =
    let later = (do rest ← without a live; some (x ∷ rest)) in if a == x then some live else later

unfoldable pub free_content : Option ℕ → World → Option World
free_content none w = none
free_content (some a) w = do live ← without a w.live; some (record w { live = live })

unfoldable pub inode_access : Flag → Option Info → ℤ
inode_access dir_exist none = pos 0
inode_access file_exist (some info) = pos 0
inode_access file_read (some info) = pos 0
inode_access flag ptr = minus_one

abbrev pub number_of_cpu : Bytes
number_of_cpu =
    b'N' ∷ b'u' ∷ b'm' ∷ b'b' ∷ b'e' ∷ b'r' ∷ b' ' ∷ b'o' ∷ b'f' ∷ b' ' ∷ b'C' ∷ b'P' ∷ b'U' ∷ b':'
    ∷ b' ' ∷ []

abbrev pub memory_line : Bytes
memory_line =
    b'M' ∷ b'e' ∷ b'm' ∷ b'o' ∷ b'r' ∷ b'y' ∷ b' ' ∷ b'i' ∷ b'n' ∷ b'f' ∷ b'o' ∷ b'r' ∷ b'm' ∷ b'e'
    ∷ b'n' ∷ b't' ∷ b'i' ∷ b'o' ∷ b'n' ∷ b':' ∷ b' ' ∷ b'd' ∷ b'e' ∷ b'm' ∷ b'o' ∷ b'.' ∷ b'\n' ∷ []

abbrev pub tid_label : Bytes
tid_label = b'T' ∷ b'i' ∷ b'd' ∷ b':' ∷ b' ' ∷ []

abbrev pub name_label : Bytes
name_label = b'\n' ∷ b'N' ∷ b'a' ∷ b'm' ∷ b'e' ∷ b':' ∷ b' ' ∷ []

abbrev pub cpu_label : Bytes
cpu_label = b'\n' ∷ b'C' ∷ b'P' ∷ b'U' ∷ b':' ∷ b' ' ∷ []

-- The format and the arguments of the `sprintf` of a type. `none`: the assertion that the task is there fails.
unfoldable pub format_of : ℕ → InfoType → Option Task → Option (Bytes × List Arg)
format_of ncpu cpu_info obj =
    some (number_of_cpu ++ (b'%' ∷ b'd' ∷ b'\n' ∷ []), int (pos ncpu) ∷ [])
format_of ncpu mem_info obj = some (memory_line, [])
format_of ncpu task_info none = none
format_of ncpu task_info (some tk) = some (
  tid_label
      ++ (b'%' ∷ b'd' ∷ (name_label ++ (b'%' ∷ b's' ∷ (cpu_label ++ (b'%' ∷ b'd' ∷ b'\n' ∷ []))))),
  int (pos tk.tid) ∷ text tk.name ∷ int (pos tk.cpu) ∷ [],
)

-- The memory in which a function has written from `a` on.
abbrev pub written_from : ℕ → Mem → Mem → Mem
written_from a m old b = if leb a b then m (b - a) else old b

-- `content` and `size` of the file that is opened: `sprintf` into 128 bytes. `size_t` has 32 bits.
abbrev pub print_content : Info → ℕ → World → Bytes × List Arg → Option (Info × World)
print_content info a w (fmt, args) = do
  (ret, m) ← sprintf 32 (λ k. w.mem (a + k)) fmt args
  size ← strlen_at (ret + 1) (written_from a m w.mem) a
  some (
    record info { has_opened = true; content = some a; size = size },
    record w { mem = written_from a m w.mem },
  )

unfoldable pub make_content : Info → World → Option (Info × World)
make_content info w = do
  fmt ← format_of w.ncpu info.type info.obj
  print_content info w.next (alloc_content 128 w) fmt

abbrev pub is_ok : ℤ → Bool
is_ok (pos zero) = true
is_ok r = false

-- The part of `inode_open` behind the call of `inode_access`; the root is no file.
abbrev pub open_info : Flag → Option Info → ProcFile → World → Option (ℤ × ProcFile × World)
open_info dir_exist ptr f w = some (minus_one, f, w)
open_info flag none f w = none
open_info flag (some info) f w =
    let opened = (do
      (info', w') ← make_content info w
      some (pos 0, record f { info = some info'; flags = some flag; offset = 0 }, w')) in
    if info.has_opened then some (minus_one, f, w) else opened

unfoldable pub inode_open : Flag → ProcFile → World → Option (ℤ × ProcFile × World)
inode_open flag f w =
    let opened = open_info flag f.info f w in
    if is_ok (inode_access flag f.info) then opened else some (minus_one, f, w)

abbrev pub close_info : Option Info → ProcFile → World → Option (ℤ × ProcFile × World)
close_info none f w = some (pos 0, f, w)
close_info (some info) f w =
    let closed = (do
      w' ← free_content info.content w
      some (
        pos 0,
        record f { info = some (record info { has_opened = false; content = none; size = 0 }) },
        w',
      )) in
    if info.has_opened then closed else some (minus_one, f, w)

unfoldable pub inode_close : ProcFile → World → Option (ℤ × ProcFile × World)
inode_close f w = close_info f.info f w

-- `f->flags != FILE_READ`.
abbrev pub is_reading : Option Flag → Bool
is_reading (some file_read) = true
is_reading flags = false

abbrev pub smaller : ℕ → ℕ → ℕ
smaller rem size = if ltb size rem then size else rem

abbrev pub copy_out : ℕ → ℕ → ℕ → ℕ → ProcFile → World → Option (ℤ × ProcFile × World)
copy_out buf size content total f w =
    let m = strncpy buf (content + f.offset) (smaller (total - f.offset) size) w.mem in
    do
      assert (leb f.offset total)
      res ← strlen_at (2 ^ 32) m buf
      some (pos res, record f { offset = (f.offset + res) % 2 ^ 64 }, record w { mem = m })

abbrev pub read_content : ℕ → ℕ → Option ℕ → ℕ → ProcFile → World → Option (ℤ × ProcFile × World)
read_content buf size none total f w = none
read_content buf size (some a) total f w = copy_out buf size a total f w

-- `none` halts: the assertion on the offset, and the root.
abbrev pub read_info : ℕ → ℕ → Option Info → ProcFile → World → Option (ℤ × ProcFile × World)
read_info buf size none f w = none
read_info buf size (some info) f w =
    let copied = read_content buf size info.content info.size f w in
    if info.has_opened then copied else some (minus_one, f, w)

-- `buf` is an address. The end of its string is looked for behind what was copied.
unfoldable pub inode_read : ℕ → ℕ → ProcFile → World → Option (ℤ × ProcFile × World)
inode_read buf size f w =
    let copied = read_info buf size f.info f w in
    if is_reading f.flags then copied else some (minus_one, f, w)

unfoldable pub inode_write : ℕ → ℕ → ProcFile → World → ℤ × ProcFile × World
inode_write buf size f w = (minus_one, f, w)

abbrev pub seek_info : ℕ → Option Info → ProcFile → Option (ℤ × ProcFile)
seek_info offset none f = none
seek_info offset (some info) f =
    let to = smaller offset info.size in
    if info.has_opened then some (pos to, record f { offset = to }) else some (minus_one, f)

-- `offset` as the `size_t` that it is compared as.
unfoldable pub inode_lseek : ℕ → ProcFile → Option (ℤ × ProcFile)
inode_lseek offset f =
    let sought = seek_info offset f.info f in
    if is_reading f.flags then sought else some (minus_one, f)

unfoldable pub task_lookup : Bytes → List Task → Option Task
task_lookup name [] = none
task_lookup name (cur ∷ rest) =
    let later = task_lookup name rest in if streq cur.name name then some cur else later

abbrev pub new_info : InfoType → Option Task → Info
new_info type obj = record { type = type; has_opened = false; obj = obj; content = none; size = 0 }

abbrev pub cpuinfo : Bytes
cpuinfo = b'c' ∷ b'p' ∷ b'u' ∷ b'i' ∷ b'n' ∷ b'f' ∷ b'o' ∷ []

abbrev pub meminfo : Bytes
meminfo = b'm' ∷ b'e' ∷ b'm' ∷ b'i' ∷ b'n' ∷ b'f' ∷ b'o' ∷ []

abbrev pub task_node : Option Task → Option (Option Info)
task_node none = none
task_node (some tk) = some (some (new_info task_info (some tk)))

unfoldable pub lookup_name : Bytes → List Task → Option (Option Info)
lookup_name tpath tasks =
    let found = task_node (task_lookup tpath tasks) in
    if streq tpath cpuinfo
    then some (some (new_info cpu_info none))
    else if streq tpath meminfo
    then some (some (new_info mem_info none))
    else found

-- An assertion fails, `NULL`, or the `ptr` of the inode. `pmm` has cleared `hasOpened` where the code does not.
unfoldable pub fs_lookup : Bytes → List Task → Option (Option (Option Info))
fs_lookup [] tasks = none
fs_lookup (c ∷ tpath) tasks =
    let found = lookup_name tpath tasks in
    if c == b'/' then (if length (c ∷ tpath) == 1 then some (some none) else some found) else none

unfoldable pub list_tasks : List Task → List Bytes → List Bytes
list_tasks [] head = head
list_tasks (cur ∷ rest) head = list_tasks rest (cur.name ∷ head)

unfoldable pub fs_readdir : Bytes → List Task → Option (List Bytes)
fs_readdir path tasks =
    if streq path (b'/' ∷ []) then some (meminfo ∷ cpuinfo ∷ list_tasks tasks []) else none

abbrev pub close_node : Option Info → World → Option (ℤ × World)
close_node none w = some (pos 0, w)
close_node (some info) w =
    let closed = (do w' ← free_content info.content w; some (pos 0, w')) in
    if info.has_opened then closed else some (pos 0, w)

-- `fs_close` of an inode that is not `NULL`.
unfoldable pub fs_close : Option Info → World → Option (ℤ × World)
fs_close ptr w = close_node ptr w
