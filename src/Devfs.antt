-- ===== src/Devfs.antt =====
-- kernel/src/vfs/devfs.c, the file system of the devices, with `dev_lookup` of kernel/src/devices/dev.c and the ramdisk
-- of kernel/src/devices/ramdisk/ramdisk.c. The asserted name of the file system is that of all its inodes.
pub mod Names
pub mod Table
pub mod Through
pub mod Session
pub mod Saved
pub mod Ramdisk
mod Tests
use nju_os_lab.Prelude.{
  ℕ, zero, suc, ◌+◌, ◌-◌, ◌%◌, ◌^◌, Bool, true, false, Option, none, some, List, [], ◌∷◌, ◌++◌,
  ◌==◌, ◌&&◌, ◌||◌, not, ltb, if◌then◌else◌, ◌>>=◌, ◌>>◌, assert, length, ℤ, pos, minus_one,
}
use nju_os_lab.Klib.Strings.{Bytes, streq}

-- The table `DEVICES`, whose names `dev_names` repeats.
abbrev pub dev_names : List Bytes
dev_names =
    (b'r' ∷ b'a' ∷ b'm' ∷ b'd' ∷ b'i' ∷ b's' ∷ b'k' ∷ b'0' ∷ [])
    ∷ (b'r' ∷ b'a' ∷ b'm' ∷ b'd' ∷ b'i' ∷ b's' ∷ b'k' ∷ b'1' ∷ [])
    ∷ (b'i' ∷ b'n' ∷ b'p' ∷ b'u' ∷ b't' ∷ [])
    ∷ (b'f' ∷ b'b' ∷ [])
    ∷ (b't' ∷ b't' ∷ b'y' ∷ b'1' ∷ [])
    ∷ (b't' ∷ b't' ∷ b'y' ∷ b'2' ∷ [])
    ∷ (b't' ∷ b't' ∷ b'y' ∷ b'3' ∷ [])
    ∷ (b't' ∷ b't' ∷ b'y' ∷ b'4' ∷ [])
    ∷ []

-- A device is its index in the table.
unfoldable pub lookup_from : ℕ → List Bytes → Bytes → Option ℕ
lookup_from i [] name = none
lookup_from i (n ∷ names) name =
    let later = lookup_from (i + 1) names name in if streq n name then some i else later

unfoldable pub dev_lookup : Bytes → Option ℕ
dev_lookup name = lookup_from 0 dev_names name

-- An inode of devfs: the root directory, whose `ptr` is `NULL`, or a device.
abbrev pub Node : Type 0
Node = Option ℕ

abbrev pub as_node : Option ℕ → Option Node
as_node none = none
as_node (some dev) = some (some dev)

-- `fs_lookup`: an assertion fails, `NULL`, or an inode.
unfoldable pub fs_lookup : Bytes → Option (Option Node)
fs_lookup [] = none
fs_lookup (c ∷ name) =
    if c == b'/'
    then if length (c ∷ name) == 1 then some (some none) else some (as_node (dev_lookup name))
    else none

-- `fs_readdir`: each name is put in front of the list.
unfoldable pub list_names : List Bytes → List Bytes → List Bytes
list_names [] head = head
list_names (n ∷ names) head = list_names names (n ∷ head)

unfoldable pub fs_readdir : Bytes → Option (List Bytes)
fs_readdir path = if streq path (b'/' ∷ []) then some (list_names dev_names []) else none

pub data Flag : Type 0 where
  dir_exist file_exist file_read file_write file_append other : Flag

-- A `file`; `flags` is `none` before the first access.
pub record DevFile : Type 0 where
  pub node : Node
  pub flags : Option Flag
  pub offset : ℕ

abbrev pub is_root : Node → Bool
is_root none = true
is_root (some dev) = false

unfoldable pub inode_access : Flag → DevFile → ℤ × DevFile
inode_access dir_exist f =
    if is_root f.node then (pos 0, record f { flags = some dir_exist }) else (minus_one, f)
inode_access other f = (minus_one, f)
inode_access flag f =
    if is_root f.node then (minus_one, f) else (pos 0, record f { flags = some flag })

abbrev pub after_access : Flag → Bool → DevFile → ℤ × DevFile
after_access flag true f = (minus_one, f)
after_access dir_exist false f = (minus_one, f)
after_access file_read false f = (pos 0, record f { offset = 0; flags = some file_read })
after_access file_write false f = (pos 0, record f { offset = 0; flags = some file_write })
after_access file_append false f = (pos 0, record f { offset = 0; flags = some file_write })
after_access flag false f = (pos 0, f)

abbrev pub failed : ℤ → Bool
failed (pos n) = false
failed r = true

unfoldable pub inode_open : Flag → DevFile → ℤ × DevFile
inode_open flag f = let (r, f') = inode_access flag f in after_access flag (failed r) f'

-- `read` and `write` of the device tables, on the state of all devices: at an offset. A read returns its bytes.
pub record DevOps (D : Type 0) : Type 0 where
  pub read : ℕ → ℕ → ℕ → D → Bytes × D
  pub write : ℕ → ℕ → Bytes → D → ℕ × D

abbrev pub moved_on : DevFile → ℕ → DevFile
moved_on f res = record f { offset = (f.offset + res) % 2 ^ 64 }

-- The result -1 is `none`. A file that is not open, and an open root, have no device.
module _ {D : Type 0} (ops : DevOps D) where
  abbrev pub read_node : Node → ℕ → DevFile → D → Option Bytes × DevFile × D
  read_node none size f d = (none, f, d)
  read_node (some dev) size f d =
      let (s, d') = ops.read dev f.offset size d in (some s, moved_on f (length s), d')

  abbrev pub read_flagged : Option Flag → ℕ → DevFile → D → Option Bytes × DevFile × D
  read_flagged (some file_read) size f d = read_node f.node size f d
  read_flagged flags size f d = (none, f, d)

  unfoldable pub inode_read : ℕ → DevFile → D → Option Bytes × DevFile × D
  inode_read size f d = read_flagged f.flags size f d

  abbrev pub write_device : Node → Bytes → DevFile → D → Option ℕ × DevFile × D
  write_device none s f d = (none, f, d)
  write_device (some dev) s f d =
      let (n, d') = ops.write dev f.offset s d in (some n, moved_on f n, d')

  abbrev pub write_flagged : Option Flag → Bytes → DevFile → D → Option ℕ × DevFile × D
  write_flagged (some file_write) s f d = write_device f.node s f d
  write_flagged flags s f d = (none, f, d)

  unfoldable pub inode_write : Bytes → DevFile → D → Option ℕ × DevFile × D
  inode_write s f d = write_flagged f.flags s f d

abbrev pub is_seekable : Option Flag → Bool
is_seekable (some file_read) = true
is_seekable (some file_write) = true
is_seekable flags = false

unfoldable pub inode_lseek : ℕ → DevFile → Option ℕ × DevFile
inode_lseek offset f =
    if is_seekable f.flags then (some offset, record f { offset = offset }) else (none, f)

-- The memory, and where in it the ramdisks start. Neither a read nor a write looks at their ends.
pub record RamDisks : Type 0 where
  pub mem : ℕ → ℕ
  pub start : ℕ → ℕ

abbrev pub memory_at : (ℕ → ℕ) → ℕ → ℕ → Bytes
memory_at mem offset zero = []
memory_at mem offset (suc n) = mem offset ∷ memory_at mem (offset + 1) n

unfoldable pub stored : (ℕ → ℕ) → ℕ → Bytes → ℕ → ℕ
stored mem offset [] k = mem k
stored mem offset (c ∷ s) k = if k == offset then c else stored mem (offset + 1) s k

unfoldable pub rd_read : ℕ → ℕ → ℕ → RamDisks → Bytes × RamDisks
rd_read dev offset count d = (memory_at d.mem (d.start dev + offset) count, d)

unfoldable pub rd_write : ℕ → ℕ → Bytes → RamDisks → ℕ × RamDisks
rd_write dev offset s d = (length s, record d { mem = stored d.mem (d.start dev + offset) s })

abbrev pub rd_ops : DevOps RamDisks
rd_ops = record { read = rd_read; write = rd_write }
