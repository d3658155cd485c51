-- ===== src/Devfs/Table.antt =====
-- kernel/src/vfs/devfs.c: `devfs_create`, which makes devfs a file system of `vfs`.
use nju_os_lab.Prelude.{
  ℕ, zero, suc, ◌+◌, ◌-◌, ◌^◌, Option, none, some, List, [], ◌∷◌, ◌==◌, if◌then◌else◌, length, take,
  ℤ, pos, negsuc, minus_one,
}
use nju_os_lab.Klib.Strings.{Bytes}
use nju_os_lab.Vfs.{Inode, File, Entry, item_file, FsOps}
use nju_os_lab.Devfs.{
  Node, Flag, dir_exist, file_exist, file_read, file_write, file_append, other, DevFile, DevOps,
  fs_lookup, fs_readdir, inode_access, inode_open, inode_read, inode_write, inode_lseek,
}

-- The numbers of `enum access_flag`.
abbrev pub flag_of : ℕ → Flag
flag_of zero = dir_exist
flag_of (suc zero) = file_exist
flag_of (suc (suc zero)) = file_read
flag_of (suc (suc (suc zero))) = file_write
flag_of (suc (suc (suc (suc zero)))) = file_append
flag_of (suc (suc (suc (suc (suc n))))) = other

abbrev pub number_of : Option Flag → ℕ
number_of none = 0
number_of (some dir_exist) = 0
number_of (some file_exist) = 1
number_of (some file_read) = 2
number_of (some file_write) = 3
number_of (some file_append) = 4
number_of (some other) = 5

-- What devfs and `pmm` keep: the devices, the field `ptr` of the inodes by address, and the next free address. Memory is never used up, and
-- the address of an object that is freed is not used again.
pub record DevWorld (D : Type 0) : Type 0 where
  pub devices : D
  pub nodes : ℕ → Node
  pub next : ℕ

abbrev pub as_file : File → DevFile → File
as_file f g = record f { flags = number_of g.flags; offset = g.offset }

abbrev pub as_entries : List Bytes → List Entry
as_entries [] = []
as_entries (n ∷ names) = record { name = n; type = item_file } ∷ as_entries names

abbrev pub entries_of : Option (List Bytes) → List Entry
entries_of none = []
entries_of (some names) = as_entries names

-- The bits of an `off_t`.
abbrev pub bits_of : ℤ → ℕ
bits_of (pos n) = n
bits_of (negsuc n) = 2 ^ 64 - (n + 1)

module _ {D : Type 0} where
  -- A file of `vfs` as one of devfs.
  abbrev pub as_dev_file : File → DevWorld D → DevFile
  as_dev_file f w = record {
    node = w.nodes f.inode.addr;
    flags = some (flag_of f.flags);
    offset = f.offset;
  }

  abbrev pub new_inode : ℕ → Option Node → DevWorld D → Option Inode × DevWorld D
  new_inode fs (some ptr) w = (
    some (record { addr = w.next; fs = fs }),
    record w { nodes = λ p. if p == w.next then ptr else w.nodes p; next = w.next + 1 },
  )
  new_inode fs looked w = (none, w)

  abbrev pub looked_up : ℕ → Option (Option Node) → DevWorld D → Option (Option Inode × DevWorld D)
  looked_up fs none w = none
  looked_up fs (some looked) w = some (new_inode fs looked w)

  abbrev pub reopened : File → ℤ × DevFile → DevWorld D → ℤ × File × DevWorld D
  reopened f (r, g) w = (r, as_file f g, w)

  abbrev pub read_result :
      File → DevWorld D → Option Bytes × DevFile × D → (ℤ × Bytes) × File × DevWorld D
  read_result f w (none, g, d) = ((minus_one, []), as_file f g, record w { devices = d })
  read_result f w (some s, g, d) = ((pos (length s), s), as_file f g, record w { devices = d })

  abbrev pub write_result : File → DevWorld D → Option ℕ × DevFile × D → ℤ × File × DevWorld D
  write_result f w (none, g, d) = (minus_one, as_file f g, record w { devices = d })
  write_result f w (some n, g, d) = (pos n, as_file f g, record w { devices = d })

  abbrev pub seek_result : ℤ → File → DevWorld D → Option ℕ × DevFile → ℤ × File × DevWorld D
  seek_result offset f w (none, g) = (minus_one, as_file f g, w)
  seek_result offset f w (some n, g) = (offset, as_file f g, w)

-- The table `fsops` of devfs, and that of its inodes. `mkdir`, `rm` and `link` only warn. The assertion of
-- `fs_lookup` halts on a path that does not start with '/', which `vfs` passes for "/device" and a mount at "/dev".
unfoldable pub devfs_create : {D : Type 0} → DevOps D → FsOps (DevWorld D)
devfs_create ops = record {
  alloc = λ w. some (w.next, record w { next = w.next + 1 });
  free = λ p w. w;
  lookup = λ fs path flags w. looked_up fs (fs_lookup path) w;
  close = λ fs node w. some (pos 0, w);
  mkdir = λ fs path w. some (minus_one, w);
  rm = λ fs path w. some (minus_one, w);
  link = λ fs oldpath newpath w. some (minus_one, w);
  readdir = λ fs path w. some (entries_of (fs_readdir path), w);
  file_access = λ flags f w. some (reopened f (inode_access (flag_of flags) (as_dev_file f w)) w);
  file_open = λ flags f w. some (reopened f (inode_open (flag_of flags) (as_dev_file f w)) w);
  file_close = λ f w. some (pos 0, f, w);
  file_read = λ size f w. some (read_result f w (inode_read ops size (as_dev_file f w) w.devices));
  file_write = λ buf size f w.
      some (write_result f w (inode_write ops (take size buf) (as_dev_file f w) w.devices));
  file_lseek = λ offset whence f w.
      some (seek_result offset f w (inode_lseek (bits_of offset) (as_dev_file f w)));
}
