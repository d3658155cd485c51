-- ===== src/Blkfs/Files.antt =====
-- kernel/src/vfs/blkfs.c: the operations on an open file.
pub mod Contents
pub mod Reread
use nju_os_lab.Prelude.{
  ℕ, ◌+◌, ◌-◌, ◌%◌, ◌^◌, Bool, true, false, Option, none, some, ◌==◌, ◌&&◌, ◌||◌, not, ltb, leb,
  if◌then◌else◌, ◌>>=◌, ◌>>◌, assert, ℤ, pos, minus_one,
}
use nju_os_lab.Klib.Strings.{Bytes, strlen}
use nju_os_lab.Path.{path_get_directory, path_get_name}
use nju_os_lab.Blkfs.{Buffer, Disk, BlkInode, block_data_size, minus_one_word, file_type, dir_type}
use nju_os_lab.Blkfs.Blocks.{block_readdata, block_writedata}
use nju_os_lab.Blkfs.Inodes.{inode_get, inode_set}
use nju_os_lab.Blkfs.Dirs.{deref, create_filedir, get_path_inode}

-- `enum access_flag`.
abbrev pub dir_exist : ℕ
dir_exist = 0

abbrev pub file_exist : ℕ
file_exist = 1

abbrev pub file_read : ℕ
file_read = 2

abbrev pub file_write : ℕ
file_write = 3

abbrev pub file_append : ℕ
file_append = 4

-- `struct _file`, with the `ptr` and the `path` of its inode: a copy of the inode as it was on the disk.
pub record BlkFile : Type 0 where
  pub flags : ℕ
  pub offset : ℕ
  pub ptr : Option BlkInode
  pub path : Bytes

abbrev pub access_type : ℕ → ℕ → Bool
access_type flags type =
    if flags == dir_exist
    then type == dir_type
    else if (flags == file_exist)
        || (flags == file_read)
        || (flags == file_write)
        || (flags == file_append)
    then type == file_type
    else false

-- 0 as true, -1 as false.
unfoldable pub inode_access : BlkFile → ℕ → Bool
inode_access f flags = elim f.ptr [ none ↦ false | some node ↦ access_type flags node.type ]

-- With the inode of the new file, or without.
abbrev pub with_id : BlkFile → Option ℕ → Disk → Option (Option BlkFile × Disk)
with_id f none fs = some (none, fs)
with_id f (some i) fs = do
  found ← inode_get i fs
  node ← deref found
  some (some (record f { ptr = some node }), fs)

-- The file that `inode_open` makes in the directory, if it can; -1 is `none`.
unfoldable pub make_in : Option BlkInode → Bytes → BlkFile → Disk → Option (Option BlkFile × Disk)
make_in none filename f fs = some (none, fs)
make_in (some par) filename f fs = do
  (id, fs') ← create_filedir par file_type minus_one_word filename fs
  with_id f id fs'

unfoldable pub make_file : BlkFile → Disk → Option (Option BlkFile × Disk)
make_file f fs =
    let made = (do
      par ← get_path_inode (path_get_directory f.path) fs
      make_in par (path_get_name f.path) f fs) in
    if strlen (path_get_name f.path) == 0 then some (none, fs) else made

abbrev pub is_missing : Option BlkInode → Bool
is_missing none = true
is_missing (some node) = false

abbrev pub node_size : Option BlkInode → ℕ
node_size none = 0
node_size (some node) = node.size

-- The tests and the `switch` of `inode_open`, once the file is there.
abbrev pub opened : BlkFile → ℕ → ℤ × BlkFile
opened f flags =
    if not (inode_access f flags) || (flags == dir_exist)
    then (minus_one, f)
    else if (flags == file_read) || (flags == file_write)
    then (pos 0, record f { flags = flags; offset = 0 })
    else if flags == file_append
    then (pos 0, record f { flags = file_write; offset = node_size f.ptr })
    else (pos 0, f)

-- With the file that has been made, or without.
abbrev pub after_make : BlkFile → ℕ → Option BlkFile → Disk → ℤ × BlkFile × Disk
after_make f flags none fs = (minus_one, f, fs)
after_make f flags (some f') fs = let (r, f'') = opened f' flags in (r, f'', fs)

unfoldable pub inode_open : BlkFile → ℕ → Disk → Option (ℤ × BlkFile × Disk)
inode_open f flags fs =
    let made = (do (file, fs') ← make_file f fs; some (after_make f flags file fs')) in
    let (r, f') = opened f flags in
    if is_missing f.ptr && ((flags == file_write) || (flags == file_append))
    then made
    else some (r, f', fs)

unfoldable pub inode_close : BlkFile → ℤ
inode_close f = if is_missing f.ptr then minus_one else pos 0

abbrev pub at_most : ℕ → ℕ → ℕ
at_most size rem = if ltb rem size then rem else size

-- The result, what goes into `buf`, and the file.
unfoldable pub read_node : BlkInode → BlkFile → ℕ → Disk → Option (ℤ × Buffer × BlkFile)
read_node node f size fs = do
  assert (leb f.offset node.size)
  assert (not (node.block_id == minus_one_word))
  let count = at_most size (node.size - f.offset)
  buf ← block_readdata count node.block_id f.offset fs
  some (pos count, buf, record f { offset = f.offset + count })

abbrev pub no_bytes : Buffer
no_bytes k = 0

unfoldable pub inode_read : BlkFile → ℕ → Disk → Option (ℤ × Buffer × BlkFile)
inode_read f size fs = elim f.ptr [
  | none ↦ some (minus_one, no_bytes, f)
  | some node ↦
      if f.flags == file_read then read_node node f size fs else some (minus_one, no_bytes, f)
]

-- The size grows with the offset: in the copy, and in the inode on the disk.
unfoldable pub grow : BlkInode → BlkFile → ℕ → Disk → Option (ℤ × BlkFile × Disk)
grow node f count fs =
    let node' = record node { size = f.offset } in
    let grown = (do
      fs' ← inode_set node.id node' fs
      some (pos count, record f { ptr = some node' }, fs')) in
    if ltb node.size f.offset then grown else some (pos count, f, fs)

unfoldable pub write_node : BlkInode → BlkFile → Buffer → ℕ → Disk → Option (ℤ × BlkFile × Disk)
write_node node f buf size fs = do
  assert (not (node.block_id == minus_one_word))
  let count = at_most size ((block_data_size + 2 ^ 64 - f.offset) % 2 ^ 32)
  fs' ← block_writedata buf count node.block_id (f.offset % 2 ^ 32) fs
  grow node (record f { offset = f.offset + count }) count fs'

unfoldable pub inode_write : BlkFile → Buffer → ℕ → Disk → Option (ℤ × BlkFile × Disk)
inode_write f buf size fs = elim f.ptr [
  | none ↦ some (minus_one, f, fs)
  | some node ↦
      if f.flags == file_write then write_node node f buf size fs else some (minus_one, f, fs)
]

-- `off_t` has 32 bits, and its comparison with a `uint32_t` is one of unsigned words, so `offset` is taken
-- as a word. `whence` is not looked at.
unfoldable pub inode_lseek : BlkFile → ℕ → ℤ × BlkFile
inode_lseek f offset = elim f.ptr [
  | none ↦ (minus_one, f)
  | some node ↦
      let target = if ltb node.size offset then node.size else offset in
      if (f.flags == file_read) || (f.flags == file_write)
      then (pos target, record f { offset = target })
      else (minus_one, f)
]
