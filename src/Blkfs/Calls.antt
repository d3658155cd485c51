-- ===== src/Blkfs/Calls.antt =====
-- kernel/src/vfs/blkfs.c: the calls of the table `fsops`. Each runs under `info->lock` from its first to its
-- last access to the disk, so it is one step; the lock itself is that of kmt.c.
use nju_os_lab.Prelude.{
  ℕ, zero, suc, ◌+◌, ◌*◌, ◌/◌, ◌%◌, ◌^◌, Bool, true, false, Option, none, some, List, [], ◌==◌, ltb,
  if◌then◌else◌, ◌>>=◌, ◌>>◌, assert, ℤ, pos, minus_one,
}
use nju_os_lab.Klib.Strings.{Bytes, strlen}
use nju_os_lab.Path.{path_get_directory, path_get_name, first, slash}
use nju_os_lab.Vfs.{Entry}
use nju_os_lab.Blkfs.{
  Buffer, Disk, BlkInode, block_size, block_data_size, minus_one_word, dir_type, link_type,
}
use nju_os_lab.Blkfs.Blocks.{block_check, block_getinfo, block_setinfo, block_init}
use nju_os_lab.Blkfs.Inodes.{inode_set, inode_alloc, inode_block_init, dir_block_init, id_word}
use nju_os_lab.Blkfs.Dirs.{
  deref, list_dir, create_filedir, delete_filedir, get_root_inode, get_path_inode,
}
use nju_os_lab.Blkfs.Files.{BlkFile}

abbrev pub result_of : Option ℕ → ℤ
result_of none = minus_one
result_of (some id) = pos 0

-- With the parent directory, which may be `NULL`.
unfoldable pub mkdir_in : Option BlkInode → Bytes → Disk → Option (ℤ × Disk)
mkdir_in none dirname fs = some (minus_one, fs)
mkdir_in (some node) dirname fs =
    let made = (do
      (id, fs') ← create_filedir node dir_type minus_one_word dirname fs
      some (result_of id, fs')) in
    if node.type == dir_type then made else some (minus_one, fs)

unfoldable pub fs_mkdir : Bytes → Disk → Option (ℤ × Disk)
fs_mkdir name fs = do
  node ← get_path_inode (path_get_directory name) fs
  let made = mkdir_in node (path_get_name name) fs
  if strlen (path_get_name name) == 0 then some (minus_one, fs) else made

unfoldable pub rm_in : Option BlkInode → Bytes → Disk → Option (ℤ × Disk)
rm_in none dirname fs = some (minus_one, fs)
rm_in (some node) dirname fs =
    let removed = (do fs' ← delete_filedir node dirname fs; some (pos 0, fs')) in
    if node.type == dir_type then removed else some (minus_one, fs)

unfoldable pub fs_rm : Bytes → Disk → Option (ℤ × Disk)
fs_rm name fs = do
  node ← get_path_inode (path_get_directory name) fs
  let removed = rm_in node (path_get_name name) fs
  if strlen (path_get_name name) == 0 then some (minus_one, fs) else removed

unfoldable pub link_in : BlkInode → Option BlkInode → Bytes → Disk → Option (ℤ × Disk)
link_in old none name fs = some (minus_one, fs)
link_in old (some newdir) name fs = do
  (id, fs') ← create_filedir newdir link_type old.id name fs
  some (result_of id, fs')

abbrev pub link_old : Option BlkInode → Bytes → Disk → Option (ℤ × Disk)
link_old none newpath fs = some (minus_one, fs)
link_old (some old) newpath fs = do
  newdir ← get_path_inode (path_get_directory newpath) fs
  link_in old newdir (path_get_name newpath) fs

unfoldable pub fs_link : Bytes → Bytes → Disk → Option (ℤ × Disk)
fs_link oldpath newpath fs = do found ← get_path_inode oldpath fs; link_old found newpath fs

unfoldable pub fs_readdir : Bytes → Disk → Option (List Entry)
fs_readdir path fs = do
  found ← get_path_inode path fs
  elim found [ none ↦ some [] | some node ↦ list_dir node fs ]

-- The inode for the virtual file system, as an open file that has not been opened yet. It is made for a
-- path that is not there as well.
unfoldable pub fs_lookup : Bytes → Disk → Option BlkFile
fs_lookup path fs = do
  assert (first path == slash)
  bnode ← get_path_inode path fs
  some (record { flags = 0; offset = 0; ptr = bnode; path = path })

-- Of an inode, or `NULL`: the result, and whether `info->lock`, taken at the start, has been released.
unfoldable pub fs_close : Option BlkFile → ℤ × Bool
fs_close none = (minus_one, false)
fs_close (some f) = (pos 0, true)

-- The geometry of a device of `full_size` bytes.
abbrev pub blocks_of : ℕ → ℕ
blocks_of full_size = full_size / block_size

abbrev pub inode_blocks_of : ℕ → ℕ
inode_blocks_of full_size =
    let inode_size = blocks_of full_size * 20 % 2 ^ 32 in
    inode_size / block_data_size + (if inode_size % block_data_size == 0 then 0 else 1)

-- The loops of `fs_init`, over `n` blocks from `i` on.
unfoldable pub check_from : ℕ → ℕ → Disk → Option (Unit {0})
check_from zero i fs = some tt
check_from (suc n) i fs = do ok ← block_check i fs; assert ok; check_from n (i + 1) fs

unfoldable pub init_from : ℕ → ℕ → Disk → Option Disk
init_from zero i fs = some fs
init_from (suc n) i fs = do fs' ← block_init i fs; init_from n (i + 1) fs'

unfoldable pub table_from : ℕ → ℕ → Disk → Option Disk
table_from zero i fs = some fs
table_from (suc n) i fs = do
  blk ← block_getinfo i fs
  fs1 ← block_setinfo (record blk { type = 1 }) i fs
  fs2 ← inode_block_init i fs1
  table_from n (i + 1) fs2

unfoldable pub make_root : Disk → Option Disk
make_root fs = do
  (rootdir, fs1) ← inode_alloc dir_type fs
  assert (id_word rootdir == 0)
  found ← get_root_inode fs1
  root ← deref found
  fs2 ← inode_set root.id (record root { refcnt = suc root.refcnt % 2 ^ 32 }) fs1
  assert (root.block_id == fs.inode_block_num)
  dir_block_init root.block_id fs2

unfoldable pub format : Disk → Option Disk
format fs = do
  fs1 ← init_from fs.total_block_num 0 fs
  fs2 ← table_from fs.inode_block_num 0 fs1
  make_root fs2

unfoldable pub fs_init : ℕ → Buffer → Option Disk
fs_init full_size bytes = do
  assert (ltb 0 full_size)
  let fs : Disk = record {
    total_block_num = blocks_of full_size;
    inode_block_num = inode_blocks_of full_size;
    bytes = bytes;
  }
  assert (ltb (inode_blocks_of full_size) (blocks_of full_size))
  exists ← block_check 0 fs
  let checked = (do u ← check_from (blocks_of full_size) 0 fs; some fs)
  if exists then checked else format fs
