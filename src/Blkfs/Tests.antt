-- ===== src/Blkfs/Tests.antt =====
-- kernel/src/vfs/blkfs.c: runs on a device of three blocks, one of them for inodes.
use nju_os_lab.Prelude.{
  ℕ, ap, ◌∙◌, inl, zero, suc, ◌<◌, arith, ◌≡◌, refl, pos, Option, none, some, List, [], ◌∷◌, ◌>>=◌,
}
use nju_os_lab.Klib.Strings.{strlen, streq, strcmp, strchr, strrchr}
use nju_os_lab.Path.{path_next_name, path_get_directory, path_get_name}
use nju_os_lab.Vfs.{Entry, item_dir}
use nju_os_lab.Blkfs.Blocks.Views.{IsFormatted, magic_of, set_type, set_data}
use nju_os_lab.Blkfs.Files.{BlkFile, inode_write}
use nju_os_lab.Blkfs.Words.{Fits}
use nju_os_lab.Blkfs.Inodes.{not_empty}
use nju_os_lab.Blkfs.Inodes.Table.{
  put_inode, put_inode-IsFormatted, inode_get-eq, inode_at-put_inode,
}
use nju_os_lab.Blkfs.Files.Contents.{IsStored, IsFile, Written, inode_write-Written}
use nju_os_lab.Blkfs.Files.Reread.{reread, reread-inode_write}
use nju_os_lab.Path.Parts.{IsName}
use nju_os_lab.Blkfs.Dirs.{deref}
use nju_os_lab.Blkfs.Dirs.Resolve.{resolve, get_path_inode-resolve}
use nju_os_lab.Blkfs.Dirs.Lookup.{IsDir, IsShort}
use nju_os_lab.Blkfs.Dirs.Create.{Ends, create_filedir-Created}
use nju_os_lab.Blkfs.{
  BlkInode, Buffer, block_magic, Disk, get_word, put_word, read_inode, write_inode, read_string,
  write_string,
}
use nju_os_lab.Blkfs.Blocks.{
  block_read, block_write, block_check, block_getinfo, block_setinfo, block_readdata,
  block_writedata, block_init, block_alloc_from, block_alloc,
}
use nju_os_lab.Blkfs.Inodes.{
  inode_get, inode_set, clear_inodes, clear_entries, inode_block_init, dir_block_init, find_empty,
  new_block, make_inode, inode_alloc_from, inode_alloc,
}
use nju_os_lab.Blkfs.Dirs.{
  find_name_from, find_free_from, list_from, list_dir, get_filedir, entry_target, add_reference,
  add_entry, create_filedir, get_root_inode, walk, get_path_inode,
}
use nju_os_lab.Blkfs.Calls.{
  fs_init, format, make_root, table_from, init_from, fs_mkdir, mkdir_in, fs_readdir,
}

abbrev listing : Option Disk → Option (List Entry)
listing o = o >>= λ fs. fs_mkdir (b'/' ∷ b'a' ∷ []) fs >>= λ (r, fs'). fs_readdir (b'/' ∷ []) fs'

mkdir_runs :
    listing (fs_init 3096 (λ k. 0)) ≡ some (record { name = b'a' ∷ []; type = item_dir } ∷ [])
unfolding fs_init format make_root table_from init_from fs_mkdir mkdir_in fs_readdir get_word
    put_word read_inode write_inode read_string write_string block_read block_write block_check
    block_getinfo block_setinfo block_readdata block_writedata block_init block_alloc_from
    block_alloc inode_get inode_set clear_inodes clear_entries inode_block_init dir_block_init
    find_empty new_block make_inode inode_alloc_from inode_alloc find_name_from find_free_from
    list_from list_dir get_filedir entry_target add_reference add_entry create_filedir
    get_root_inode walk get_path_inode path_next_name path_get_directory path_get_name strlen streq
    strcmp strchr strrchr
mkdir_runs = refl

abbrev disk_or : Disk → Option Disk → Disk
disk_or d none = d
disk_or d (some fs) = fs

abbrev raw : Disk
raw = record { total_block_num = 3; inode_block_num = 1; bytes = λ k. 0 }

-- The disk after `fs_init`: block 0 has the inodes, block 1 is the root directory, block 2 is free.
disk : Disk
unfolding fs_init format make_root table_from init_from get_word put_word read_inode write_inode
    block_read block_write block_check block_getinfo block_setinfo block_readdata block_writedata
    block_init block_alloc_from block_alloc inode_get inode_set clear_inodes clear_entries
    inode_block_init dir_block_init find_empty new_block make_inode inode_alloc_from inode_alloc
    get_root_inode
disk = disk_or raw (fs_init 3096 (λ k. 0))

disk-IsFormatted : IsFormatted disk
unfolding disk magic_of get_word
disk-IsFormatted = record { magics = magics; small = omega arith; table = omega arith }
  where
    magics : (b : ℕ) → b < 3 → magic_of disk b ≡ block_magic
    magics zero h = refl
    magics (suc zero) h = refl
    magics (suc (suc zero)) h = refl
    magics (suc (suc (suc b))) h = absurd (omega arith)

alloc_runs : block_alloc disk ≡ some (some 2, set_type 2 1 disk)
unfolding block_alloc block_alloc_from block_getinfo block_setinfo block_read block_write get_word
    put_word set_type disk
alloc_runs = refl

abbrev root : BlkInode
root = record { type = 2; id = 0; block_id = 1; refcnt = 1; size = 0 }

root-IsDir : IsDir disk root
unfolding disk
root-IsDir = record { type = refl; low = omega arith; high = omega arith }

a-IsShort : IsShort (b'a' ∷ [])
a-IsShort = record { string = ((omega arith, omega arith), tt); short = ground arith }

create_filedir-Created_example : Ends disk root 1 (b'a' ∷ [])
create_filedir-Created_example =
    create_filedir-Created disk root 1 (b'a' ∷ []) disk-IsFormatted root-IsDir a-IsShort (inl refl)

-- The inode of a file in block 2.
abbrev node : BlkInode
node = record { type = 1; id = 1; block_id = 2; refcnt = 1; size = 0 }

abbrev writer : BlkFile
writer = record { flags = 3; offset = 1020; ptr = some node; path = [] }

abbrev sevens : Buffer
sevens k = 7

-- The disk with it in its place.
abbrev file_disk : Disk
file_disk = put_inode 1 node disk

file_disk-IsFormatted : IsFormatted file_disk
file_disk-IsFormatted = put_inode-IsFormatted disk 1 node disk-IsFormatted

node-IsFile : IsFile file_disk node
unfolding disk put_inode set_data
node-IsFile = record {
  place = omega arith;
  low = omega arith;
  high = omega arith;
  size = omega arith;
}

node-Fits : Fits node
node-Fits = record {
  type = omega arith;
  id = omega arith;
  block_id = omega arith;
  refcnt = omega arith;
  size = omega arith;
}

node-IsStored : IsStored file_disk node
unfolding disk put_inode set_data
node-IsStored = record {
  got =
      inode_get-eq file_disk 1 file_disk-IsFormatted (omega arith)
      ∙ ap (λ n. some (not_empty n)) (inode_at-put_inode disk 1 node node-Fits);
  fits = node-Fits;
}

-- Of ten bytes, four are taken.
inode_write-Written_example :
    (file' : BlkFile) × (fs' : Disk) × (inode_write writer sevens 10 file_disk
      ≡ some (pos 4, file', fs'))
    × Written file_disk writer node sevens 4 file' fs'
inode_write-Written_example =
    inode_write-Written file_disk writer node sevens 10 file_disk-IsFormatted node-IsFile
      node-IsStored refl refl (omega arith)

reread-inode_write_example :
    (file1 : BlkFile) × (fs1 : Disk) × (buf' : Buffer) × (file2 : BlkFile) × (inode_write writer
        sevens 10 file_disk
      ≡ some (pos 4, file1, fs1))
    × (reread 1 [] 1020 4 fs1 ≡ some (pos 4, buf', file2))
    × ((k : ℕ) → k < 4 → buf' k ≡ 7)
reread-inode_write_example =
    reread-inode_write file_disk writer node sevens 10 [] file_disk-IsFormatted node-IsFile
      node-IsStored refl refl refl (omega arith)

a-IsName : IsName (b'a' ∷ [])
a-IsName = record { some_byte = λ e. cc; plain = (λ e. absurd (omega arith), tt) }

get_path_inode-resolve_example :
    get_path_inode (b'/' ∷ b'a' ∷ []) disk
    ≡ (get_root_inode disk >>= λ r. deref r >>= λ bnode. resolve ((b'a' ∷ []) ∷ []) bnode disk)
get_path_inode-resolve_example =
    get_path_inode-resolve disk ((b'a' ∷ []) ∷ []) [] (a-IsName, tt) (inl refl)
