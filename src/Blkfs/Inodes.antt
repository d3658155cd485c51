-- ===== src/Blkfs/Inodes.antt =====
-- kernel/src/vfs/blkfs.c: the table of inodes. Each function reads a block's data into a buffer of its
-- own, and writes the whole buffer back.
pub mod Table
pub mod NewBlock
pub mod Create
use nju_os_lab.Prelude.{
  ℕ, zero, suc, ◌+◌, ◌*◌, ◌/◌, ◌%◌, Option, none, some, ◌==◌, not, if◌then◌else◌, ◌>>=◌, ◌>>◌,
  assert,
}
use nju_os_lab.Blkfs.{
  at_place, Buffer, Disk, BlkInode, block_data_size, inode_per_block, child_per_dir, minus_one_word,
  dir_type, get_word, put_word, read_inode, write_inode,
}
use nju_os_lab.Blkfs.Blocks.{block_readdata, block_writedata, block_alloc, block_free}

-- `NULL`, and a warning, for an empty inode.
abbrev pub not_empty : BlkInode → Option BlkInode
not_empty nd = if nd.type == 0 then none else some nd

unfoldable pub inode_get : ℕ → Disk → Option (Option BlkInode)
inode_get id fs = do
  items ← block_readdata block_data_size (id / inode_per_block) 0 fs
  some (not_empty (read_inode items (id % inode_per_block)))

unfoldable pub inode_set : ℕ → BlkInode → Disk → Option Disk
inode_set id nd fs = do
  items ← block_readdata block_data_size (id / inode_per_block) 0 fs
  block_writedata (write_inode items (id % inode_per_block) nd) block_data_size
      (id / inode_per_block) 0 fs

-- The two loops that set the types of the `n` structures from `i` on to 0.
unfoldable pub clear_inodes : ℕ → ℕ → Buffer → Buffer
clear_inodes zero i items = items
clear_inodes (suc n) i items = clear_inodes n (i + 1) (put_word items (20 * i) 0)

unfoldable pub clear_entries : ℕ → ℕ → Buffer → Buffer
clear_entries zero i items = items
clear_entries (suc n) i items = clear_entries n (i + 1) (put_word items (24 * i) 0)

unfoldable pub inode_block_init : ℕ → Disk → Option Disk
inode_block_init block_id fs = do
  entries ← block_readdata block_data_size block_id 0 fs
  block_writedata (clear_inodes inode_per_block 0 entries) block_data_size block_id 0 fs

unfoldable pub dir_block_init : ℕ → Disk → Option Disk
dir_block_init block_id fs = do
  entries ← block_readdata block_data_size block_id 0 fs
  block_writedata (clear_entries child_per_dir 0 entries) block_data_size block_id 0 fs

-- The inner loop of `inode_alloc`: the first empty place of the `n` from `i` on.
unfoldable pub find_empty : ℕ → ℕ → Buffer → Option ℕ
find_empty zero i items = none
find_empty (suc n) i items =
    let rest = find_empty n (i + 1) items in if get_word items (20 * i) == 0 then some i else rest

abbrev pub id_word : Option ℕ → ℕ
id_word none = minus_one_word
id_word (some b) = b

-- A new block, empty if it is for a directory.
unfoldable pub new_block : ℕ → Disk → Option (Option ℕ × Disk)
new_block type fs = do
  (block, fs1) ← block_alloc fs
  fs2 ← elim block [
    | none ↦ some fs1
    | some b ↦ if type == dir_type then dir_block_init b fs1 else some fs1
  ]
  some (block, fs2)

-- The new inode at a place of block `bk`. Without a free block it is made all the same, with -1 for its
-- block.
unfoldable pub make_inode : ℕ → ℕ → Buffer → ℕ → Disk → Option (Option ℕ × Disk)
make_inode type bk items i fs = do
  (block, fs1) ← new_block type fs
  fs2 ←
      block_writedata
        (write_inode items i (record {
          type = type;
          id = bk * inode_per_block + i;
          block_id = id_word block;
          refcnt = 0;
          size = 0;
        }))
        block_data_size bk 0 fs1
  some (some (bk * inode_per_block + i), fs2)

-- The outer loop, over the `n` blocks of the table from `bk` on.
unfoldable pub inode_alloc_from : ℕ → ℕ → ℕ → Disk → Option (Option ℕ × Disk)
inode_alloc_from zero bk type fs = some (none, fs)
inode_alloc_from (suc n) bk type fs =
    let rest = inode_alloc_from n (bk + 1) type fs in
    do
      items ← block_readdata block_data_size bk 0 fs
      at_place rest (λ i. make_inode type bk items i fs) (find_empty inode_per_block 0 items)

unfoldable pub inode_alloc : ℕ → Disk → Option (Option ℕ × Disk)
inode_alloc type fs = inode_alloc_from fs.inode_block_num 0 type fs

unfoldable pub inode_bfree : ℕ → Disk → Option Disk
inode_bfree id fs = do
  items ← block_readdata block_data_size (id / inode_per_block) 0 fs
  let nd = read_inode items (id % inode_per_block)
  assert (not (nd.type == 0))
  fs1 ← if nd.block_id == minus_one_word then some fs else block_free nd.block_id fs
  block_writedata (put_word items (20 * (id % inode_per_block)) 0) block_data_size
      (id / inode_per_block) 0 fs1
