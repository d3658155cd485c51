-- ===== src/Blkfs/Blocks.antt =====
-- kernel/src/vfs/blkfs.c: the blocks. `none`: an assertion has halted the machine.
-- `size_t`, `uint32_t` and `uintptr_t` have 32 bits, and their sums wrap around.
pub mod Views
pub mod Alloc
use nju_os_lab.Prelude.{
  ℕ, zero, suc, ◌+◌, ◌-◌, ◌*◌, ◌%◌, ◌^◌, Bool, true, false, Option, none, some, ◌==◌, ◌&&◌, ltb,
  leb, if◌then◌else◌, ◌>>=◌, ◌>>◌, assert,
}
use nju_os_lab.Blkfs.{
  Buffer, Disk, BlkBlock, block_magic, block_data_size, block_size, get_word, put_word,
}

-- `rd_read` and `rd_write` on the device.
abbrev pub rd_read : Buffer → ℕ → Buffer
rd_read space pos k = space (pos + k)

abbrev pub rd_write : Buffer → ℕ → Buffer → ℕ → Buffer
rd_write space pos buf count a = if leb pos a && ltb a (pos + count) then buf (a - pos) else space a

unfoldable pub block_read : ℕ → ℕ → ℕ → Disk → Option Buffer
block_read count block_id offset fs = do
  assert (ltb block_id fs.total_block_num)
  assert (leb ((offset + count) % 2 ^ 32) block_size)
  some (rd_read fs.bytes ((block_id * block_size + offset) % 2 ^ 32))

unfoldable pub block_write : Buffer → ℕ → ℕ → ℕ → Disk → Option Disk
block_write buf count block_id offset fs = do
  assert (ltb block_id fs.total_block_num)
  assert (leb ((offset + count) % 2 ^ 32) block_size)
  some (record fs {
    bytes = rd_write fs.bytes ((block_id * block_size + offset) % 2 ^ 32) buf count;
  })

-- The two words of a header.
abbrev pub read_header : Buffer → BlkBlock
read_header m = record { magic = get_word m 0; type = get_word m 4 }

abbrev pub write_header : BlkBlock → Buffer
write_header blk = put_word (put_word (λ k. 0) 0 blk.magic) 4 blk.type

unfoldable pub block_check : ℕ → Disk → Option Bool
block_check block_id fs = do
  buf ← block_read 8 block_id 0 fs
  some ((read_header buf).magic == block_magic)

unfoldable pub block_getinfo : ℕ → Disk → Option BlkBlock
block_getinfo block_id fs = do
  buf ← block_read 8 block_id 0 fs
  assert ((read_header buf).magic == block_magic)
  some (read_header buf)

unfoldable pub block_setinfo : BlkBlock → ℕ → Disk → Option Disk
block_setinfo blk block_id fs = do
  assert (ltb block_id fs.total_block_num)
  assert (blk.magic == block_magic)
  block_write (write_header blk) 8 block_id 0 fs

unfoldable pub block_readdata : ℕ → ℕ → ℕ → Disk → Option Buffer
block_readdata count block_id offset fs = do
  assert (ltb block_id fs.total_block_num)
  assert (leb ((offset + count) % 2 ^ 32) block_data_size)
  block_read count block_id ((8 + offset) % 2 ^ 32) fs

unfoldable pub block_writedata : Buffer → ℕ → ℕ → ℕ → Disk → Option Disk
block_writedata buf count block_id offset fs = do
  assert (ltb block_id fs.total_block_num)
  assert (leb ((offset + count) % 2 ^ 32) block_data_size)
  block_write buf count block_id ((offset + 8) % 2 ^ 32) fs

unfoldable pub block_init : ℕ → Disk → Option Disk
block_init block_id fs = block_setinfo (record { magic = block_magic; type = 0 }) block_id fs

-- The loop of `block_alloc` over the `n` blocks from `i` on; -1 as `none`.
unfoldable pub block_alloc_from : ℕ → ℕ → Disk → Option (Option ℕ × Disk)
block_alloc_from zero i fs = some (none, fs)
block_alloc_from (suc n) i fs =
    let rest = block_alloc_from n (i + 1) fs in
    do
      blk ← block_getinfo i fs
      if blk.type == 0
          then (do fs' ← block_setinfo (record blk { type = 1 }) i fs; some (some i, fs'))
          else rest

unfoldable pub block_alloc : Disk → Option (Option ℕ × Disk)
block_alloc fs = block_alloc_from (fs.total_block_num - fs.inode_block_num) fs.inode_block_num fs

unfoldable pub block_free : ℕ → Disk → Option Disk
block_free block_id fs = do
  blk ← block_getinfo block_id fs
  assert (blk.type == 1)
  block_setinfo (record blk { type = 0 }) block_id fs
