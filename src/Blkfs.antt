-- ===== src/Blkfs.antt =====
-- kernel/src/vfs/blkfs.c, the file system on blocks of a device: the bytes of the device, the words in
-- them, and the structures that stand in blocks. kernel/src/devices/ramdisk/ramdisk.c is the device.
pub mod Words
pub mod Blocks
pub mod Inodes
pub mod Dirs
pub mod Files
pub mod Calls
mod Tests
use nju_os_lab.Prelude.{
  ℕ, zero, suc, ◌+◌, ◌-◌, ◌*◌, ◌/◌, ◌%◌, ◌^◌, Bool, Option, none, some, List, [], ◌∷◌, ◌==◌,
  if◌then◌else◌,
}
use nju_os_lab.Klib.Strings.{Bytes}

-- A buffer: bytes by index.
abbrev pub Buffer : Type 0
Buffer = ℕ → ℕ

-- `blkfs_info`, with the device's bytes. The fields that are constants are the numbers below, and
-- `full_size` is only used to compute the block numbers.
pub record Disk : Type 0 where
  pub total_block_num : ℕ
  pub inode_block_num : ℕ
  pub bytes : Buffer

abbrev pub block_magic : ℕ
block_magic = 54987631

-- `BLOCK_DATA_SIZE`, and with `sizeof(blkfs_block)`.
abbrev pub block_data_size : ℕ
block_data_size = 1024

abbrev pub block_size : ℕ
block_size = 1032

-- `BLOCK_DATA_SIZE` over the sizes of `blkfs_inode`, 20, and `dir_entry`, 24.
abbrev pub inode_per_block : ℕ
inode_per_block = 51

abbrev pub child_per_dir : ℕ
child_per_dir = 42

-- `int` fields are 32-bit words, and -1 is the last of them.
abbrev pub minus_one_word : ℕ
minus_one_word = 4294967295

-- `blkfs_block`. The types are `FREE`, 0, and `USING`, 1.
pub record BlkBlock : Type 0 where
  pub magic : ℕ
  pub type : ℕ

-- `blkfs_inode`. The types are `EMPTY`, 0, `FILE`, 1, `DIR`, 2, and `LINK`, 3.
pub record BlkInode : Type 0 where
  pub type : ℕ
  pub id : ℕ
  pub block_id : ℕ
  pub refcnt : ℕ
  pub size : ℕ

abbrev pub file_type : ℕ
file_type = 1

abbrev pub dir_type : ℕ
dir_type = 2

abbrev pub link_type : ℕ
link_type = 3

-- A 32-bit word, lowest byte first.
unfoldable pub get_word : Buffer → ℕ → ℕ
get_word m a = m a + 256 * m (a + 1) + 65536 * m (a + 2) + 16777216 * m (a + 3)

unfoldable pub put_word : Buffer → ℕ → ℕ → Buffer
put_word m a v b =
    if b == a
    then v % 256
    else if b == a + 1
    then v / 256 % 256
    else if b == a + 2
    then v / 65536 % 256
    else if b == a + 3
    then v / 16777216 % 256
    else m b

-- `items[t]` of a block of inodes.
unfoldable pub read_inode : Buffer → ℕ → BlkInode
read_inode m t = record {
  type = get_word m (20 * t);
  id = get_word m (20 * t + 4);
  block_id = get_word m (20 * t + 8);
  refcnt = get_word m (20 * t + 12);
  size = get_word m (20 * t + 16);
}

unfoldable pub write_inode : Buffer → ℕ → BlkInode → Buffer
write_inode m t nd =
    put_word
      (put_word
        (put_word (put_word (put_word m (20 * t) nd.type) (20 * t + 4) nd.id) (20 * t + 8)
          nd.block_id)
        (20 * t + 12) nd.refcnt)
      (20 * t + 16) nd.size

-- The string at an index, up to its NUL or to the end of the fuel.
unfoldable pub read_string : ℕ → Buffer → ℕ → Bytes
read_string zero m a = []
read_string (suc n) m a = let rest = read_string n m (a + 1) in if m a == 0 then [] else m a ∷ rest

-- `strcpy` into a buffer.
unfoldable pub write_string : Buffer → ℕ → Bytes → Buffer
write_string m a [] b = if b == a then 0 else m b
write_string m a (c ∷ s) b = write_string (λ k. if k == a then c else m k) (a + 1) s b

-- The fields of `entries[i]` of a block of a directory. The name has 16 bytes, and is written with its
-- NUL.
abbrev pub entry_type : Buffer → ℕ → ℕ
entry_type m i = get_word m (24 * i)

abbrev pub entry_name : Buffer → ℕ → Bytes
entry_name m i = read_string 16 m (24 * i + 4)

abbrev pub entry_inode : Buffer → ℕ → ℕ
entry_inode m i = get_word m (24 * i + 20)

-- With the index that a search has found, or without.
abbrev pub at_place {ℓ} : {A : Type ℓ} → A → (ℕ → A) → Option ℕ → A
at_place otherwise found none = otherwise
at_place otherwise found (some i) = found i
