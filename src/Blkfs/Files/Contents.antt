-- ===== src/Blkfs/Files/Contents.antt =====
-- kernel/src/vfs/blkfs.c: `inode_read` and `inode_write` on a formatted disk.
use nju_os_lab.Prelude.{
  ℕ, ◌+◌, ◌-◌, ◌*◌, ◌/◌, ◌%◌, ◌^◌, ◌≤◌, ◌<◌, ◌≡◌, ◌≢◌, refl, inl, inr, true, false, some, ◌==◌,
  ◌&&◌, ltb, leb, if◌then◌else◌, arith, ap, sym, subst, ◌∙◌, Bool-cases, pos,
}
use native.Mathlib.Nat.{mod-eq_of_lt}
use nju_os_lab.Blkfs.{Buffer, Disk, BlkInode, block_size, block_data_size, minus_one_word}
use nju_os_lab.Blkfs.Blocks.Views.{
  data_of, set_data, IsFormatted, block_readdata_part, block_writedata-eq, data_of-set_data_ne,
}
use nju_os_lab.Blkfs.Blocks.Alloc.{set_data-IsFormatted}
use nju_os_lab.Blkfs.Inodes.Table.{
  put_inode, inode_at, inode_get-eq, inode_at-put_inode, inode_at_same, not_empty-some,
  inode_set-eq, put_inode-IsFormatted, data_of-put_inode_ne,
}
use nju_os_lab.Blkfs.Words.{Fits}
use nju_os_lab.Blkfs.Inodes.{inode_get, not_empty}
use nju_os_lab.Blkfs.Files.{
  BlkFile, at_most, inode_read, inode_write, read_node, write_node, grow, file_read, file_write,
}

-- The inode of a file whose block is behind the table of inodes.
pub record IsFile (fs : Disk) (node : BlkInode) : Type 0 where
  pub place : node.id / 51 < fs.inode_block_num
  pub low : fs.inode_block_num ≤ node.block_id
  pub high : node.block_id < fs.total_block_num
  pub size : node.size ≤ 1024

has_block :
    (fs : Disk) (node : BlkInode)
    → IsFormatted fs
    → IsFile fs node
    → (node.block_id == minus_one_word) ≡ false
has_block fs node f i = ground (arith, i.high, f.small)

-- A file that is open for reading gives the bytes from its offset on, at most as many as there are up to its size.
pub inode_read-eq :
    (fs : Disk) (file : BlkFile) (node : BlkInode) (size : ℕ)
    → IsFormatted fs
    → IsFile fs node
    → file.ptr ≡ some node
    → file.flags ≡ file_read
    → file.offset ≤ node.size
    → (buf : Buffer) × (inode_read file size fs
        ≡ some (
          pos (at_most size (node.size - file.offset)),
          buf,
          record file { offset = file.offset + at_most size (node.size - file.offset) },
        ))
      × ((k : ℕ) → buf k ≡ data_of fs node.block_id (file.offset + k))
unfolding inode_read read_node
inode_read-eq fs file node size f i p flags inside =
    let room : file.offset + at_most size (node.size - file.offset) ≤ 1024 =
      ground (arith, i.size) in
    let (buf, e, bytes) =
      block_readdata_part fs node.block_id f i.high (at_most size (node.size - file.offset))
        file.offset room in
    let within : leb file.offset node.size ≡ true = ground arith in
    (buf, rw (p, flags, within, has_block fs node f i, e) refl, bytes)

-- The bytes of the block after a write of a part of it.
data_of-set_data_part :
    (fs : Disk) (b : ℕ) (buf : Buffer) (count offset k : ℕ)
    → data_of (set_data b buf count offset fs) b k
      ≡ (if leb offset k && ltb k (offset + count) then buf (k - offset) else data_of fs b k)
unfolding data_of set_data
data_of-set_data_part fs b buf count offset k =
    let at : b * block_size + 8 + k - (b * block_size + (offset + 8)) ≡ k - offset = omega arith in
    ground (arith, at)

-- The size after a write that ends at an offset.
abbrev pub grown : ℕ → ℕ → ℕ
grown size offset = if ltb size offset then offset else size

-- What `inode_write` has done: `count` bytes of `buf` stand in the block of the inode from the offset of the file on, and the inode in the
-- table of the disk is the one that the file has.
pub record Written (fs : Disk) (file : BlkFile) (node : BlkInode) (buf : Buffer) (count : ℕ)
    (file' : BlkFile) (fs' : Disk) : Type 0 where
  pub offset : file'.offset ≡ file.offset + count
  pub ptr : file'.ptr ≡ some (record node { size = grown node.size (file.offset + count) })
  pub stored :
      inode_get node.id fs'
      ≡ some (some (record node { size = grown node.size (file.offset + count) }))
  pub formatted : IsFormatted fs'
  pub table : fs'.inode_block_num ≡ fs.inode_block_num
  pub total : fs'.total_block_num ≡ fs.total_block_num
  pub bytes :
      (k : ℕ)
      → k < 1024
      → data_of fs' node.block_id k ≡ (
          if leb file.offset k && ltb k (file.offset + count)
          then buf (k - file.offset)
          else data_of fs node.block_id k)
  pub others :
      (c k : ℕ)
      → k < 1024
      → fs.inode_block_num ≤ c
      → node.block_id ≢ c
      → data_of fs' c k ≡ data_of fs c k

-- The inode is the one in the table, as `inode_get` has returned it.
pub record IsStored (fs : Disk) (node : BlkInode) : Type 0 where
  pub got : inode_get node.id fs ≡ some (some node)
  pub fits : Fits node

not_empty_inv : (nd node : BlkInode) → not_empty nd ≡ some node → (nd ≡ node) × (node.type ≢ 0)
not_empty_inv nd node e = elim (Bool-cases (nd.type == 0)) [
  | inl q ↦ cc
  | inr q ↦
      let same : nd ≡ node = cc in
      let used : nd.type ≢ 0 = ground (arith, q) in (same, subst (λ n. n.type ≢ 0) same used)
]

stored_at :
    (fs : Disk) (node : BlkInode)
    → IsFormatted fs
    → node.id / 51 < fs.total_block_num
    → IsStored fs node
    → (inode_at fs node.id ≡ node) × (node.type ≢ 0)
stored_at fs node f inside h =
    let read : some (not_empty (inode_at fs node.id)) ≡ some (some node) =
      sym (inode_get-eq fs node.id f inside) ∙ h.got in
    let found : not_empty (inode_at fs node.id) ≡ some node = cc in
    not_empty_inv (inode_at fs node.id) node found

module _ (fs : Disk) (file : BlkFile) (node : BlkInode) (buf : Buffer) (f : IsFormatted fs)
    (i : IsFile fs node) (count : ℕ) (room : file.offset + count ≤ 1024) where
  written : Disk
  written = set_data node.block_id buf count file.offset fs

  written-IsFormatted : IsFormatted written
  unfolding written
  written-IsFormatted = set_data-IsFormatted fs node.block_id buf count file.offset room f

  moved : BlkFile
  moved = record file { offset = file.offset + count }

  grow-Written :
      file.ptr ≡ some node
      → IsStored fs node
      → (file' : BlkFile) × (fs' : Disk) × (grow node moved count written
          ≡ some (pos count, file', fs'))
        × Written fs file node buf count file' fs'
  unfolding grow written moved put_inode set_data
  grow-Written p stored =
      let inside : node.id / 51 < fs.total_block_num = omega (arith, f.table, i.place) in
      let apart : (node.block_id == node.id / 51) ≡ false = ground (arith, i.place, i.low) in
      elim (Bool-cases (ltb node.size (file.offset + count))) [
        | inl q ↦
            let node' = record node { size = file.offset + count } in
            let fits' : Fits node' = record {
              type = stored.fits.type;
              id = stored.fits.id;
              block_id = stored.fits.block_id;
              refcnt = stored.fits.refcnt;
              size = omega (arith, room);
            } in
            (
              record moved { ptr = some node' },
              put_inode node.id node' written,
              rw (grow, q)
                  (rw
                    (inode_set-eq written node.id node' written-IsFormatted
                      (omega (arith, f.table, i.place)))
                    refl),
              record {
                offset = refl;
                ptr = rw q refl;
                stored = rw q (
                    inode_get-eq (put_inode node.id node' written) node.id
                      (put_inode-IsFormatted written node.id node' written-IsFormatted) inside
                    ∙ ap (λ n. some (not_empty n)) (inode_at-put_inode written node.id node' fits')
                    ∙ ap some (not_empty-some node' (stored_at fs node f inside stored).1));
                formatted = put_inode-IsFormatted written node.id node' written-IsFormatted;
                table = refl;
                total = refl;
                bytes = λ k h.
                    data_of-put_inode_ne written node.id node' node.block_id k h
                      (ground (arith, i.place, i.low))
                    ∙ data_of-set_data_part fs node.block_id buf count file.offset k;
                others = λ c k h lo ne.
                    data_of-put_inode_ne written node.id node' c k h (ground (arith, i.place))
                    ∙ data_of-set_data_ne fs node.block_id c buf count file.offset room k h
                        (ground arith);
              },
            )
        | inr q ↦ (
          moved,
          written,
          rw (grow, q) refl,
          record {
            offset = refl;
            ptr = rw q p;
            stored = rw q (
                inode_get-eq written node.id written-IsFormatted inside
                ∙ ap (λ n. some (not_empty n))
                    (inode_at_same fs written node.id (λ k h.
                        data_of-set_data_ne fs node.block_id (node.id / 51) buf count file.offset
                          room k h apart)
                      ∙ (stored_at fs node f inside stored).0)
                ∙ ap some (not_empty-some node (stored_at fs node f inside stored).1));
            formatted = written-IsFormatted;
            table = refl;
            total = refl;
            bytes = λ k h. data_of-set_data_part fs node.block_id buf count file.offset k;
            others = λ c k h lo ne.
                data_of-set_data_ne fs node.block_id c buf count file.offset room k h
                  (ground arith);
          },
        )
      ]

inode_write_start :
    (fs : Disk) (file : BlkFile) (node : BlkInode) (buf : Buffer) (size : ℕ)
    → file.ptr ≡ some node
    → file.flags ≡ file_write
    → inode_write file buf size fs ≡ write_node node file buf size fs
unfolding inode_write
inode_write_start fs file node buf size p flags = simp (inode_write, p, flags) refl

write_node_start :
    (fs : Disk) (file : BlkFile) (node : BlkInode) (buf : Buffer) (size : ℕ) (f : IsFormatted fs)
    (i : IsFile fs node) (inside : file.offset ≤ 1024)
    (room : file.offset + at_most size (1024 - file.offset) ≤ 1024)
    → write_node node file buf size fs
      ≡ grow node
          (moved fs file node buf f i (at_most size (1024 - file.offset)) room)
          (at_most size (1024 - file.offset))
          (written fs file node buf f i (at_most size (1024 - file.offset)) room)
unfolding write_node written moved
write_node_start fs file node buf size f i inside room =
    let whole : file.offset % 2 ^ 32 ≡ file.offset = mod-eq_of_lt (omega arith) in
    let rem : (block_data_size + 2 ^ 64 - file.offset) % 2 ^ 32 ≡ 1024 - file.offset =
      omega arith in
    rw (write_node, has_block fs node f i, rem, whole)
      (rw
        (block_writedata-eq fs node.block_id f i.high buf (at_most size (1024 - file.offset))
          file.offset room)
        refl)

-- A file that is open for writing takes as many bytes as there is room for between its offset and the end of its one block. The file's offset moves behind
-- them and its size covers them, in the inode that the file has and in the table of inodes on the disk, where `inode_get` finds it; no byte of any other block behind the table changes.
pub inode_write-Written :
    (fs : Disk) (file : BlkFile) (node : BlkInode) (buf : Buffer) (size : ℕ)
    → IsFormatted fs
    → IsFile fs node
    → IsStored fs node
    → file.ptr ≡ some node
    → file.flags ≡ file_write
    → file.offset ≤ 1024
    → (file' : BlkFile) × (fs' : Disk) × (inode_write file buf size fs
        ≡ some (pos (at_most size (1024 - file.offset)), file', fs'))
      × Written fs file node buf (at_most size (1024 - file.offset)) file' fs'
inode_write-Written fs file node buf size f i stored p flags inside =
    let count = at_most size (1024 - file.offset) in
    let room : file.offset + count ≤ 1024 = ground arith in
    let (file', fs', e, done) = grow-Written fs file node buf f i count room p stored in
    (
      file',
      fs',
      inode_write_start fs file node buf size p flags
          ∙ write_node_start fs file node buf size f i inside room
          ∙ e,
      done,
    )
