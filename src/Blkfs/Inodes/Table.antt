-- ===== src/Blkfs/Inodes/Table.antt =====
-- kernel/src/vfs/blkfs.c: `inode_get` and `inode_set` in terms of the inode at each place of the table.
use nju_os_lab.Prelude.{
  ℕ, ◌/◌, ◌%◌, ◌<◌, ◌≡◌, ◌≢◌, refl, inl, inr, false, some, ◌==◌, arith, ap, sym, ◌∙◌, Bool-cases,
  ==→≡,
}
use nju_os_lab.Blkfs.{Buffer, Disk, BlkInode, read_inode, write_inode}
use nju_os_lab.Blkfs.Words.{
  Fits, read_inode-write_inode, read_inode-write_inode_ne, read_inode_same,
}
use nju_os_lab.Blkfs.Blocks.Views.{
  data_of, set_data, IsFormatted, block_readdata-eq, block_writedata-eq, data_of-set_data,
  data_of-set_data_ne,
}
use nju_os_lab.Blkfs.Blocks.Alloc.{set_data-IsFormatted}
use nju_os_lab.Blkfs.Inodes.{inode_get, inode_set, not_empty}

unfoldable pub inode_at : Disk → ℕ → BlkInode
inode_at fs id = read_inode (data_of fs (id / 51)) (id % 51)

-- The disk with another inode at a place.
unfoldable pub put_inode : ℕ → BlkInode → Disk → Disk
put_inode id nd fs = set_data (id / 51) (write_inode (data_of fs (id / 51)) (id % 51) nd) 1024 0 fs

pub inode_get-eq :
    (fs : Disk) (id : ℕ)
    → IsFormatted fs
    → id / 51 < fs.total_block_num
    → inode_get id fs ≡ some (not_empty (inode_at fs id))
unfolding inode_get inode_at
inode_get-eq fs id f h = rw (inode_get, block_readdata-eq fs (id / 51) f h) refl

pub inode_set-eq :
    (fs : Disk) (id : ℕ) (nd : BlkInode)
    → IsFormatted fs
    → id / 51 < fs.total_block_num
    → inode_set id nd fs ≡ some (put_inode id nd fs)
unfolding inode_set put_inode
inode_set-eq fs id nd f h =
    rw (inode_set, block_readdata-eq fs (id / 51) f h)
      (block_writedata-eq fs (id / 51) f h (write_inode (data_of fs (id / 51)) (id % 51) nd) 1024 0
        (omega arith))

pub put_inode-IsFormatted :
    (fs : Disk) (id : ℕ) (nd : BlkInode) → IsFormatted fs → IsFormatted (put_inode id nd fs)
unfolding put_inode
put_inode-IsFormatted fs id nd f =
    set_data-IsFormatted fs (id / 51) (write_inode (data_of fs (id / 51)) (id % 51) nd) 1024 0
      (omega arith) f

-- The inodes of a block of the table whose data has been replaced.
pub inode_at-set_data :
    (fs : Disk) (buf : Buffer) (b id : ℕ)
    → b ≡ id / 51
    → inode_at (set_data b buf 1024 0 fs) id ≡ read_inode buf (id % 51)
unfolding inode_at
inode_at-set_data fs buf b id e = rw (sym e) (
    read_inode_same (data_of (set_data b buf 1024 0 fs) b) buf (id % 51) (data_of-set_data fs b buf)
      (omega arith))

-- Inodes depend on the data of their block.
pub inode_at_same :
    (fs fs' : Disk) (id : ℕ)
    → ((k : ℕ) → k < 1024 → data_of fs' (id / 51) k ≡ data_of fs (id / 51) k)
    → inode_at fs' id ≡ inode_at fs id
unfolding inode_at
inode_at_same fs fs' id h =
    read_inode_same (data_of fs' (id / 51)) (data_of fs (id / 51)) (id % 51) h (omega arith)

module _ (fs : Disk) (id : ℕ) (nd : BlkInode) where
  pub data_of-put_inode_ne :
      (c k : ℕ)
      → k < 1024
      → (id / 51 == c) ≡ false
      → data_of (put_inode id nd fs) c k ≡ data_of fs c k
  unfolding put_inode
  data_of-put_inode_ne c k h ne =
      data_of-set_data_ne fs (id / 51) c (write_inode (data_of fs (id / 51)) (id % 51) nd) 1024 0
        (omega arith) k h ne

  pub inode_at-put_inode : Fits nd → inode_at (put_inode id nd fs) id ≡ nd
  unfolding put_inode inode_at
  inode_at-put_inode fits =
      inode_at-set_data fs (write_inode (data_of fs (id / 51)) (id % 51) nd) (id / 51) id refl
      ∙ read_inode-write_inode (data_of fs (id / 51)) (id % 51) nd fits

  pub inode_at-put_inode_ne : (j : ℕ) → id ≢ j → inode_at (put_inode id nd fs) j ≡ inode_at fs j
  unfolding put_inode inode_at
  inode_at-put_inode_ne j ne = elim (Bool-cases (id / 51 == j / 51)) [
    | inl e ↦ same_block (==→≡ (id / 51) (j / 51) e)
    | inr e ↦ inode_at_same fs (put_inode id nd fs) j (λ k h. data_of-put_inode_ne (j / 51) k h e)
  ]
    where
      same_block : id / 51 ≡ j / 51 → inode_at (put_inode id nd fs) j ≡ inode_at fs j
      same_block e =
          inode_at-set_data fs (write_inode (data_of fs (id / 51)) (id % 51) nd) (id / 51) j e
          ∙ read_inode-write_inode_ne (data_of fs (id / 51)) (id % 51) (j % 51) nd
              (λ m. ne (omega arith))
          ∙ ap (λ c. read_inode (data_of fs c) (j % 51)) e

pub not_empty-some : (nd : BlkInode) → nd.type ≢ 0 → not_empty nd ≡ some nd
not_empty-some nd h = ground arith

-- `inode_set` of an inode that is not empty, with 32-bit fields, does not halt on a formatted disk. `inode_get` returns that inode afterwards,
-- at every other id what it returned before, and the disk is still formatted.
pub inode_get-inode_set :
    (fs : Disk) (id : ℕ) (nd : BlkInode)
    → IsFormatted fs
    → id / 51 < fs.total_block_num
    → Fits nd
    → nd.type ≢ 0
    → (fs' : Disk) × (inode_set id nd fs ≡ some fs')
      × IsFormatted fs'
      × (inode_get id fs' ≡ some (some nd))
      × ((j : ℕ) → j / 51 < fs.total_block_num → id ≢ j → inode_get j fs' ≡ inode_get j fs)
unfolding put_inode set_data
inode_get-inode_set fs id nd f h fits used =
    let f' = put_inode-IsFormatted fs id nd f in
    (
      put_inode id nd fs,
      inode_set-eq fs id nd f h,
      f',
      inode_get-eq (put_inode id nd fs) id f' h
          ∙ rw (inode_at-put_inode fs id nd fits) (ap some (not_empty-some nd used)),
      λ j hj ne.
          inode_get-eq (put_inode id nd fs) j f' hj
          ∙ rw (inode_at-put_inode_ne fs id nd j ne) (sym (inode_get-eq fs j f hj)),
    )
