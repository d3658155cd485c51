-- ===== src/Blkfs/Files/Reread.antt =====
-- kernel/src/vfs/blkfs.c: a write, and the read of the same bytes through the same file.
use nju_os_lab.Prelude.{
  ℕ, ◌+◌, ◌-◌, ◌≤◌, ◌<◌, ◌≡◌, refl, false, Option, some, ltb, ◌>>=◌, arith, ap, ◌∙◌, ℤ, pos,
}
use nju_os_lab.Blkfs.{Buffer, Disk, BlkInode}
use nju_os_lab.Klib.Strings.{Bytes}
use nju_os_lab.Blkfs.Inodes.{inode_get}
use nju_os_lab.Blkfs.Dirs.{deref}
use nju_os_lab.Blkfs.Blocks.Views.{IsFormatted}
use nju_os_lab.Blkfs.Files.{
  BlkFile, at_most, inode_read, inode_write, inode_open, inode_lseek, inode_access, file_read,
  file_write,
}
use nju_os_lab.Blkfs.Files.Contents.{IsStored, IsFile, grown, inode_read-eq, inode_write-Written}

-- What `open` of a file that the walk along its path has found does, for reading, and then `lseek` and `read`: the inode comes from the disk.
unfoldable pub reread : ℕ → Bytes → ℕ → ℕ → Disk → Option (ℤ × Buffer × BlkFile)
reread id path offset size fs = do
  found ← inode_get id fs
  node ← deref found
  (_, file1, fs1) ←
      inode_open (record { flags = 0; offset = 0; ptr = some node; path = path }) file_read fs
  inode_read (inode_lseek file1 offset).1 size fs1

abbrev at_offset : BlkInode → Bytes → ℕ → BlkFile
at_offset node path offset = record {
  flags = file_read;
  offset = offset;
  ptr = some node;
  path = path;
}

reread-eq :
    (fs : Disk) (id : ℕ) (path : Bytes) (node : BlkInode) (offset size : ℕ)
    → inode_get id fs ≡ some (some node)
    → node.type ≡ 1
    → offset ≤ node.size
    → reread id path offset size fs ≡ inode_read (at_offset node path offset) size fs
unfolding reread inode_open inode_lseek inode_access
reread-eq fs id path node offset size got type inside =
    let small : ltb node.size offset ≡ false = ground arith in
    rw (reread, got) (rw (type, small) refl)

-- Bytes that have been written to a file, whose inode is as it is on the disk, come back: the write takes as many as there is room for in the file's one block, and a read of that many, after the file has
-- been opened again, with its inode read from the disk, and the offset has been set to where the write began, returns all of them, as they were written.
pub reread-inode_write :
    (fs : Disk) (file : BlkFile) (node : BlkInode) (buf : Buffer) (size : ℕ) (path : Bytes)
    → IsFormatted fs
    → IsFile fs node
    → IsStored fs node
    → node.type ≡ 1
    → file.ptr ≡ some node
    → file.flags ≡ file_write
    → file.offset ≤ 1024
    → (file1 : BlkFile) × (fs1 : Disk) × (buf' : Buffer) × (file2 : BlkFile) × (inode_write file buf
          size fs
        ≡ some (pos (at_most size (1024 - file.offset)), file1, fs1))
      × (reread node.id path file.offset (at_most size (1024 - file.offset)) fs1
          ≡ some (pos (at_most size (1024 - file.offset)), buf', file2))
      × ((k : ℕ) → k < at_most size (1024 - file.offset) → buf' k ≡ buf k)
reread-inode_write fs file node buf size path f i stored type p flags inside =
    let count = at_most size (1024 - file.offset) in
    let (file1, fs1, e, done) =
      inode_write-Written fs file node buf size f i stored p flags inside in
    let node1 : BlkInode = record node { size = grown node.size (file.offset + count) } in
    let fits : file.offset + count ≤ 1024 = ground arith in
    let covered : file.offset + count ≤ node1.size = ground arith in
    let i1 : IsFile fs1 node1 = record {
      place = rw done.table i.place;
      low = rw done.table i.low;
      high = rw done.total i.high;
      size = let s = i.size in ground arith;
    } in
    let (buf', e', got) =
      inode_read-eq fs1 (at_offset node1 path file.offset) node1 count done.formatted i1 refl refl
        (omega arith) in
    let all : at_most count (node1.size - file.offset) ≡ count = ground arith in
    (
      file1,
      fs1,
      buf',
      record (at_offset node1 path file.offset) {
        offset = file.offset + at_most count (node1.size - file.offset);
      },
      e,
      reread-eq fs1 node.id path node1 file.offset count done.stored type (omega arith)
          ∙ e'
          ∙ ap
              (λ n. some (
                pos n,
                buf',
                record (at_offset node1 path file.offset) {
                  offset = file.offset + at_most count (node1.size - file.offset);
                },
              ))
              all,
      λ k h.
          got k
          ∙ done.bytes (file.offset + k) (omega arith)
          ∙ (let at : file.offset + k - file.offset ≡ k = omega arith in ground (arith, at)),
    )
