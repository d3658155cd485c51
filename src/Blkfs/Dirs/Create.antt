-- ===== src/Blkfs/Dirs/Create.antt =====
-- kernel/src/vfs/blkfs.c: the ends of `create_filedir` with a new inode.
use nju_os_lab.Prelude.{
  ℕ, ◌/◌, ◌^◌, ◌<◌, ◌≡◌, ◌≢◌, refl, ◌⊎◌, inl, inr, false, Option, none, some, ◌==◌, ltb, arith, ◌∙◌,
  Option-cases,
}
use nju_os_lab.Klib.Strings.{Bytes}
use nju_os_lab.Blkfs.{Buffer, Disk, BlkInode, minus_one_word, link_type, at_place}
use nju_os_lab.Blkfs.Blocks.{block_readdata}
use nju_os_lab.Blkfs.Blocks.Views.{data_of, IsFormatted, block_readdata-eq}
use nju_os_lab.Blkfs.Inodes.{inode_get, inode_alloc}
use nju_os_lab.Blkfs.Inodes.Table.{inode_at}
use nju_os_lab.Blkfs.Inodes.Create.{Outcome, inode_alloc-Outcome}
use nju_os_lab.Blkfs.Dirs.{
  create_filedir, add_entry, entry_target, add_reference, direntry_find_name, direntry_find_free,
}
use nju_os_lab.Blkfs.Dirs.Search.{find_free_lem}
use nju_os_lab.Blkfs.Dirs.Lookup.{IsDir, IsShort, short_enough}
use nju_os_lab.Blkfs.Dirs.Added.{Created, final, add_entry-eq, final-Created}

-- -1 is not the id of an inode.
add_reference_minus_one : (fs : Disk) → IsFormatted fs → add_reference minus_one_word fs ≡ none
unfolding add_reference inode_get block_readdata
add_reference_minus_one fs f =
    let out : ltb (minus_one_word / 51) fs.total_block_num ≡ false = ground (arith, f.small) in
    rw out refl

-- The three ends of `create_filedir`.
abbrev pub Ends : Disk → BlkInode → ℕ → Bytes → Type 0
Ends fs dir type name =
    ((create_filedir dir type minus_one_word name fs ≡ some (none, fs))
      × ((direntry_find_name (data_of fs dir.block_id) name ≢ none)
          ⊎ (direntry_find_free (data_of fs dir.block_id) ≡ none)))
    ⊎ ((create_filedir dir type minus_one_word name fs ≡ none)
        × ((id : ℕ) → id / 51 < fs.inode_block_num → (inode_at fs id).type ≢ 0))
    ⊎ ((id : ℕ) × (fs' : Disk) × (create_filedir dir type minus_one_word name fs
          ≡ some (some id, fs'))
        × Created fs dir type name id fs')

module _ (fs : Disk) (dir : BlkInode) (type : ℕ) (name : Bytes) (f : IsFormatted fs)
    (d : IsDir fs dir) (s : IsShort name) (t : type ≡ 1 ⊎ type ≡ 2) where
  abbrev entries : Buffer
  entries = data_of fs dir.block_id

  create_filedir_start :
      create_filedir dir type minus_one_word name fs
      ≡ at_place
          (at_place
            (some (none, fs))
            (λ ind. add_entry dir type minus_one_word name entries ind fs)
            (direntry_find_free entries))
          (λ ind. some (none, fs))
          (direntry_find_name entries name)
  unfolding create_filedir
  create_filedir_start =
      rw (create_filedir, d.type, short_enough name s, block_readdata-eq fs dir.block_id f d.high)
        refl

  not_link : (type == link_type) ≡ false
  not_link = ground arith

  small_type : type < 2 ^ 32
  small_type = omega arith

  some_type : type ≢ 0
  some_type = omega arith

  add_entry_full :
      (fs1 : Disk) (ind : ℕ)
      → inode_alloc type fs ≡ some (none, fs1)
      → fs1 ≡ fs
      → add_entry dir type minus_one_word name entries ind fs ≡ none
  unfolding add_entry entry_target
  add_entry_full fs1 ind e same =
      rw (add_entry, not_link, e, same) (rw (add_reference_minus_one fs f) refl)

  with_entry :
      (ind : ℕ) (r : Option ℕ) (fs1 : Disk)
      → direntry_find_name entries name ≡ none
      → direntry_find_free entries ≡ some ind
      → inode_alloc type fs ≡ some (r, fs1)
      → Outcome fs type 0 r fs1
      → Ends fs dir type name
  with_entry ind none fs1 q q' e (same, full) = inr (
      inl (
        create_filedir_start ∙ rw (q, q') (add_entry_full fs1 ind e same),
        λ id h. full id (omega arith) h,
      ))
  with_entry ind (some id) fs1 q q' e made =
      let (lo, hi, free) = find_free_lem 42 0 entries ind q' in
      inr (
        inr (
          id,
          final fs dir type ind name id fs1 f d s some_type small_type (omega arith) free q made,
          create_filedir_start
              ∙ rw (q, q')
                  (add_entry-eq fs dir type ind name id fs1 f d s some_type small_type (omega arith)
                    free q made e not_link),
          final-Created fs dir type ind name id fs1 f d s some_type small_type (omega arith) free q
              made,
        ))

  create-Ends : Ends fs dir type name
  create-Ends = elim (Option-cases (direntry_find_name entries name)) [
    | inr (k, q) ↦ inl (create_filedir_start ∙ rw q refl, inl (λ e. cc))
    | inl q ↦ elim (Option-cases (direntry_find_free entries)) [
      | inl q' ↦ inl (create_filedir_start ∙ rw (q, q') refl, inr q')
      | inr (ind, q') ↦
          let (r, fs1, e, done) = inode_alloc-Outcome fs type f small_type in
          with_entry ind r fs1 q q' e done
    ]
  ]

-- On a formatted disk, `create_filedir` of a file or a directory, in a directory and under a name of less than 15 bytes, has one of three ends. It
-- returns -1 and changes nothing, where the name is there or no entry is free. It halts, where no inode is empty. Otherwise it returns an inode
-- that was empty: `get_filedir` finds it under the name, and finds the same as before under every other name; it has one reference and size 0, the
-- other inodes are as they were, and so is the data of the blocks behind the table, but for the directory and for the new block.
pub create_filedir-Created :
    (fs : Disk) (dir : BlkInode) (type : ℕ) (name : Bytes)
    → IsFormatted fs
    → IsDir fs dir
    → IsShort name
    → type ≡ 1 ⊎ type ≡ 2
    → Ends fs dir type name
create_filedir-Created fs dir type name f d s t = create-Ends fs dir type name f d s t
