-- ===== src/Blkfs/Dirs/Added.antt =====
-- kernel/src/vfs/blkfs.c: the disk after `create_filedir` has added an entry with a new inode.
use nju_os_lab.Prelude.{
  ℕ, ◌/◌, ◌^◌, ◌≤◌, ◌<◌, ◌≡◌, ◌≢◌, refl, false, Option, none, some, ◌==◌, arith, ap, sym, ◌∙◌,
}
use nju_os_lab.Klib.Strings.{Bytes}
use nju_os_lab.Blkfs.{Buffer, Disk, BlkInode, entry_type, minus_one_word, link_type}
use nju_os_lab.Blkfs.Words.{Fits}
use nju_os_lab.Blkfs.Blocks.Views.{
  data_of, set_data, IsFormatted, block_writedata-eq, data_of-set_data, data_of-set_data_ne,
}
use nju_os_lab.Blkfs.Blocks.Alloc.{set_data-IsFormatted}
use nju_os_lab.Blkfs.Inodes.{inode_get, inode_alloc, id_word, not_empty}
use nju_os_lab.Blkfs.Inodes.Table.{
  inode_at, put_inode, inode_get-eq, inode_set-eq, not_empty-some, put_inode-IsFormatted,
  inode_at-put_inode, inode_at-put_inode_ne, inode_at_same, data_of-put_inode_ne,
}
use nju_os_lab.Blkfs.Inodes.NewBlock.{IsNew}
use nju_os_lab.Blkfs.Inodes.Create.{Made, new_inode, new_inode-Fits}
use nju_os_lab.Blkfs.Dirs.{
  get_filedir, add_entry, entry_target, add_reference, write_entry, direntry_find_name, id_found,
}
use nju_os_lab.Blkfs.Dirs.Lookup.{
  IsDir, IsShort, get_filedir-eq, id_found_same, id_found-write_entry, id_found-write_entry_ne,
}

abbrev pub linked : ℕ → ℕ → Option ℕ → BlkInode
linked type id block = record {
  type = type;
  id = id;
  block_id = id_word block;
  refcnt = 1;
  size = 0;
}

-- The disk `fs'` after the inode `id` has been made on `fs` under a name in a directory.
pub record Created (fs : Disk) (dir : BlkInode) (type : ℕ) (name : Bytes) (id : ℕ) (fs' : Disk)
    : Type 0 where
  pub block : Option ℕ
  pub new : IsNew fs block
  pub formatted : IsFormatted fs'
  pub found : get_filedir dir name fs' ≡ some (some id)
  pub node : inode_get id fs' ≡ some (some (linked type id block))
  pub was_empty : inode_get id fs ≡ some none
  pub names :
      (other : Bytes)
      → IsShort other
      → other ≢ name
      → get_filedir dir other fs' ≡ get_filedir dir other fs
  pub nodes : (j : ℕ) → j / 51 < fs.inode_block_num → id ≢ j → inode_get j fs' ≡ inode_get j fs
  pub contents :
      (c k : ℕ)
      → k < 1024
      → fs.inode_block_num ≤ c
      → block ≢ some c
      → dir.block_id ≢ c
      → data_of fs' c k ≡ data_of fs c k

empty_none : (nd : BlkInode) → nd.type ≡ 0 → not_empty nd ≡ none
empty_none nd e = rw e refl

module _ (fs : Disk) (dir : BlkInode) (type ind : ℕ) (name : Bytes) (id : ℕ) (fs1 : Disk)
    (f : IsFormatted fs) (d : IsDir fs dir) (s : IsShort name) (some_type : type ≢ 0)
    (small : type < 2 ^ 32) (place : ind < 42) (free : entry_type (data_of fs dir.block_id) ind ≡ 0)
    (absent : direntry_find_name (data_of fs dir.block_id) name ≡ none)
    (made : Made fs type id fs1) where
  abbrev items : Buffer
  items = data_of fs dir.block_id

  abbrev node : BlkInode
  node = linked type id made.block

  counted : Disk
  counted = put_inode id node fs1

  pub final : Disk
  unfolding counted
  final = set_data dir.block_id (write_entry items ind name id) 1024 0 counted

  node-Fits : Fits node
  node-Fits =
      let fits = new_inode-Fits fs type id made.block f made.new small made.place in
      record {
        type = fits.type;
        id = fits.id;
        block_id = fits.block_id;
        refcnt = omega arith;
        size = omega arith;
      }

  id_place : id / 51 < fs1.total_block_num
  id_place = rw made.total (omega (arith, f.table, made.place))

  small_id : id < minus_one_word
  small_id = omega (arith, f.table, f.small, made.place)

  add_reference-eq : add_reference id fs1 ≡ some counted
  unfolding add_reference counted
  add_reference-eq =
      let it : inode_get id fs1 ≡ some (some (new_inode type id made.block)) =
        inode_get-eq fs1 id made.formatted id_place
        ∙ rw made.made (ap some (not_empty-some (new_inode type id made.block) some_type)) in
      rw (add_reference, it) (inode_set-eq fs1 id node made.formatted id_place)

  counted-IsFormatted : IsFormatted counted
  unfolding counted
  counted-IsFormatted = put_inode-IsFormatted fs1 id node made.formatted

  total-counted : counted.total_block_num ≡ fs.total_block_num
  unfolding counted put_inode set_data
  total-counted = made.total

  dir_fits : dir.block_id < counted.total_block_num
  dir_fits = rw total-counted d.high

  final-IsFormatted : IsFormatted final
  unfolding final
  final-IsFormatted =
      set_data-IsFormatted counted dir.block_id (write_entry items ind name id) 1024 0 (omega arith)
        counted-IsFormatted

  final-IsDir : IsDir final dir
  unfolding final counted put_inode set_data
  final-IsDir = record { type = d.type; low = rw made.table d.low; high = rw made.total d.high }

  pub add_entry-eq :
      inode_alloc type fs ≡ some (some id, fs1)
      → (type == link_type) ≡ false
      → add_entry dir type minus_one_word name items ind fs ≡ some (some id, final)
  unfolding add_entry entry_target final
  add_entry-eq e not_link =
      rw (add_entry, not_link, e)
        (rw add_reference-eq (
          rw
            (block_writedata-eq counted dir.block_id counted-IsFormatted dir_fits
              (write_entry items ind name id) 1024 0 (omega arith))
            refl))

  -- The names of the directory are those of the buffer that has been written.
  names-final :
      (other : Bytes)
      → IsShort other
      → get_filedir dir other final ≡ some (id_found (write_entry items ind name id) other)
  unfolding final
  names-final other t =
      get_filedir-eq final dir other final-IsFormatted final-IsDir t
      ∙ ap some (
          id_found_same (write_entry items ind name id) (data_of final dir.block_id) other
            (data_of-set_data counted dir.block_id (write_entry items ind name id)))

  inode_at-final : (j : ℕ) → j / 51 < fs.inode_block_num → inode_at final j ≡ inode_at counted j
  unfolding final
  inode_at-final j h = inode_at_same counted final j (λ k hk.
      data_of-set_data_ne counted dir.block_id (j / 51) (write_entry items ind name id) 1024 0
        (omega arith) k hk (ground (arith, d.low)))

  get-final :
      (j : ℕ)
      → j / 51 < fs.inode_block_num
      → inode_get j final ≡ some (not_empty (inode_at counted j))
  unfolding final counted put_inode set_data
  get-final j h =
      inode_get-eq final j final-IsFormatted (rw made.total (omega (arith, f.table)))
      ∙ ap (λ x. some (not_empty x)) (inode_at-final j h)

  pub final-Created : Created fs dir type name id final
  unfolding final counted
  final-Created = record {
    block = made.block;
    new = made.new;
    formatted = final-IsFormatted;
    found =
        names-final name s
        ∙ ap some (id_found-write_entry items ind name id s small_id place free absent);
    node =
        get-final id made.place
        ∙ rw (inode_at-put_inode fs1 id node node-Fits) (ap some (not_empty-some node some_type));
    was_empty =
        inode_get-eq fs id f (omega (arith, f.table, made.place))
        ∙ ap some (empty_none (inode_at fs id) made.was_empty);
    names = λ other t ne.
        names-final other t
        ∙ ap some
            (id_found-write_entry_ne items ind name id s small_id place free other t.string ne)
        ∙ sym (get_filedir-eq fs dir other f d t);
    nodes = λ j h ne.
        get-final j h
        ∙ ap (λ x. some (not_empty x)) (inode_at-put_inode_ne fs1 id node j ne ∙ made.others j h ne)
        ∙ sym (inode_get-eq fs j f (omega (arith, f.table)));
    contents = λ c k h lo ne nd.
        data_of-set_data_ne counted dir.block_id c (write_entry items ind name id) 1024 0
          (omega arith) k h (ground arith)
        ∙ data_of-put_inode_ne fs1 id node c k h (let p = made.place in ground arith)
        ∙ made.contents c k h lo ne;
  }
