-- ===== src/Blkfs/Dirs.antt =====
-- kernel/src/vfs/blkfs.c: directories, and the walk along a path.
pub mod Entries
pub mod Search
pub mod Lookup
pub mod Added
pub mod Resolve
pub mod Create
use nju_os_lab.Prelude.{
  ℕ, zero, suc, ◌+◌, ◌-◌, ◌*◌, ◌%◌, ◌^◌, Option, none, some, List, [], ◌∷◌, ◌==◌, ltb, length,
  if◌then◌else◌, ◌>>=◌, ◌>>◌, assert,
}
use nju_os_lab.Klib.Strings.{Bytes, streq, strlen}
use nju_os_lab.Path.{path_next_name}
use nju_os_lab.Vfs.{Entry, EntryType, item_dir, item_file, item_link}
use nju_os_lab.Blkfs.{
  Buffer, Disk, BlkInode, at_place, block_data_size, child_per_dir, minus_one_word, file_type,
  dir_type, link_type, put_word, write_string, entry_type, entry_name, entry_inode,
}
use nju_os_lab.Blkfs.Blocks.{block_readdata, block_writedata}
use nju_os_lab.Blkfs.Inodes.{inode_get, inode_set, inode_alloc, inode_bfree, id_word}

-- The loops over the `n` entries from `i` on; -1 as `none`.
unfoldable pub find_name_from : ℕ → ℕ → Buffer → Bytes → Option ℕ
find_name_from zero i items name = none
find_name_from (suc n) i items name =
    let rest = find_name_from n (i + 1) items name in
    if entry_type items i == 0
    then rest
    else if streq name (entry_name items i)
    then some i
    else rest

unfoldable pub find_free_from : ℕ → ℕ → Buffer → Option ℕ
find_free_from zero i items = none
find_free_from (suc n) i items =
    let rest = find_free_from n (i + 1) items in if entry_type items i == 0 then some i else rest

abbrev pub direntry_find_name : Buffer → Bytes → Option ℕ
direntry_find_name items name = find_name_from child_per_dir 0 items name

abbrev pub direntry_find_free : Buffer → Option ℕ
direntry_find_free items = find_free_from child_per_dir 0 items

-- A pointer that is used without a test: `NULL` halts.
abbrev pub deref : {A : Type 0} → Option A → Option A
deref p = p

abbrev pub item_of : ℕ → EntryType
item_of type =
    if type == dir_type then item_dir else if type == file_type then item_file else item_link

unfoldable pub list_from : ℕ → ℕ → Buffer → List Entry → Disk → Option (List Entry)
list_from zero i items head fs = some head
list_from (suc n) i items head fs =
    let skipped = list_from n (i + 1) items head fs in
    let listed = (do
      found ← inode_get (entry_inode items i) fs
      node ← deref found
      list_from n (i + 1) items
          (record { name = entry_name items i; type = item_of node.type } ∷ head) fs) in
    if entry_type items i == 0 then skipped else listed

unfoldable pub list_dir : BlkInode → Disk → Option (List Entry)
list_dir dir fs = do
  assert (dir.type == dir_type)
  items ← block_readdata block_data_size dir.block_id 0 fs
  list_from child_per_dir 0 items [] fs

-- The inode of an entry, or `NULL`.
unfoldable pub find_filedir : BlkInode → Bytes → Disk → Option (Option BlkInode)
find_filedir dir name fs = do
  assert (dir.type == dir_type)
  items ← block_readdata block_data_size dir.block_id 0 fs
  at_place (some none) (λ ind. inode_get (entry_inode items ind) fs) (direntry_find_name items name)

-- `INODE_NAME_LEN - 1`.
abbrev pub name_limit : ℕ
name_limit = 15

-- An `int`, where -1 is no id.
abbrev pub word_id : ℕ → Option ℕ
word_id w = if w == minus_one_word then none else some w

abbrev pub id_found : Buffer → Bytes → Option ℕ
id_found items name =
    at_place none (λ ind. word_id (entry_inode items ind)) (direntry_find_name items name)

unfoldable pub get_filedir : BlkInode → Bytes → Disk → Option (Option ℕ)
get_filedir dir name fs = do
  assert (dir.type == dir_type)
  assert (ltb (strlen name) name_limit)
  items ← block_readdata block_data_size dir.block_id 0 fs
  some (id_found items name)

-- The inode for a new entry: the linked one, or a new one.
unfoldable pub entry_target : ℕ → ℕ → Disk → Option (ℕ × Disk)
entry_target type link_id fs = do
  (new, fs') ← if type == link_type then some (some link_id, fs) else inode_alloc type fs
  some (id_word new, fs')

unfoldable pub add_reference : ℕ → Disk → Option Disk
add_reference id fs = do
  found ← inode_get id fs
  node ← deref found
  inode_set node.id (record node { refcnt = suc node.refcnt % 2 ^ 32 }) fs

abbrev pub write_entry : Buffer → ℕ → Bytes → ℕ → Buffer
write_entry items ind name id =
    put_word (put_word (write_string items (24 * ind + 4) name) (24 * ind) 1) (24 * ind + 20) id

unfoldable pub add_entry : BlkInode → ℕ → ℕ → Bytes → Buffer → ℕ → Disk → Option (Option ℕ × Disk)
add_entry dir type link_id name items ind fs = do
  (res, fs1) ← entry_target type link_id fs
  fs2 ← add_reference res fs1
  fs3 ← block_writedata (write_entry items ind name res) block_data_size dir.block_id 0 fs2
  some (some res, fs3)

unfoldable pub create_filedir : BlkInode → ℕ → ℕ → Bytes → Disk → Option (Option ℕ × Disk)
create_filedir dir type link_id name fs = do
  assert (dir.type == dir_type)
  assert (ltb (strlen name) name_limit)
  items ← block_readdata block_data_size dir.block_id 0 fs
  let make =
      at_place (some (none, fs)) (λ ind. add_entry dir type link_id name items ind fs)
        (direntry_find_free items)
  at_place make (λ ind. some (none, fs)) (direntry_find_name items name)

unfoldable pub drop_from : BlkInode → Disk → Option Disk
drop_from node fs =
    if node.refcnt == 1
    then inode_bfree node.id fs
    else inode_set node.id (record node { refcnt = (node.refcnt + 2 ^ 32 - 1) % 2 ^ 32 }) fs

unfoldable pub drop_reference : ℕ → Disk → Option Disk
drop_reference id fs = do found ← inode_get id fs; node ← deref found; drop_from node fs

unfoldable pub delete_entry : BlkInode → Buffer → ℕ → Disk → Option Disk
delete_entry dir items ind fs = do
  fs1 ← drop_reference (entry_inode items ind) fs
  block_writedata (put_word items (24 * ind) 0) block_data_size dir.block_id 0 fs1

unfoldable pub delete_filedir : BlkInode → Bytes → Disk → Option Disk
delete_filedir dir name fs = do
  assert (dir.type == dir_type)
  items ← block_readdata block_data_size dir.block_id 0 fs
  at_place (some fs) (λ ind. delete_entry dir items ind fs) (direntry_find_name items name)

unfoldable pub get_root_inode : Disk → Option (Option BlkInode)
get_root_inode fs = inode_get 0 fs

-- The end of a round of `get_path_inode`, with what is left of the path, or `NULL`. `rest` is the rounds
-- that follow.
abbrev pub go_on :
    (BlkInode → Bytes → Option (Option BlkInode))
    → Option Bytes
    → BlkInode
    → Option (Option BlkInode)
go_on rest none chi = some (some chi)
go_on rest (some cur) chi = rest chi cur

-- The child with the id, or without one.
abbrev pub at_child :
    (BlkInode → Option (Option BlkInode)) → Disk → Option ℕ → Option (Option BlkInode)
at_child rest fs none = some none
at_child rest fs (some id) = do found ← inode_get id fs; chi ← deref found; rest chi

abbrev pub with_name :
    (BlkInode → Bytes → Option (Option BlkInode))
    → BlkInode
    → Disk
    → Option Bytes × Option Bytes
    → Option (Option BlkInode)
with_name rest bnode fs (none, nxt) = some (some bnode)
with_name rest bnode fs (some name, nxt) = do
  chi_id ← get_filedir bnode name fs
  at_child (go_on rest nxt) fs chi_id

-- The loop of `get_path_inode`; `NULL` is the inner `none`. The outer one is an assertion that failed,
-- or the end of the fuel.
unfoldable pub walk : ℕ → BlkInode → Bytes → Disk → Option (Option BlkInode)
walk zero bnode cur fs = none
walk (suc fuel) bnode cur fs =
    with_name (λ chi rest. walk fuel chi rest fs) bnode fs (path_next_name cur)

unfoldable pub get_path_inode : Bytes → Disk → Option (Option BlkInode)
get_path_inode path fs = do
  root ← get_root_inode fs
  bnode ← deref root
  walk (suc (length path)) bnode path fs
