-- ===== src/Blkfs/Dirs/Resolve.antt =====
-- kernel/src/vfs/blkfs.c: `get_path_inode`, from name to name.
use nju_os_lab.Prelude.{
  ℕ, zero, suc, ◌<◌, ◌≡◌, refl, ◌⊎◌, inl, inr, Option, none, some, List, [], ◌∷◌, ◌++◌, length, All,
  append-nil, ◌>>=◌, arith,
}
use nju_os_lab.Klib.Strings.{Bytes}
use nju_os_lab.Path.{slash}
use nju_os_lab.Path.Parts.{IsName, path_next_name_lem, path_next_name_end}
use nju_os_lab.Blkfs.{Disk, BlkInode}
use nju_os_lab.Blkfs.Inodes.{inode_get}
use nju_os_lab.Blkfs.Dirs.{deref, get_filedir, get_root_inode, get_path_inode, walk, at_child}

-- The path of a list of names: a '/' in front of each, and a tail.
abbrev pub path_of : List Bytes → Bytes → Bytes
path_of [] tail = tail
path_of (n ∷ ns) tail = slash ∷ n ++ path_of ns tail

-- Down from an inode, one name after the other.
unfoldable pub resolve : List Bytes → BlkInode → Disk → Option (Option BlkInode)
resolve [] bnode fs = some (some bnode)
resolve (n ∷ ns) bnode fs = do
  chi_id ← get_filedir bnode n fs
  at_child (λ chi. resolve ns chi fs) fs chi_id

bind_same {ℓ κ} :
    {A : Type ℓ} {B : Type κ} (m : Option A) {f g : A → Option B}
    → ((a : A) → f a ≡ g a)
    → (m >>= f) ≡ (m >>= g)
bind_same none h = refl
bind_same (some a) h = h a

at_child_same :
    (f g : BlkInode → Option (Option BlkInode)) (fs : Disk) (c : Option ℕ)
    → ((chi : BlkInode) → f chi ≡ g chi)
    → at_child f fs c ≡ at_child g fs c
at_child_same f g fs none h = refl
at_child_same f g fs (some id) h = bind_same (inode_get id fs) (λ found. bind_same (deref found) h)

length-append_slash : (n t : Bytes) → length t < length (slash ∷ n ++ t)
length-append_slash [] t = omega arith
length-append_slash (c ∷ n) t = let ih = length-append_slash n t in omega arith

walk-resolve :
    (fs : Disk) (fuel : ℕ) (names : List Bytes) (tail : Bytes) (bnode : BlkInode)
    → All IsName names
    → tail ≡ [] ⊎ tail ≡ slash ∷ []
    → length (path_of names tail) < fuel
    → walk fuel bnode (path_of names tail) fs ≡ resolve names bnode fs
unfolding walk resolve
walk-resolve fs zero names tail bnode all ends h = absurd (omega arith)
walk-resolve fs (suc fuel) [] tail bnode all (inl e) h = rw (e, walk, path_next_name_end.0) refl
walk-resolve fs (suc fuel) [] tail bnode all (inr e) h = rw (e, walk, path_next_name_end.1) refl
walk-resolve fs (suc fuel) (n ∷ []) tail bnode all (inl e) h =
    rw (e, append-nil n, walk, (path_next_name_lem n [] all.0).0) refl
walk-resolve fs (suc fuel) (n ∷ []) tail bnode all (inr e) h =
    rw (e, walk, (path_next_name_lem n [] all.0).2)
      (bind_same (get_filedir bnode n fs) (λ c. at_child_same _ _ fs c (λ chi.
        let ih = walk-resolve fs fuel [] (slash ∷ []) chi tt (inr refl) (
          let same : length tail ≡ 1 = rw e refl in
          let more = length-append_slash n tail in omega arith) in
        ih)))
walk-resolve fs (suc fuel) (n ∷ m ∷ ns) tail bnode all ends h =
    rw (walk, (path_next_name_lem n (m ++ path_of ns tail) all.0).2)
      (bind_same (get_filedir bnode n fs) (λ c. at_child_same _ _ fs c (λ chi.
        walk-resolve fs fuel (m ∷ ns) tail chi all.1 ends
          (let more = length-append_slash n (path_of (m ∷ ns) tail) in omega arith))))

-- A path of names, each behind a '/', with or without one more '/' at the end, is looked up name by name from the root: the loop of
-- `get_path_inode` ends within the rounds it is given, and with the inode, with `NULL` or with a failed assertion exactly where the walk over the list of names does.
pub get_path_inode-resolve :
    (fs : Disk) (names : List Bytes) (tail : Bytes)
    → All IsName names
    → tail ≡ [] ⊎ tail ≡ slash ∷ []
    → get_path_inode (path_of names tail) fs
      ≡ (get_root_inode fs >>= λ root. deref root >>= λ bnode. resolve names bnode fs)
unfolding get_path_inode
get_path_inode-resolve fs names tail all ends = bind_same (get_root_inode fs) (λ root.
    bind_same (deref root) (λ bnode.
      walk-resolve fs (suc (length (path_of names tail))) names tail bnode all ends (omega arith)))
