-- ===== src/Blkfs/Dirs/Lookup.antt =====
-- kernel/src/vfs/blkfs.c: `get_filedir` on a formatted disk, and how it depends on the entries.
use nju_os_lab.Prelude.{
  ℕ, ◌≤◌, ◌<◌, ◌≡◌, ◌≢◌, refl, inl, inr, true, false, none, some, [], ◌∷◌, ◌==◌, ltb, length, arith,
  ap, sym, ◌∙◌, Bool-cases, ==→≡, Option-cases,
}
use nju_os_lab.Klib.Strings.{Bytes, strlen, streq}
use nju_os_lab.Klib.Strings.Search.{Lacks}
use nju_os_lab.Klib.Strings.Compare.{IsString, streq_iff}
use nju_os_lab.Blkfs.{Buffer, Disk, BlkInode, entry_type, entry_name, entry_inode, minus_one_word}
use nju_os_lab.Blkfs.Blocks.Views.{data_of, IsFormatted, block_readdata-eq}
use nju_os_lab.Blkfs.Dirs.{get_filedir, id_found, word_id, direntry_find_name, write_entry}
use nju_os_lab.Blkfs.Dirs.Entries.{
  SameEntry, same_bytes-SameEntry, write_entry_ne, entry_type-write_entry, entry_inode-write_entry,
  entry_name-write_entry,
}
use nju_os_lab.Blkfs.Dirs.Search.{
  Matches, find_name-Matches, find_name_agree, SameEntry-Matches, find_name_at,
}

-- A directory on the disk, behind the table of inodes.
pub record IsDir (fs : Disk) (dir : BlkInode) : Type 0 where
  pub type : dir.type ≡ 2
  pub low : fs.inode_block_num ≤ dir.block_id
  pub high : dir.block_id < fs.total_block_num

-- A name that fits in an entry.
pub record IsShort (name : Bytes) : Type 0 where
  pub string : IsString name
  pub short : length name < 15

pub short_enough : (name : Bytes) → IsShort name → ltb (strlen name) 15 ≡ true
unfolding strlen
short_enough name s = let h : length name < 15 = s.short in ground arith

pub get_filedir-eq :
    (fs : Disk) (dir : BlkInode) (name : Bytes)
    → IsFormatted fs
    → IsDir fs dir
    → IsShort name
    → get_filedir dir name fs ≡ some (id_found (data_of fs dir.block_id) name)
unfolding get_filedir
get_filedir-eq fs dir name f d s =
    rw (get_filedir, d.type, short_enough name s, block_readdata-eq fs dir.block_id f d.high) refl

-- The same entries match, and they have the same inodes.
pub id_found_agree :
    (m m' : Buffer) (name : Bytes)
    → ((j : ℕ)
        → j < 42
        → (Matches m' name j → Matches m name j) × (Matches m name j → Matches m' name j))
    → ((j : ℕ) → j < 42 → Matches m name j → entry_inode m' j ≡ entry_inode m j)
    → id_found m' name ≡ id_found m name
id_found_agree m m' name agree same =
    let e : direntry_find_name m' name ≡ direntry_find_name m name =
      find_name_agree 42 0 m m' name (λ j lo hi. agree j (omega arith)) in
    elim (Option-cases (direntry_find_name m name)) [
      | inl q ↦ rw (e, q) refl
      | inr (k, q) ↦
          let (lo, hi, it) = find_name-Matches 42 0 m name k q in
          rw (e, q) (ap word_id (same k (omega arith) it))
    ]

-- Buffers with the same data.
pub id_found_same :
    (m m' : Buffer) (name : Bytes)
    → ((k : ℕ) → k < 1024 → m' k ≡ m k)
    → id_found m' name ≡ id_found m name
id_found_same m m' name h =
    id_found_agree m m' name (λ j hj. SameEntry-Matches m m' name j (at j hj))
      (λ j hj it. (at j hj).inode)
  where
    at : (j : ℕ) → j < 42 → SameEntry m m' j
    at j hj = same_bytes-SameEntry m m' j (λ k lo hi. h k (omega arith))

-- A new entry in a free place.
module _ (items : Buffer) (ind : ℕ) (name : Bytes) (id : ℕ) (s : IsShort name)
    (small : id < minus_one_word) (place : ind < 42) (free : entry_type items ind ≡ 0) where
  abbrev written : Buffer
  written = write_entry items ind name id

  no_zero : (t : Bytes) → IsString t → Lacks 0 t
  no_zero [] h = tt
  no_zero (c ∷ t) h = (ground arith, no_zero t h.1)

  name_written : entry_name written ind ≡ name
  name_written = entry_name-write_entry items ind name id s.short (no_zero name s.string)

  used : (entry_type written ind == 0) ≡ false
  used = rw (entry_type-write_entry items ind name id s.short) refl

  pub id_found-write_entry : direntry_find_name items name ≡ none → id_found written name ≡ some id
  id_found-write_entry e =
      let it : Matches written name ind =
        (used, rw name_written ((streq_iff name name s.string s.string).1 refl)) in
      rw
        (find_name_at 42 0 ind items written name (write_entry_ne items ind name id s.short)
          (omega arith) (omega arith) it e)
        (rw (entry_inode-write_entry items ind name id s.short (omega arith)) (ground arith))

  pub id_found-write_entry_ne :
      (other : Bytes)
      → IsString other
      → other ≢ name
      → id_found written other ≡ id_found items other
  id_found-write_entry_ne other str ne =
      id_found_agree items written other agree
        (λ j hj (u, m). (write_entry_ne items ind name id s.short j (differ j u)).inode)
    where
      differ : (j : ℕ) → (entry_type items j == 0) ≡ false → ind ≢ j
      differ j u at = let z : entry_type items j ≡ 0 = rw (sym at) free in ground arith

      agree :
          (j : ℕ)
          → j < 42
          → (Matches written other j → Matches items other j)
            × (Matches items other j → Matches written other j)
      agree j hj = elim (Bool-cases (ind == j)) [
        | inl q ↦
            let at : ind ≡ j = ==→≡ ind j q in
            (
              λ (u, m). absurd (
                  ne (
                    (streq_iff other name str s.string).0 (
                      ap (streq other) (sym name_written)
                      ∙ ap (λ x. streq other (entry_name written x)) at
                      ∙ m))),
              λ (u, m). absurd (differ j u at),
            )
        | inr q ↦
            SameEntry-Matches items written other j
              (write_entry_ne items ind name id s.short j (ground arith))
      ]
