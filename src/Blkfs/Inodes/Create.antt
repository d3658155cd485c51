-- ===== src/Blkfs/Inodes/Create.antt =====
-- kernel/src/vfs/blkfs.c: `inode_alloc`.
use nju_os_lab.Prelude.{
  ℕ, zero, suc, ◌+◌, ◌*◌, ◌/◌, ◌%◌, ◌^◌, ◌≤◌, ◌<◌, ◌≡◌, ◌≢◌, refl, inl, inr, Option, none, some,
  ◌==◌, arith, ap, sym, ◌∙◌, Bool-cases, ==→≡,
}
use nju_os_lab.Blkfs.{Buffer, Disk, BlkInode, get_word, read_inode, write_inode}
use nju_os_lab.Blkfs.Words.{Fits, read_inode-write_inode, read_inode-write_inode_ne}
use nju_os_lab.Blkfs.Blocks.Views.{
  data_of, type_of, set_data, IsFormatted, block_readdata-eq, block_writedata-eq,
  data_of-set_data_ne, type_of-set_data,
}
use nju_os_lab.Blkfs.Blocks.Alloc.{block_alloc-Allocated, set_data-IsFormatted}
use nju_os_lab.Blkfs.Inodes.{make_inode, find_empty, inode_alloc_from, inode_alloc, id_word}
use nju_os_lab.Blkfs.Inodes.Table.{inode_at, inode_at-set_data, inode_at_same}
use nju_os_lab.Blkfs.Inodes.NewBlock.{
  IsNew, IsEmptyPlace, find_empty-IsEmptyPlace, with_block, new_block_run, Allocated-IsNew, Keeps,
  with_block-Keeps,
}

abbrev pub new_inode : ℕ → ℕ → Option ℕ → BlkInode
new_inode type id block = record {
  type = type;
  id = id;
  block_id = id_word block;
  refcnt = 0;
  size = 0;
}

-- The disk `fs'` after `inode_alloc` has made the inode `id` on `fs`: which block is new, and what has stayed.
pub record Made (fs : Disk) (type id : ℕ) (fs' : Disk) : Type 0 where
  pub block : Option ℕ
  pub new : IsNew fs block
  pub place : id / 51 < fs.inode_block_num
  pub was_empty : (inode_at fs id).type ≡ 0
  pub made : inode_at fs' id ≡ new_inode type id block
  pub others : (j : ℕ) → j / 51 < fs.inode_block_num → id ≢ j → inode_at fs' j ≡ inode_at fs j
  pub formatted : IsFormatted fs'
  pub total : fs'.total_block_num ≡ fs.total_block_num
  pub table : fs'.inode_block_num ≡ fs.inode_block_num
  pub contents :
      (c k : ℕ)
      → k < 1024
      → fs.inode_block_num ≤ c
      → block ≢ some c
      → data_of fs' c k ≡ data_of fs c k
  pub types : (c : ℕ) → block ≢ some c → type_of fs' c ≡ type_of fs c
  pub used : (b : ℕ) → block ≡ some b → type_of fs' b ≡ 1

pub new_inode-Fits :
    (fs : Disk) (type id : ℕ) (r : Option ℕ)
    → IsFormatted fs
    → IsNew fs r
    → type < 2 ^ 32
    → id / 51 < fs.inode_block_num
    → Fits (new_inode type id r)
new_inode-Fits fs type id r f new small place = record {
  type = small;
  id = omega (arith, f.small, f.table);
  block_id = word r new;
  refcnt = omega arith;
  size = omega arith;
}
  where
    word : (r : Option ℕ) → IsNew fs r → id_word r < 2 ^ 32
    word none new = omega arith
    word (some b) new = omega (arith, f.small, new.high b refl)

module _ (fs : Disk) (type bk i : ℕ) (r : Option ℕ) (f : IsFormatted fs) (new : IsNew fs r)
    (small : type < 2 ^ 32) (row : bk < fs.inode_block_num) (column : i < 51)
    (empty : get_word (data_of fs bk) (20 * i) ≡ 0) where
  abbrev id : ℕ
  id = bk * 51 + i

  -- The disk after the block of the table has been written.
  final : Disk
  final =
      set_data bk (write_inode (data_of fs bk) i (new_inode type id r)) 1024 0
        (with_block type r fs)

  abbrev buf : Buffer
  buf = write_inode (data_of fs bk) i (new_inode type id r)

  kept : Keeps fs r (with_block type r fs)
  kept = with_block-Keeps fs type r f new

  inode_at-final : inode_at final id ≡ new_inode type id r
  unfolding final
  inode_at-final =
      let at : bk ≡ id / 51 = omega arith in
      let in_row : id % 51 ≡ i = omega arith in
      inode_at-set_data (with_block type r fs) buf bk id at
      ∙ rw in_row (
          read_inode-write_inode (data_of fs bk) i (new_inode type id r)
            (new_inode-Fits fs type id r f new small (rw (sym at) row)))

  inode_at-final_ne :
      (j : ℕ) → j / 51 < fs.inode_block_num → id ≢ j → inode_at final j ≡ inode_at fs j
  unfolding final inode_at
  inode_at-final_ne j hj ne = elim (Bool-cases (bk == j / 51)) [
    | inl e ↦
        let at : bk ≡ j / 51 = ==→≡ bk (j / 51) e in
        inode_at-set_data (with_block type r fs) buf bk j at
        ∙ read_inode-write_inode_ne (data_of fs bk) i (j % 51) (new_inode type id r)
            (λ m. ne (omega arith))
        ∙ ap (λ c. read_inode (data_of fs c) (j % 51)) at
    | inr e ↦ inode_at_same fs final j (λ k h.
        data_of-set_data_ne (with_block type r fs) bk (j / 51) buf 1024 0 (omega arith) k h e
        ∙ kept.contents (j / 51) k h (λ q. let low = new.low (j / 51) q in omega arith))
  ]

  final-Made : Made fs type id final
  unfolding final inode_at read_inode set_data
  final-Made =
      let at : id / 51 ≡ bk = omega arith in
      let in_row : id % 51 ≡ i = omega arith in
      record {
        block = r;
        new = new;
        place = rw at row;
        was_empty = rw (at, in_row) empty;
        made = inode_at-final;
        others = inode_at-final_ne;
        formatted =
            set_data-IsFormatted (with_block type r fs) bk buf 1024 0 (omega arith) kept.formatted;
        total = kept.total;
        table = kept.table;
        contents = λ c k h lo ne.
            data_of-set_data_ne (with_block type r fs) bk c buf 1024 0 (omega arith) k h
              (ground arith)
            ∙ kept.contents c k h ne;
        types = λ c ne.
            type_of-set_data (with_block type r fs) bk c buf 1024 0 (omega arith) ∙ kept.types c ne;
        used = λ b e.
            type_of-set_data (with_block type r fs) bk b buf 1024 0 (omega arith) ∙ kept.used b e;
      }

-- What the loop of `inode_alloc` returns that starts at block `bk` of the table.
abbrev pub Outcome : Disk → ℕ → ℕ → Option ℕ → Disk → Type 0
Outcome fs type bk none fs' =
    (fs' ≡ fs)
    × ((id : ℕ) → bk ≤ id / 51 → id / 51 < fs.inode_block_num → (inode_at fs id).type ≢ 0)
Outcome fs type bk (some id) fs' = Made fs type id fs'

module _ (fs : Disk) (type : ℕ) (f : IsFormatted fs) (small : type < 2 ^ 32) where
  outcome_later :
      (bk : ℕ) (r : Option ℕ) (fs' : Disk)
      → ((k : ℕ) → k < 51 → get_word (data_of fs bk) (20 * k) ≢ 0)
      → Outcome fs type (bk + 1) r fs'
      → Outcome fs type bk r fs'
  unfolding inode_at read_inode
  outcome_later bk (some id) fs' full done = done
  outcome_later bk none fs' full (same, none_behind) = (
    same,
    λ id lo hi. elim (Bool-cases (bk == id / 51)) [
      | inl e ↦
          let at : bk ≡ id / 51 = ==→≡ bk (id / 51) e in rw (sym at) (full (id % 51) (omega arith))
      | inr e ↦ none_behind id (ground arith) hi
    ],
  )

  inode_alloc_from-Outcome :
      (n bk : ℕ)
      → bk + n ≡ fs.inode_block_num
      → (r : Option ℕ) × (fs' : Disk) × (inode_alloc_from n bk type fs ≡ some (r, fs'))
        × Outcome fs type bk r fs'
  unfolding inode_alloc_from make_inode final
  inode_alloc_from-Outcome zero bk e = (none, fs, refl, (refl, λ id lo hi. absurd (omega arith)))
  inode_alloc_from-Outcome (suc n) bk e =
      row (inode_alloc_from-Outcome n (bk + 1) (omega arith)) (find_empty 51 0 (data_of fs bk)) refl
        (find_empty-IsEmptyPlace 51 0 (data_of fs bk))
    where
      row :
          ((r : Option ℕ) × (fs' : Disk) × (inode_alloc_from n (bk + 1) type fs ≡ some (r, fs'))
            × Outcome fs type (bk + 1) r fs')
          → (p : Option ℕ) → find_empty 51 0 (data_of fs bk) ≡ p
          → IsEmptyPlace 51 0 (data_of fs bk) p
          → (r : Option ℕ) × (fs' : Disk) × (inode_alloc_from (suc n) bk type fs ≡ some (r, fs'))
            × Outcome fs type bk r fs'
      row behind none eq full =
          let (r, fs', e', done) = behind in
          (
            r,
            fs',
            rw (inode_alloc_from, block_readdata-eq fs bk f (omega (arith, f.table))) (rw eq e'),
            outcome_later bk r fs' (λ k h. full k (omega arith) (omega arith)) done,
          )
      row behind (some i) eq (lo, hi, empty) =
          let (r, fs1, e1, done) = block_alloc-Allocated fs f in
          let new = Allocated-IsNew fs r fs1 done in
          let kept = with_block-Keeps fs type r f new in
          (
            some (bk * 51 + i),
            final fs type bk i r f new small (omega arith) hi empty,
            rw (inode_alloc_from, block_readdata-eq fs bk f (omega (arith, f.table)))
                (rw (eq, make_inode, new_block_run fs type r fs1 f e1 done)
                  (rw
                    (block_writedata-eq (with_block type r fs) bk kept.formatted
                      (rw kept.total (omega (arith, f.table)))
                      (write_inode (data_of fs bk) i (new_inode type (bk * 51 + i) r)) 1024 0
                      (omega arith))
                    refl)),
            final-Made fs type bk i r f new small (omega arith) hi empty,
          )

-- On a formatted disk `inode_alloc` does not halt. It returns -1 and changes nothing if no inode of the table is empty. Otherwise it returns
-- one that was empty, now of the type asked for and with no references; every other inode is as it was. Its block
-- was free and is used now, and the types of the other blocks and the data of those behind the table are as they were. The block is -1 if
-- no block was free.
pub inode_alloc-Outcome :
    (fs : Disk) (type : ℕ)
    → IsFormatted fs
    → type < 2 ^ 32
    → (r : Option ℕ) × (fs' : Disk) × (inode_alloc type fs ≡ some (r, fs'))
      × Outcome fs type 0 r fs'
unfolding inode_alloc
inode_alloc-Outcome fs type f small =
    inode_alloc_from-Outcome fs type f small fs.inode_block_num 0 (omega arith)
