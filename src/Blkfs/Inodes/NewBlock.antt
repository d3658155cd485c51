-- ===== src/Blkfs/Inodes/NewBlock.antt =====
-- kernel/src/vfs/blkfs.c: what `inode_alloc` is made of: the search in a block of the table, and the new block.
use nju_os_lab.Prelude.{
  ℕ, zero, suc, ◌+◌, ◌*◌, ◌≤◌, ◌<◌, ◌≡◌, ◌≢◌, refl, inl, inr, true, false, Option, none, some, ◌==◌,
  if◌then◌else◌, arith, ap, sym, ◌∙◌, Bool-cases, ==→≡, ==-refl,
}
use nju_os_lab.Blkfs.{Buffer, Disk, dir_type, child_per_dir, get_word}
use nju_os_lab.Blkfs.Blocks.{block_alloc}
use nju_os_lab.Blkfs.Blocks.Views.{
  data_of, type_of, set_data, set_type, IsFormatted, block_readdata-eq, block_writedata-eq,
  data_of-set_data_ne, data_of-set_type, type_of-set_type, type_of-set_data,
}
use nju_os_lab.Blkfs.Blocks.Alloc.{Allocated, set_data-IsFormatted, set_type-IsFormatted}
use nju_os_lab.Blkfs.Inodes.{clear_entries, dir_block_init, find_empty, new_block}

-- What `find_empty` returns.
abbrev pub IsEmptyPlace : ℕ → ℕ → Buffer → Option ℕ → Type 0
IsEmptyPlace n i items none = (k : ℕ) → i ≤ k → k < i + n → get_word items (20 * k) ≢ 0
IsEmptyPlace n i items (some k) = (i ≤ k) × (k < i + n) × (get_word items (20 * k) ≡ 0)

place_later :
    (n i : ℕ) (items : Buffer) (r : Option ℕ)
    → (get_word items (20 * i) == 0) ≡ false
    → IsEmptyPlace n (i + 1) items r
    → IsEmptyPlace (suc n) i items r
place_later n i items none q h = λ k lo hi. elim (Bool-cases (k == i)) [
  | inl e ↦ λ z. let z' : get_word items (20 * i) ≡ 0 = rw (sym (==→≡ k i e)) z in ground arith
  | inr e ↦ h k (ground arith) (omega arith)
]
place_later n i items (some k) q (lo, hi, z) = (omega arith, omega arith, z)

pub find_empty-IsEmptyPlace :
    (n i : ℕ) (items : Buffer) → IsEmptyPlace n i items (find_empty n i items)
unfolding find_empty
find_empty-IsEmptyPlace zero i items = λ k lo hi. absurd (omega arith)
find_empty-IsEmptyPlace (suc n) i items = elim (Bool-cases (get_word items (20 * i) == 0)) [
  | inl q ↦ rw q (omega arith, omega arith, ==→≡ (get_word items (20 * i)) 0 q)
  | inr q ↦ rw q (
      place_later n i items (find_empty n (i + 1) items) q
        (find_empty-IsEmptyPlace n (i + 1) items))
]

abbrev cleared : Disk → ℕ → Buffer
cleared fs b = clear_entries child_per_dir 0 (data_of fs b)

prepared : ℕ → ℕ → Disk → Disk
prepared type b fs = if type == dir_type then set_data b (cleared fs b) 1024 0 fs else fs

-- The disk with the new block marked, and empty if it is for a directory.
pub with_block : ℕ → Option ℕ → Disk → Disk
with_block type none fs = fs
with_block type (some b) fs = prepared type b (set_type b 1 fs)

dir_block_init-eq :
    (fs : Disk) (b : ℕ)
    → IsFormatted fs
    → b < fs.total_block_num
    → dir_block_init b fs ≡ some (set_data b (cleared fs b) 1024 0 fs)
unfolding dir_block_init
dir_block_init-eq fs b f h =
    rw (dir_block_init, block_readdata-eq fs b f h)
      (block_writedata-eq fs b f h (cleared fs b) 1024 0 (omega arith))

-- The block that `block_alloc` finds, without what it does to the disk.
pub record IsNew (fs : Disk) (r : Option ℕ) : Type 0 where
  pub low : (b : ℕ) → r ≡ some b → fs.inode_block_num ≤ b
  pub high : (b : ℕ) → r ≡ some b → b < fs.total_block_num
  pub free : (b : ℕ) → r ≡ some b → type_of fs b ≡ 0

pub new_block_run :
    (fs : Disk) (type : ℕ) (r : Option ℕ) (fs1 : Disk)
    → IsFormatted fs
    → block_alloc fs ≡ some (r, fs1)
    → Allocated fs fs.inode_block_num r fs1
    → new_block type fs ≡ some (r, with_block type r fs)
unfolding new_block with_block prepared set_type
new_block_run fs type none fs1 f e (same, full) = rw (new_block, e, same) refl
new_block_run fs type (some b) fs1 f e (same, lo, hi, free, first) =
    elim (Bool-cases (type == dir_type)) [
      | inl q ↦
          rw
            (
              new_block,
              e,
              same,
              q,
              dir_block_init-eq (set_type b 1 fs) b (set_type-IsFormatted fs b 1 hi f) hi,
            )
            refl
      | inr q ↦ rw (new_block, e, same, q) refl
    ]

pub Allocated-IsNew :
    (fs : Disk) (r : Option ℕ) (fs1 : Disk) → Allocated fs fs.inode_block_num r fs1 → IsNew fs r
Allocated-IsNew fs none fs1 done = record { low = λ b e. cc; high = λ b e. cc; free = λ b e. cc }
Allocated-IsNew fs (some c) fs1 (same, lo, hi, free, first) = record {
  low = λ b e. let at : c ≡ b = cc in rw (sym at) lo;
  high = λ b e. let at : c ≡ b = cc in rw (sym at) hi;
  free = λ b e. let at : c ≡ b = cc in rw (sym at) free;
}

module _ (type b : ℕ) (fs : Disk) where
  prepared-IsFormatted : IsFormatted fs → IsFormatted (prepared type b fs)
  unfolding prepared
  prepared-IsFormatted f = elim (Bool-cases (type == dir_type)) [
    | inl q ↦ rw q (set_data-IsFormatted fs b (cleared fs b) 1024 0 (omega arith) f)
    | inr q ↦ rw q f
  ]

  total-prepared : (prepared type b fs).total_block_num ≡ fs.total_block_num
  unfolding prepared set_data
  total-prepared = elim (Bool-cases (type == dir_type)) [ inl q ↦ rw q refl | inr q ↦ rw q refl ]

  table-prepared : (prepared type b fs).inode_block_num ≡ fs.inode_block_num
  unfolding prepared set_data
  table-prepared = elim (Bool-cases (type == dir_type)) [ inl q ↦ rw q refl | inr q ↦ rw q refl ]

  data_of-prepared :
      (c k : ℕ) → k < 1024 → (b == c) ≡ false → data_of (prepared type b fs) c k ≡ data_of fs c k
  unfolding prepared
  data_of-prepared c k h ne = elim (Bool-cases (type == dir_type)) [
    | inl q ↦ rw q (data_of-set_data_ne fs b c (cleared fs b) 1024 0 (omega arith) k h ne)
    | inr q ↦ rw q refl
  ]

  type_of-prepared : (c : ℕ) → type_of (prepared type b fs) c ≡ type_of fs c
  unfolding prepared
  type_of-prepared c = elim (Bool-cases (type == dir_type)) [
    | inl q ↦ rw q (type_of-set_data fs b c (cleared fs b) 1024 0 (omega arith))
    | inr q ↦ rw q refl
  ]

-- `with_block` changes the new block only.
pub record Keeps (fs : Disk) (r : Option ℕ) (fs' : Disk) : Type 0 where
  pub formatted : IsFormatted fs'
  pub total : fs'.total_block_num ≡ fs.total_block_num
  pub table : fs'.inode_block_num ≡ fs.inode_block_num
  pub contents : (c k : ℕ) → k < 1024 → r ≢ some c → data_of fs' c k ≡ data_of fs c k
  pub types : (c : ℕ) → r ≢ some c → type_of fs' c ≡ type_of fs c
  pub used : (b : ℕ) → r ≡ some b → type_of fs' b ≡ 1

pub with_block-Keeps :
    (fs : Disk) (type : ℕ) (r : Option ℕ)
    → IsFormatted fs
    → IsNew fs r
    → Keeps fs r (with_block type r fs)
unfolding with_block set_type
with_block-Keeps fs type none f new = record {
  formatted = f;
  total = refl;
  table = refl;
  contents = λ c k h ne. refl;
  types = λ c ne. refl;
  used = λ b e. cc;
}
with_block-Keeps fs type (some b) f new = record {
  formatted =
      prepared-IsFormatted type b (set_type b 1 fs)
        (set_type-IsFormatted fs b 1 (new.high b refl) f);
  total = total-prepared type b (set_type b 1 fs);
  table = table-prepared type b (set_type b 1 fs);
  contents = λ c k h ne.
      data_of-prepared type b (set_type b 1 fs) c k h (differ c ne) ∙ data_of-set_type fs b c 1 k h;
  types = λ c ne.
      type_of-prepared type b (set_type b 1 fs) c
      ∙ type_of-set_type fs b c 1 (omega arith)
      ∙ rw (differ c ne) refl;
  used = λ c e.
      type_of-prepared type b (set_type b 1 fs) c
      ∙ type_of-set_type fs b c 1 (omega arith)
      ∙ rw (same c e) refl;
}
  where
    differ : (c : ℕ) → some b ≢ some c → (b == c) ≡ false
    differ c ne = elim (Bool-cases (b == c)) [
      | inl e ↦ absurd (ne (ap some (==→≡ b c e)))
      | inr e ↦ e
    ]

    same : (c : ℕ) → some b ≡ some c → (b == c) ≡ true
    same c e = let at : b ≡ c = cc in rw at (==-refl c)
