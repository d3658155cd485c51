-- ===== src/Blkfs/Blocks/Alloc.antt =====
-- kernel/src/vfs/blkfs.c: `block_alloc` and `block_free`.
use nju_os_lab.Prelude.{
  ℕ, zero, suc, ◌+◌, ◌-◌, ◌≤◌, ◌<◌, ◌≡◌, ◌≢◌, refl, inl, inr, false, Option, none, some, ◌==◌,
  arith, sym, ◌∙◌, Bool-cases, ==→≡, ==-refl, same_run,
}
use nju_os_lab.Blkfs.{Buffer, Disk}
use nju_os_lab.Blkfs.Blocks.{block_alloc_from, block_alloc, block_free}
use nju_os_lab.Blkfs.Blocks.Views.{
  type_of, data_of, set_type, set_data, IsFormatted, block_getinfo-eq, block_setinfo-eq,
  magic_of-set_type, type_of-set_type, data_of-set_type, magic_of-set_data,
}

-- The numbers of blocks do not change.
pub set_type-IsFormatted :
    (fs : Disk) (b t : ℕ) → b < fs.total_block_num → IsFormatted fs → IsFormatted (set_type b t fs)
unfolding set_type
set_type-IsFormatted fs b t hb f = record {
  magics = λ c h. magic_of-set_type fs b c t (f.magics b hb) ∙ f.magics c h;
  small = f.small;
  table = f.table;
}

pub set_data-IsFormatted :
    (fs : Disk) (b : ℕ) (buf : Buffer) (count offset : ℕ)
    → offset + count ≤ 1024
    → IsFormatted fs
    → IsFormatted (set_data b buf count offset fs)
unfolding set_data
set_data-IsFormatted fs b buf count offset fits f = record {
  magics = λ c h. magic_of-set_data fs b c buf count offset fits ∙ f.magics c h;
  small = f.small;
  table = f.table;
}

-- What the loop of `block_alloc` returns that starts at block `i`.
abbrev pub Allocated : Disk → ℕ → Option ℕ → Disk → Type 0
Allocated fs i none fs' = (fs' ≡ fs) × ((c : ℕ) → i ≤ c → c < fs.total_block_num → type_of fs c ≢ 0)
Allocated fs i (some b) fs' =
    (fs' ≡ set_type b 1 fs)
    × (i ≤ b)
    × (b < fs.total_block_num)
    × (type_of fs b ≡ 0)
    × ((c : ℕ) → i ≤ c → c < b → type_of fs c ≢ 0)

-- A block that is in use, and those behind it.
from_next :
    (fs : Disk) (i : ℕ)
    → (type_of fs i == 0) ≡ false
    → (P : ℕ → Type 0) → ((c : ℕ) → i + 1 ≤ c → P c → type_of fs c ≢ 0)
    → (c : ℕ) → i ≤ c
    → P c
    → type_of fs c ≢ 0
from_next fs i q P behind c lo p = elim (Bool-cases (c == i)) [
  | inl e ↦
      λ z. let at : c ≡ i = ==→≡ c i e in let z' : type_of fs i ≡ 0 = rw (sym at) z in ground arith
  | inr e ↦ behind c (ground arith) p
]

earlier :
    (fs : Disk) (i : ℕ) (r : Option ℕ) (fs' : Disk)
    → (type_of fs i == 0) ≡ false
    → Allocated fs (i + 1) r fs'
    → Allocated fs i r fs'
earlier fs i none fs' q (same, full) = (same, from_next fs i q (λ c. c < fs.total_block_num) full)
earlier fs i (some b) fs' q (same, lo, hi, free, first) =
    (same, omega arith, hi, free, from_next fs i q (λ c. c < b) first)

block_alloc_from-Allocated :
    (n i : ℕ) (fs : Disk)
    → IsFormatted fs
    → i + n ≡ fs.total_block_num
    → (r : Option ℕ) × (fs' : Disk) × (block_alloc_from n i fs ≡ some (r, fs'))
      × Allocated fs i r fs'
unfolding block_alloc_from
block_alloc_from-Allocated zero i fs f e = (none, fs, refl, (refl, λ c lo hi. absurd (omega arith)))
block_alloc_from-Allocated (suc n) i fs f e =
    let got = block_getinfo-eq fs i f (omega arith) in
    elim (Bool-cases (type_of fs i == 0)) [
      | inl q ↦ (
        some i,
        set_type i 1 fs,
        rw (block_alloc_from, got, q, block_setinfo-eq fs i f (omega arith) 1) refl,
        (refl, omega arith, omega arith, ==→≡ (type_of fs i) 0 q, λ c lo hi. absurd (omega arith)),
      )
      | inr q ↦
          let (r, fs', e', done) = block_alloc_from-Allocated n (i + 1) fs f (omega arith) in
          (r, fs', rw (block_alloc_from, got, q) e', earlier fs i r fs' q done)
    ]

-- On a formatted disk `block_alloc` does not halt. It returns the first free block behind the table of
-- inodes and marks it as used, and nothing else; or it returns -1 and changes nothing, and then every such block is used.
pub block_alloc-Allocated :
    (fs : Disk)
    → IsFormatted fs
    → (r : Option ℕ) × (fs' : Disk) × (block_alloc fs ≡ some (r, fs'))
      × Allocated fs fs.inode_block_num r fs'
unfolding block_alloc
block_alloc-Allocated fs f =
    block_alloc_from-Allocated (fs.total_block_num - fs.inode_block_num) fs.inode_block_num fs f
      (omega (arith, f.table))

-- `block_free` of a used block marks it as free, and nothing else; of a free block it halts.
pub block_free-eq :
    (fs : Disk) (b : ℕ)
    → IsFormatted fs
    → b < fs.total_block_num
    → (type_of fs b ≡ 1 → block_free b fs ≡ some (set_type b 0 fs))
      × (type_of fs b ≡ 0 → block_free b fs ≡ none)
unfolding block_free
block_free-eq fs b f h =
    let got = block_getinfo-eq fs b f h in
    (
      λ used. rw (block_free, got, used, block_setinfo-eq fs b f h 0) refl,
      λ unused. rw (block_free, got, unused) refl,
    )

type_of-set_back :
    (fs : Disk) (b c : ℕ)
    → type_of fs b ≡ 0
    → type_of (set_type b 0 (set_type b 1 fs)) c ≡ type_of fs c
type_of-set_back fs b c was = elim (Bool-cases (b == c)) [
  | inl q ↦
      let at : b ≡ c = ==→≡ b c q in
      type_of-set_type (set_type b 1 fs) b c 0 (omega arith) ∙ rw q (sym (rw (sym at) was))
  | inr q ↦
      type_of-set_type (set_type b 1 fs) b c 0 (omega arith)
      ∙ rw q (type_of-set_type fs b c 1 (omega arith) ∙ rw q refl)
]

-- Freeing the block that `block_alloc` has just returned gives every block its type, its magic number and its data back;
-- freeing it once more halts.
pub block_free-block_alloc :
    (fs fs' : Disk) (b : ℕ)
    → IsFormatted fs
    → block_alloc fs ≡ some (some b, fs')
    → (fs'' : Disk) × (block_free b fs' ≡ some fs'')
      × ((c : ℕ)
          → (type_of fs'' c ≡ type_of fs c)
            × ((k : ℕ) → k < 1024 → data_of fs'' c k ≡ data_of fs c k))
      × (block_free b fs'' ≡ none)
unfolding set_type
block_free-block_alloc fs fs' b f e =
    let (r, fs1, e1, done) = block_alloc-Allocated fs f in
    let (er, es) = same_run e1 e in freed r fs1 er es done
  where
    freed :
        (r : Option ℕ) (fs1 : Disk)
        → r ≡ some b
        → fs1 ≡ fs'
        → Allocated fs fs.inode_block_num r fs1
        → (fs'' : Disk) × (block_free b fs' ≡ some fs'')
          × ((c : ℕ)
              → (type_of fs'' c ≡ type_of fs c)
                × ((k : ℕ) → k < 1024 → data_of fs'' c k ≡ data_of fs c k))
          × (block_free b fs'' ≡ none)
    freed none fs1 er es done = cc
    freed (some b1) fs1 er es (same, lo, hi, free, first) =
        let at : b1 ≡ b = cc in
        let hb : b < fs.total_block_num = rw (sym at) hi in
        let was : type_of fs b ≡ 0 = rw (sym at) free in
        let now : fs' ≡ set_type b 1 fs = rw (sym at) (sym es ∙ same) in
        let f1 : IsFormatted (set_type b 1 fs) = set_type-IsFormatted fs b 1 hb f in
        let f2 : IsFormatted (set_type b 0 (set_type b 1 fs)) =
          set_type-IsFormatted (set_type b 1 fs) b 0 hb f1 in
        let used : type_of (set_type b 1 fs) b ≡ 1 =
          type_of-set_type fs b b 1 (omega arith) ∙ rw (==-refl b) refl in
        let unused : type_of (set_type b 0 (set_type b 1 fs)) b ≡ 0 =
          type_of-set_type (set_type b 1 fs) b b 0 (omega arith) ∙ rw (==-refl b) refl in
        (
          set_type b 0 (set_type b 1 fs),
          rw now ((block_free-eq (set_type b 1 fs) b f1 hb).0 used),
          λ c. (
            type_of-set_back fs b c was,
            λ k h. data_of-set_type (set_type b 1 fs) b c 0 k h ∙ data_of-set_type fs b c 1 k h,
          ),
          (block_free-eq (set_type b 0 (set_type b 1 fs)) b f2 hb).1 unused,
        )
