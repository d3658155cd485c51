-- ===== src/Blkfs/Blocks/Views.antt =====
-- kernel/src/vfs/blkfs.c: what the block functions do, in terms of the type and the data of each block.
use nju_os_lab.Prelude.{
  ℕ, ◌+◌, ◌-◌, ◌*◌, ◌%◌, ◌^◌, ◌≤◌, ◌<◌, ◌≡◌, refl, ◌⊎◌, inl, inr, true, false, some, ◌==◌, ◌&&◌,
  ltb, leb, if◌then◌else◌, arith, ap, sym, ◌∙◌, Bool-cases, ==→≡,
}
use native.Mathlib.Nat.{mod-eq_of_lt}
use nju_os_lab.Blkfs.{Buffer, Disk, block_magic, block_size, block_data_size, get_word, put_word}
use nju_os_lab.Blkfs.Words.{get_word-put_word, get_word-put_word_ne}
use nju_os_lab.Blkfs.Blocks.{
  rd_read, rd_write, write_header, block_read, block_write, block_getinfo, block_setinfo,
  block_readdata, block_writedata,
}

unfoldable pub magic_of : Disk → ℕ → ℕ
magic_of fs b = get_word fs.bytes (b * block_size)

unfoldable pub type_of : Disk → ℕ → ℕ
type_of fs b = get_word fs.bytes (b * block_size + 4)

unfoldable pub data_of : Disk → ℕ → Buffer
data_of fs b k = fs.bytes (b * block_size + 8 + k)

-- The disk with another type, or other data, of one block.
unfoldable pub set_type : ℕ → ℕ → Disk → Disk
set_type b t fs = record fs {
  bytes =
      rd_write fs.bytes (b * block_size + 0)
        (write_header (record { magic = block_magic; type = t })) 8;
}

unfoldable pub set_data : ℕ → Buffer → ℕ → ℕ → Disk → Disk
set_data b buf count offset fs = record fs {
  bytes = rd_write fs.bytes (b * block_size + (offset + 8)) buf count;
}

-- Every block has been initialised.
pub record IsFormatted (fs : Disk) : Type 0 where
  pub magics : (b : ℕ) → b < fs.total_block_num → magic_of fs b ≡ block_magic
  pub small : fs.total_block_num * block_size < 2 ^ 32
  pub table : fs.inode_block_num ≤ fs.total_block_num

get_word_shift : (m : Buffer) (p a b : ℕ) → p + a ≡ b → get_word (λ k. m (p + k)) a ≡ get_word m b
unfolding get_word
get_word_shift m p a b e =
    let e1 : p + (a + 1) ≡ b + 1 = omega arith in
    let e2 : p + (a + 2) ≡ b + 2 = omega arith in
    let e3 : p + (a + 3) ≡ b + 3 = omega arith in rw (e, e1, e2, e3) refl

get_word-rd_write_ne :
    (space buf : Buffer) (pos count a : ℕ)
    → (a + 4 ≤ pos) ⊎ (pos + count ≤ a)
    → get_word (rd_write space pos buf count) a ≡ get_word space a
unfolding get_word
get_word-rd_write_ne space buf pos count a d = ground arith

rd_write_inside :
    (space buf : Buffer) (pos count x j : ℕ)
    → pos + j ≡ x
    → j < count
    → rd_write space pos buf count x ≡ buf j
rd_write_inside space buf pos count x j e h =
    let inside : (leb pos x && ltb x (pos + count)) ≡ true = ground arith in
    let at : x - pos ≡ j = omega arith in rw (inside, at) refl

rd_write_outside :
    (space buf : Buffer) (pos count x : ℕ)
    → (x < pos) ⊎ (pos + count ≤ x)
    → rd_write space pos buf count x ≡ space x
rd_write_outside space buf pos count x d = ground arith

get_word-rd_write :
    (space buf : Buffer) (pos count a k : ℕ)
    → pos + k ≡ a
    → k + 4 ≤ count
    → get_word (rd_write space pos buf count) a ≡ get_word buf k
unfolding get_word
get_word-rd_write space buf pos count a k e h =
    rw
      (
        rd_write_inside space buf pos count a k e (omega arith),
        rd_write_inside space buf pos count (a + 1) (k + 1) (omega arith) (omega arith),
        rd_write_inside space buf pos count (a + 2) (k + 2) (omega arith) (omega arith),
        rd_write_inside space buf pos count (a + 3) (k + 3) (omega arith) (omega arith),
      )
      refl

module _ (fs : Disk) (b : ℕ) (f : IsFormatted fs) (fits : b < fs.total_block_num) where
  in_range : ltb b fs.total_block_num ≡ true
  in_range = ground arith

  -- Positions in a block do not wrap around.
  no_wrap : (o : ℕ) → o ≤ 1032 → (b * block_size + o) % 2 ^ 32 ≡ b * block_size + o
  no_wrap o h = mod-eq_of_lt (omega (arith, f.small))

  pub block_getinfo-eq :
      block_getinfo b fs ≡ some (record { magic = block_magic; type = type_of fs b })
  unfolding block_getinfo block_read magic_of type_of
  block_getinfo-eq =
      let w0 : get_word (rd_read fs.bytes (b * block_size + 0)) 0 ≡ block_magic =
        get_word_shift fs.bytes (b * block_size + 0) 0 (b * block_size) (omega arith)
        ∙ f.magics b fits in
      let w4 : get_word (rd_read fs.bytes (b * block_size + 0)) 4
          ≡ get_word fs.bytes (b * block_size + 4) =
        get_word_shift fs.bytes (b * block_size + 0) 4 (b * block_size + 4) (omega arith) in
      rw (in_range, no_wrap 0 (omega arith), w0, w4) refl

  pub block_setinfo-eq :
      (t : ℕ)
      → block_setinfo (record { magic = block_magic; type = t }) b fs ≡ some (set_type b t fs)
  unfolding block_setinfo block_write set_type
  block_setinfo-eq t = rw (in_range, no_wrap 0 (omega arith)) refl

  pub block_readdata-eq : block_readdata block_data_size b 0 fs ≡ some (data_of fs b)
  unfolding block_readdata block_read data_of
  block_readdata-eq = rw (in_range, no_wrap 8 (omega arith)) refl

  -- A part of the data.
  pub block_readdata_part :
      (count offset : ℕ)
      → offset + count ≤ 1024
      → (buf : Buffer) × (block_readdata count b offset fs ≡ some buf)
        × ((k : ℕ) → buf k ≡ data_of fs b (offset + k))
  unfolding block_readdata block_read data_of
  block_readdata_part count offset h =
      let room : leb ((offset + count) % 2 ^ 32) block_data_size ≡ true = ground arith in
      let whole : (8 + offset) % 2 ^ 32 ≡ 8 + offset = omega arith in
      let room' : leb ((8 + offset + count) % 2 ^ 32) block_size ≡ true = ground arith in
      (
        rd_read fs.bytes (b * block_size + (8 + offset)),
        rw (in_range, room, whole, room', no_wrap (8 + offset) (omega arith)) refl,
        λ k.
            let at : b * block_size + (8 + offset) + k ≡ b * block_size + 8 + (offset + k) =
              omega arith in
            ap fs.bytes at,
      )

  pub block_writedata-eq :
      (buf : Buffer) (count offset : ℕ)
      → offset + count ≤ 1024
      → block_writedata buf count b offset fs ≡ some (set_data b buf count offset fs)
  unfolding block_writedata block_write set_data
  block_writedata-eq buf count offset h =
      let room : leb ((offset + count) % 2 ^ 32) block_data_size ≡ true = ground arith in
      let whole : (offset + 8) % 2 ^ 32 ≡ offset + 8 = omega arith in
      let room' : leb ((offset + 8 + count) % 2 ^ 32) block_size ≡ true = ground arith in
      rw (in_range, room, whole, room', no_wrap (offset + 8) (omega arith)) refl

abbrev header : ℕ → Buffer
header t = write_header (record { magic = block_magic; type = t })

header_magic : (t : ℕ) → get_word (header t) 0 ≡ block_magic
header_magic t =
    get_word-put_word_ne (put_word (λ k. 0) 0 block_magic) 4 0 t (omega arith)
    ∙ get_word-put_word (λ k. 0) 0 block_magic (omega arith)

-- The header and the data of every block after a write.
module _ (fs : Disk) (b c t : ℕ) where
  pub magic_of-set_type : magic_of fs b ≡ block_magic → magic_of (set_type b t fs) c ≡ magic_of fs c
  unfolding magic_of set_type
  magic_of-set_type magic = elim (Bool-cases (b == c)) [
    | inl e ↦
        let same : b ≡ c = ==→≡ b c e in
        let there : magic_of fs c ≡ block_magic = rw (sym same) magic in
        get_word-rd_write fs.bytes (header t) (b * block_size + 0) 8 (c * block_size) 0
          (rw same (omega arith)) (omega arith)
        ∙ header_magic t
        ∙ sym there
    | inr e ↦
        get_word-rd_write_ne fs.bytes (header t) (b * block_size + 0) 8 (c * block_size)
          (ground arith)
  ]

  pub type_of-set_type :
      t < 2 ^ 32 → type_of (set_type b t fs) c ≡ (if b == c then t else type_of fs c)
  unfolding type_of set_type
  type_of-set_type small = elim (Bool-cases (b == c)) [
    | inl e ↦
        let same : b ≡ c = ==→≡ b c e in
        rw e (
          get_word-rd_write fs.bytes (header t) (b * block_size + 0) 8 (c * block_size + 4) 4
            (rw same (omega arith)) (omega arith)
          ∙ get_word-put_word (put_word (λ k. 0) 0 block_magic) 4 t small)
    | inr e ↦ rw e (
        get_word-rd_write_ne fs.bytes (header t) (b * block_size + 0) 8 (c * block_size + 4)
          (ground arith))
  ]

  pub data_of-set_type : (k : ℕ) → k < 1024 → data_of (set_type b t fs) c k ≡ data_of fs c k
  unfolding data_of set_type
  data_of-set_type k h =
      rd_write_outside fs.bytes (header t) (b * block_size + 0) 8 (c * block_size + 8 + k)
        (ground arith)

module _ (fs : Disk) (b c : ℕ) (buf : Buffer) (count offset : ℕ) (h : offset + count ≤ 1024) where
  pub magic_of-set_data : magic_of (set_data b buf count offset fs) c ≡ magic_of fs c
  unfolding magic_of set_data
  magic_of-set_data =
      get_word-rd_write_ne fs.bytes buf (b * block_size + (offset + 8)) count (c * block_size)
        (ground arith)

  pub type_of-set_data : type_of (set_data b buf count offset fs) c ≡ type_of fs c
  unfolding type_of set_data
  type_of-set_data =
      get_word-rd_write_ne fs.bytes buf (b * block_size + (offset + 8)) count (c * block_size + 4)
        (ground arith)

  pub data_of-set_data_ne :
      (k : ℕ)
      → k < 1024
      → (b == c) ≡ false
      → data_of (set_data b buf count offset fs) c k ≡ data_of fs c k
  unfolding data_of set_data
  data_of-set_data_ne k hk ne =
      rd_write_outside fs.bytes buf (b * block_size + (offset + 8)) count (c * block_size + 8 + k)
        (ground arith)

-- A write of the whole data of a block.
pub data_of-set_data :
    (fs : Disk) (b : ℕ) (buf : Buffer) (k : ℕ)
    → k < 1024
    → data_of (set_data b buf 1024 0 fs) b k ≡ buf k
unfolding data_of set_data
data_of-set_data fs b buf k h =
    rd_write_inside fs.bytes buf (b * block_size + 8) 1024 (b * block_size + 8 + k) k refl
      (omega arith)
