-- ===== src/Blkfs/Words.antt =====
-- kernel/src/vfs/blkfs.c: words and inodes in a buffer.
use nju_os_lab.Prelude.{ℕ, ◌+◌, ◌*◌, ◌/◌, ◌%◌, ◌^◌, ◌≤◌, ◌<◌, ◌≡◌, ◌≢◌, ◌⊎◌, arith, ◌∙◌}
use nju_os_lab.Blkfs.{Buffer, BlkInode, get_word, put_word, read_inode, write_inode}

word_of_bytes :
    (v : ℕ)
    → v < 2 ^ 32
    → v % 256 + 256 * (v / 256 % 256) + 65536 * (v / 65536 % 256) + 16777216 * (v / 16777216 % 256)
      ≡ v
word_of_bytes v h = omega arith

-- A word that is written is read back; other words stay.
pub get_word-put_word : (m : Buffer) (a v : ℕ) → v < 2 ^ 32 → get_word (put_word m a v) a ≡ v
unfolding get_word put_word
get_word-put_word m a v h = ground (arith, word_of_bytes v h)

pub get_word-put_word_ne :
    (m : Buffer) (a b v : ℕ)
    → (a + 4 ≤ b) ⊎ (b + 4 ≤ a)
    → get_word (put_word m a v) b ≡ get_word m b
unfolding get_word put_word
get_word-put_word_ne m a b v d = ground arith

-- Buffers that agree on a word's bytes have the same word there.
pub get_word_same :
    (m m' : Buffer) (a n : ℕ)
    → ((k : ℕ) → k < n → m k ≡ m' k)
    → a + 4 ≤ n
    → get_word m a ≡ get_word m' a
unfolding get_word
get_word_same m m' a n h fits = ground (arith, h a, h (a + 1), h (a + 2), h (a + 3))

-- Every field is a 32-bit word.
pub record Fits (nd : BlkInode) : Type 0 where
  pub type : nd.type < 2 ^ 32
  pub id : nd.id < 2 ^ 32
  pub block_id : nd.block_id < 2 ^ 32
  pub refcnt : nd.refcnt < 2 ^ 32
  pub size : nd.size < 2 ^ 32

-- A word behind or in front of an inode stays when the inode is written.
pub get_word-write_inode :
    (m : Buffer) (t b : ℕ) (nd : BlkInode)
    → (20 * t + 20 ≤ b) ⊎ (b + 4 ≤ 20 * t)
    → get_word (write_inode m t nd) b ≡ get_word m b
unfolding write_inode
get_word-write_inode m t b nd d =
    get_word-put_word_ne _ (20 * t + 16) b nd.size (omega arith)
    ∙ get_word-put_word_ne _ (20 * t + 12) b nd.refcnt (omega arith)
    ∙ get_word-put_word_ne _ (20 * t + 8) b nd.block_id (omega arith)
    ∙ get_word-put_word_ne _ (20 * t + 4) b nd.id (omega arith)
    ∙ get_word-put_word_ne m (20 * t) b nd.type (omega arith)

-- Inodes with equal fields are equal.
pub inode-path :
    (x y : BlkInode)
    → x.type ≡ y.type
    → x.id ≡ y.id
    → x.block_id ≡ y.block_id
    → x.refcnt ≡ y.refcnt
    → x.size ≡ y.size
    → x ≡ y
inode-path x y t i b r s k = record {
  type = t k;
  id = i k;
  block_id = b k;
  refcnt = r k;
  size = s k;
}

-- Another place of the table stays.
pub read_inode-write_inode_ne :
    (m : Buffer) (t u : ℕ) (nd : BlkInode)
    → t ≢ u
    → read_inode (write_inode m t nd) u ≡ read_inode m u
unfolding read_inode
read_inode-write_inode_ne m t u nd ne =
    inode-path _ _ (get_word-write_inode m t (20 * u) nd (omega arith)) (at 4 (omega arith))
      (at 8 (omega arith)) (at 12 (omega arith)) (at 16 (omega arith))
  where
    at : (k : ℕ) → k ≤ 16 → get_word (write_inode m t nd) (20 * u + k) ≡ get_word m (20 * u + k)
    at k h = get_word-write_inode m t (20 * u + k) nd (omega arith)

-- An inode that is written is read back.
pub read_inode-write_inode :
    (m : Buffer) (t : ℕ) (nd : BlkInode) → Fits nd → read_inode (write_inode m t nd) t ≡ nd
unfolding read_inode write_inode
read_inode-write_inode m t nd fits =
    inode-path _ nd
      (get_word-put_word_ne _ (20 * t + 16) (20 * t) nd.size (omega arith)
        ∙ get_word-put_word_ne _ (20 * t + 12) (20 * t) nd.refcnt (omega arith)
        ∙ get_word-put_word_ne _ (20 * t + 8) (20 * t) nd.block_id (omega arith)
        ∙ get_word-put_word_ne _ (20 * t + 4) (20 * t) nd.id (omega arith)
        ∙ get_word-put_word m (20 * t) nd.type fits.type)
      (get_word-put_word_ne _ (20 * t + 16) (20 * t + 4) nd.size (omega arith)
        ∙ get_word-put_word_ne _ (20 * t + 12) (20 * t + 4) nd.refcnt (omega arith)
        ∙ get_word-put_word_ne _ (20 * t + 8) (20 * t + 4) nd.block_id (omega arith)
        ∙ get_word-put_word _ (20 * t + 4) nd.id fits.id)
      (get_word-put_word_ne _ (20 * t + 16) (20 * t + 8) nd.size (omega arith)
        ∙ get_word-put_word_ne _ (20 * t + 12) (20 * t + 8) nd.refcnt (omega arith)
        ∙ get_word-put_word _ (20 * t + 8) nd.block_id fits.block_id)
      (get_word-put_word_ne _ (20 * t + 16) (20 * t + 12) nd.size (omega arith)
        ∙ get_word-put_word _ (20 * t + 12) nd.refcnt fits.refcnt)
      (get_word-put_word _ (20 * t + 16) nd.size fits.size)

-- Buffers that agree in a block's data have the same inodes.
pub read_inode_same :
    (m m' : Buffer) (t : ℕ)
    → ((k : ℕ) → k < 1024 → m k ≡ m' k)
    → t < 51
    → read_inode m t ≡ read_inode m' t
unfolding read_inode
read_inode_same m m' t h small =
    inode-path _ _ (get_word_same m m' (20 * t) 1024 h (omega arith)) (at 4 (omega arith))
      (at 8 (omega arith)) (at 12 (omega arith)) (at 16 (omega arith))
  where
    at : (k : ℕ) → k ≤ 16 → get_word m (20 * t + k) ≡ get_word m' (20 * t + k)
    at k h' = get_word_same m m' (20 * t + k) 1024 h (omega arith)
