-- ===== src/Blkfs/Dirs/Entries.antt =====
-- kernel/src/vfs/blkfs.c: the entries of a directory in a buffer.
use nju_os_lab.Prelude.{
  ℕ, zero, suc, ◌+◌, ◌*◌, ◌^◌, ◌≤◌, ◌<◌, ◌≡◌, ◌≢◌, refl, ◌⊎◌, [], ◌∷◌, length, ◌==◌, if◌then◌else◌,
  arith, ◌∙◌, ==-refl,
}
use nju_os_lab.Klib.Strings.{Bytes}
use nju_os_lab.Klib.Strings.Search.{Lacks}
use nju_os_lab.Blkfs.{
  Buffer, get_word, put_word, read_string, write_string, entry_type, entry_name, entry_inode,
}
use nju_os_lab.Blkfs.Words.{get_word-put_word, get_word-put_word_ne}
use nju_os_lab.Blkfs.Dirs.{write_entry}

write_string_outside :
    (m : Buffer) (a : ℕ) (s : Bytes) (k : ℕ)
    → (k < a) ⊎ (a + length s < k)
    → write_string m a s k ≡ m k
unfolding write_string
write_string_outside m a [] k d = ground arith
write_string_outside m a (c ∷ s) k d =
    write_string_outside (λ j. if j == a then c else m j) (a + 1) s k (ground arith) ∙ ground arith

put_word_outside : (m : Buffer) (a v k : ℕ) → (k < a) ⊎ (a + 4 ≤ k) → put_word m a v k ≡ m k
unfolding put_word
put_word_outside m a v k d = ground arith

read_string_same :
    (n : ℕ) (m m' : Buffer) (a : ℕ)
    → ((k : ℕ) → a ≤ k → k < a + n → m k ≡ m' k)
    → read_string n m a ≡ read_string n m' a
unfolding read_string
read_string_same zero m m' a h = refl
read_string_same (suc n) m m' a h =
    rw
      (
        h a (omega arith) (omega arith),
        read_string_same n m m' (a + 1) (λ k lo hi. h k (omega arith) (omega arith)),
      )
      refl

read_string-write_string :
    (n : ℕ) (m : Buffer) (a : ℕ) (s : Bytes)
    → Lacks 0 s
    → length s < n
    → read_string n (write_string m a s) a ≡ s
unfolding read_string write_string
read_string-write_string zero m a s h fits = absurd (omega arith)
read_string-write_string (suc n) m a [] h fits = ground arith
read_string-write_string (suc n) m a (c ∷ s) h fits =
    let m1 : Buffer = (λ j. if j == a then c else m j) in
    let first : write_string m1 (a + 1) s a ≡ c =
      write_string_outside m1 (a + 1) s a (omega arith) ∙ rw (==-refl a) refl in
    let rest : read_string n (write_string m a (c ∷ s)) (a + 1) ≡ s =
      read_string-write_string n m1 (a + 1) s h.1 (ground arith) in
    rw (first, rest) (ground arith)

-- Entry `j` is the same in two buffers.
pub record SameEntry (m m' : Buffer) (j : ℕ) : Type 0 where
  pub type : entry_type m' j ≡ entry_type m j
  pub name : entry_name m' j ≡ entry_name m j
  pub inode : entry_inode m' j ≡ entry_inode m j

get_word_near :
    (m m' : Buffer) (a : ℕ)
    → ((k : ℕ) → a ≤ k → k < a + 4 → m' k ≡ m k)
    → get_word m' a ≡ get_word m a
unfolding get_word
get_word_near m m' a h = ground (arith, h a, h (a + 1), h (a + 2), h (a + 3))

pub same_bytes-SameEntry :
    (m m' : Buffer) (j : ℕ)
    → ((k : ℕ) → 24 * j ≤ k → k < 24 * j + 24 → m' k ≡ m k)
    → SameEntry m m' j
same_bytes-SameEntry m m' j h = record {
  type = get_word_near m m' (24 * j) (λ k lo hi. h k lo (omega arith));
  name = read_string_same 16 m' m (24 * j + 4) (λ k lo hi. h k (omega arith) (omega arith));
  inode = get_word_near m m' (24 * j + 20) (λ k lo hi. h k (omega arith) (omega arith));
}

-- `write_entry` writes one entry.
module _ (items : Buffer) (ind : ℕ) (name : Bytes) (id : ℕ) (short : length name < 15) where
  abbrev named : Buffer
  named = write_string items (24 * ind + 4) name

  pub write_entry_ne : (j : ℕ) → ind ≢ j → SameEntry items (write_entry items ind name id) j
  write_entry_ne j ne = same_bytes-SameEntry items (write_entry items ind name id) j (λ k lo hi.
      put_word_outside (put_word named (24 * ind) 1) (24 * ind + 20) id k (omega arith)
      ∙ put_word_outside named (24 * ind) 1 k (omega arith)
      ∙ write_string_outside items (24 * ind + 4) name k (omega arith))

  pub entry_type-write_entry : entry_type (write_entry items ind name id) ind ≡ 1
  entry_type-write_entry =
      get_word-put_word_ne (put_word named (24 * ind) 1) (24 * ind + 20) (24 * ind) id (omega arith)
      ∙ get_word-put_word named (24 * ind) 1 (omega arith)

  pub entry_inode-write_entry : id < 2 ^ 32 → entry_inode (write_entry items ind name id) ind ≡ id
  entry_inode-write_entry small =
      get_word-put_word (put_word named (24 * ind) 1) (24 * ind + 20) id small

  pub entry_name-write_entry : Lacks 0 name → entry_name (write_entry items ind name id) ind ≡ name
  entry_name-write_entry plain =
      read_string_same 16 (write_entry items ind name id) named (24 * ind + 4) (λ k lo hi.
        put_word_outside (put_word named (24 * ind) 1) (24 * ind + 20) id k (omega arith)
        ∙ put_word_outside named (24 * ind) 1 k (omega arith))
      ∙ read_string-write_string 16 items (24 * ind + 4) name plain (omega arith)
