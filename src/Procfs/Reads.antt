-- ===== src/Procfs/Reads.antt =====
-- kernel/src/vfs/procfs.c: what `inode_read` returns.
use nju_os_lab.Prelude.{
  ℕ, zero, suc, ◌+◌, ◌-◌, ◌^◌, ◌≤◌, ◌<◌, ◌≡◌, ◌≢◌, ◌⊎◌, inl, inr, refl, ap, sym, ◌∙◌, true, Option,
  some, [], ◌∷◌, ◌++◌, leb, ltb, length, length-append, take, drop, arith, Bool-cases, pos,
}
use native.Mathlib.Nat.{mod-eq_of_lt}
use nju_os_lab.Klib.Strings.{Bytes}
use nju_os_lab.Klib.Memory.{Mem, store, strncpy}
use nju_os_lab.Klib.Memory.Copy.{Holds, Holds-frame, strlen_at-Holds}
use nju_os_lab.Klib.Memory.Bounded.{strncpy-Moved}
use nju_os_lab.Devfs.{file_read}
use nju_os_lab.Procfs.{Task, InfoType, ProcFile, World, smaller, inode_read}

pub Holds-drop :
    (o a : ℕ) (m : Mem) (t : Bytes) → Holds m a t → o ≤ length t → Holds m (a + o) (drop o t)
Holds-drop zero a m t h le = let here : a + 0 ≡ a = omega arith in rw here h
Holds-drop (suc o) a m [] h le = absurd (omega arith)
Holds-drop (suc o) a m (c ∷ t) h le =
    let next : a + suc o ≡ a + 1 + o = omega arith in
    rw next (Holds-drop o (a + 1) m t h.2 (omega arith))

pub length-drop : (o : ℕ) (t : Bytes) → o ≤ length t → length (drop o t) ≡ length t - o
length-drop zero t le = omega arith
length-drop (suc o) [] le = absurd (omega arith)
length-drop (suc o) (c ∷ t) le = let ih = length-drop o t (omega arith) in omega (arith, ih)

pub length-take : (n : ℕ) (t : Bytes) → n ≤ length t → length (take n t) ≡ n
length-take zero t le = refl
length-take (suc n) [] le = absurd (omega arith)
length-take (suc n) (c ∷ t) le = let ih = length-take n t (omega arith) in omega (arith, ih)

pub take_whole : (n : ℕ) (t : Bytes) → length t ≤ n → take n t ≡ t
take_whole zero [] le = refl
take_whole zero (c ∷ t) le = absurd (omega arith)
take_whole (suc n) [] le = refl
take_whole (suc n) (c ∷ t) le = ap (λ s. c ∷ s) (take_whole n t (omega arith))

Holds-nonzero : (i a : ℕ) (m : Mem) (t : Bytes) → Holds m a t → i < length t → m (a + i) ≢ 0
Holds-nonzero i a m [] h lt = absurd (omega arith)
Holds-nonzero zero a m (c ∷ t) h lt = λ e. h.1 (sym h.0 ∙ ground (arith, e))
Holds-nonzero (suc i) a m (c ∷ t) h lt =
    let ih = Holds-nonzero i (a + 1) m t h.2 (omega arith) in λ e. ih (ground (arith, e))

-- A string of which the first bytes were copied in front of another string.
Holds-copied :
    (n src dst : ℕ) (m m' : Mem) (s u : Bytes)
    → Holds m src s
    → n ≤ length s
    → ((i : ℕ) → i < n → m' (dst + i) ≡ m (src + i))
    → Holds m' (dst + n) u
    → Holds m' dst (take n s ++ u)
Holds-copied zero src dst m m' s u h le copied behind =
    let here : dst ≡ dst + 0 = omega arith in rw here behind
Holds-copied (suc n) src dst m m' [] u h le copied behind = absurd (omega arith)
Holds-copied (suc n) src dst m m' (c ∷ s) u h le copied behind =
    let first : m' dst ≡ c = ground (arith, copied 0, h.0) in
    let next : dst + suc n ≡ dst + 1 + n = omega arith in
    let rest =
      Holds-copied n (src + 1) (dst + 1) m m' s u h.2 (omega arith)
        (λ i lt. ground (arith, copied (suc i))) (rw next at behind) in
    (first, h.1, rest)

-- An open file with a text of that size at an address, read up to an offset.
abbrev pub reading : InfoType → Option Task → ℕ → ℕ → ℕ → ProcFile
reading type obj a size o = record {
  info = some (record { type = type; has_opened = true; obj = obj; content = some a; size = size });
  flags = some file_read;
  offset = o;
}

-- Room for `n` bytes and a NUL that does not touch a string with its NUL.
abbrev pub Apart : ℕ → ℕ → ℕ → Bytes → Type 0
Apart buf n a t = (buf + n < a) ⊎ (a + length t < buf)

smaller_le : (rem size : ℕ) → (smaller rem size ≤ rem) × (smaller rem size ≤ size)
smaller_le rem size = elim (Bool-cases (ltb size rem)) [
  | inl e ↦ rw e (ground (arith, e), omega arith)
  | inr e ↦ rw e (omega arith, ground (arith, e))
]

module _ (w : World) (type : InfoType) (obj : Option Task) (a : ℕ) (t : Bytes)
    (held : Holds w.mem a t) where
  -- `inode_read` up to the memory that `strncpy` leaves.
  read_memory :
      (o buf size : ℕ) (s : Bytes) (m : Mem)
      → o ≤ length t
      → strncpy buf (a + o) (smaller (length t - o) size) w.mem ≡ m
      → Holds m buf s
      → length s < 2 ^ 32
      → o + length s < 2 ^ 64
      → inode_read buf size (reading type obj a (length t) o) w
        ≡ some (pos (length s), reading type obj a (length t) (o + length s), record w { mem = m })
  unfolding inode_read
  read_memory o buf size s m le e h short fits =
      let within : leb o (length t) ≡ true = ground (arith, le) in
      rw (within, e)
        (rw (strlen_at-Holds (2 ^ 32) buf m s h short) (
          ap (λ k. some (pos (length s), reading type obj a (length t) k, record w { mem = m }))
            (mod-eq_of_lt fits)))

  -- Where bytes are left, `inode_read` copies them without a NUL, and counts the string that stands behind them in the buffer as read.
  pub read_behind :
      (o buf size n : ℕ) (u : Bytes)
      → smaller (length t - o) size ≡ n
      → Apart buf size a t
      → o < length t
      → 0 < size
      → Holds w.mem (buf + n) u
      → length t + length u < 2 ^ 32
      → (m : Mem) × (inode_read buf size (reading type obj a (length t) o) w
          ≡ some (
            pos (n + length u),
            reading type obj a (length t) (o + (n + length u)),
            record w { mem = m },
          ))
        × Holds m buf (take n (drop o t) ++ u)
        × Holds m a t
  read_behind o buf size n u part apart left some_room behind small =
      let (n_rem, n_size) = rw part at (smaller_le (length t - o) size) in
      let ahead = Holds-drop o a w.mem t held (omega arith) in
      let rest = length-drop o t (omega arith) in
      let positive : 0 < n = ground (arith, part) in
      let moved =
        strncpy-Moved buf (a + o) n w.mem positive
          (λ i lt. Holds-nonzero i (a + o) w.mem (drop o t) ahead (omega (arith, rest)))
          (elim apart [ inl q ↦ inl (omega (arith, q)) | inr q ↦ inr (omega (arith, q)) ]) in
      let m = strncpy buf (a + o) n w.mem in
      let kept = Holds-frame w.mem m (buf + n) u (λ b lo hi. moved.same b (inr lo)) behind in
      let s = take n (drop o t) ++ u in
      let copied =
        Holds-copied n (a + o) buf w.mem m (drop o t) u ahead (omega (arith, rest)) moved.copied
          kept in
      let taken = length-append (take n (drop o t)) u in
      let count : length s ≡ n + length u =
        omega (arith, taken, length-take n (drop o t) (omega (arith, rest))) in
      (
        m,
        rw count at (
            read_memory o buf size s m (omega arith) (rw part refl) copied (omega (arith, count))
              (omega (arith, count))),
        copied,
        Holds-frame w.mem m a t
            (λ b lo hi.
              moved.same b
                (elim apart [ inl q ↦ inr (omega (arith, q)) | inr q ↦ inl (omega (arith, q)) ]))
            held,
      )

  -- At the end of the text nothing is read, but for a NUL in the buffer.
  pub read_end :
      (buf size : ℕ)
      → Apart buf size a t
      → length t < 2 ^ 32
      → (m : Mem) × (inode_read buf size (reading type obj a (length t) (length t)) w
          ≡ some (pos 0, reading type obj a (length t) (length t), record w { mem = m }))
        × Holds m a t
  unfolding strncpy
  read_end buf size apart small =
      let nothing : smaller (length t - length t) size ≡ 0 = ground arith in
      let m = store w.mem buf 0 in
      let end : length t + 0 ≡ length t = omega arith in
      (
        m,
        rw end at (
            read_memory (length t) buf size [] m (omega arith) (rw nothing refl) (ground arith)
              (omega arith) (omega arith)),
        Holds-frame w.mem m a t (λ b lo hi. ground (arith, apart)) held,
      )
