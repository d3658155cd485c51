-- ===== src/Klib/Memory/Blocks.antt =====
-- abstract-machine/libs/klib/src/string.c: `memset`, `memcpy`, `memmove` and `memcmp`.
use nju_os_lab.Prelude.{
  ℕ, zero, suc, ◌+◌, ◌≤◌, ◌<◌, ◌%◌, ◌≡◌, refl, ◌⊎◌, inl, inr, arith, Bool-cases, ltb, ◌&&◌, pos,
}
use nju_os_lab.Klib.Memory.{Mem, store, memset, memcpy, copy_down, memmove, memcmp}

-- The addresses outside of `n` bytes from `out` on.
abbrev pub Outside : ℕ → ℕ → ℕ → Type 0
Outside out n a = (a < out) ⊎ (out + n ≤ a)

-- `m'` has the `n` bytes that `m` has at `src` at `out`, and is `m` elsewhere.
pub record Moved (out src n : ℕ) (m m' : Mem) : Type 0 where
  pub copied : (i : ℕ) → i < n → m' (out + i) ≡ m (src + i)
  pub same : (a : ℕ) → Outside out n a → m' a ≡ m a

memset-Outside : (v c n : ℕ) (m : Mem) (a : ℕ) → Outside v n a → memset v c n m a ≡ m a
unfolding memset
memset-Outside v c zero m a h = refl
memset-Outside v c (suc n) m a h =
    ground (arith, memset-Outside (v + 1) c n (store m v (c % 256)) a)

memset_inside : (v c n : ℕ) (m : Mem) (a : ℕ) → v ≤ a → a < v + n → memset v c n m a ≡ c % 256
unfolding memset
memset_inside v c zero m a lo hi = absurd (omega arith)
memset_inside v c (suc n) m a lo hi = elim (Bool-cases (ltb v a)) [
  | inl more ↦ memset_inside (v + 1) c n (store m v (c % 256)) a (ground arith) (omega arith)
  | inr here ↦ ground (arith, memset-Outside (v + 1) c n (store m v (c % 256)) a)
]

-- `memset` writes the low byte of `c` to exactly the `n` bytes from `v` on.
pub memset_lem :
    (v c n : ℕ) (m : Mem) (a : ℕ)
    → ((v ≤ a) × (a < v + n) → memset v c n m a ≡ c % 256)
      × (Outside v n a → memset v c n m a ≡ m a)
memset_lem v c n m a = (λ h. memset_inside v c n m a h.0 h.1, memset-Outside v c n m a)

memcpy-Outside : (out src n : ℕ) (m : Mem) (a : ℕ) → Outside out n a → memcpy out src n m a ≡ m a
unfolding memcpy
memcpy-Outside out src zero m a h = refl
memcpy-Outside out src (suc n) m a h =
    ground (arith, memcpy-Outside (out + 1) (src + 1) n (store m out (m src)) a)

memcpy_inside :
    (out src n : ℕ) (m : Mem) (i : ℕ)
    → (out ≤ src) ⊎ (src + n ≤ out)
    → i < n
    → memcpy out src n m (out + i) ≡ m (src + i)
unfolding memcpy
memcpy_inside out src zero m i d h = absurd (omega arith)
memcpy_inside out src (suc n) m zero d h =
    ground (arith, memcpy-Outside (out + 1) (src + 1) n (store m out (m src)) (out + 0))
memcpy_inside out src (suc n) m (suc i) d h =
    let e : out + suc i ≡ out + 1 + i = omega arith in
    let e' : src + suc i ≡ src + 1 + i = omega arith in
    rw
      (
        e,
        e',
        memcpy_inside (out + 1) (src + 1) n (store m out (m src)) i (omega arith) (omega arith),
      )
      (ground arith)

copy_down-Outside :
    (out src n : ℕ) (m : Mem) (a : ℕ) → Outside out n a → copy_down out src n m a ≡ m a
unfolding copy_down
copy_down-Outside out src zero m a h = refl
copy_down-Outside out src (suc n) m a h =
    ground (arith, copy_down-Outside out src n (store m (out + n) (m (src + n))) a)

copy_down_inside :
    (out src n : ℕ) (m : Mem) (i : ℕ)
    → src < out
    → i < n
    → copy_down out src n m (out + i) ≡ m (src + i)
unfolding copy_down
copy_down_inside out src zero m i d h = absurd (omega arith)
copy_down_inside out src (suc n) m i d h = elim (Bool-cases (ltb i n)) [
  | inl below ↦ ground (arith, copy_down_inside out src n (store m (out + n) (m (src + n))) i)
  | inr last ↦
      let e : i ≡ n = ground arith in
      rw e (ground (arith, copy_down-Outside out src n (store m (out + n) (m (src + n))) (out + n)))
]

-- `memcpy` copies exactly when the target does not begin inside the source, behind its start.
pub memcpy-Moved :
    (out src n : ℕ) (m : Mem)
    → (out ≤ src) ⊎ (src + n ≤ out)
    → Moved out src n m (memcpy out src n m)
memcpy-Moved out src n m d = record {
  copied = λ i h. memcpy_inside out src n m i d h;
  same = memcpy-Outside out src n m;
}

-- `memmove` copies whatever the overlap: the target has the bytes that the source had before, and
-- nothing else changes.
pub memmove-Moved : (out src n : ℕ) (m : Mem) → Moved out src n m (memmove out src n m)
unfolding memmove
memmove-Moved out src n m = elim (Bool-cases (ltb src out && ltb out (src + n))) [
  | inl down ↦ rw down (record {
    copied = λ i h. copy_down_inside out src n m i (ground arith) h;
    same = copy_down-Outside out src n m;
  })
  | inr up ↦ rw up (memcpy-Moved out src n m (ground arith))
]

-- `memcmp` looks at the first byte of each side only: areas that agree in it compare as equal,
-- whatever follows, for every length.
pub memcmp_first_byte : (s1 s2 n : ℕ) (m : Mem) → m s1 ≡ m s2 → memcmp s1 s2 n m ≡ pos 0
unfolding memcmp
memcmp_first_byte s1 s2 zero m h = refl
memcmp_first_byte s1 s2 (suc n) m h = ground (arith, memcmp_first_byte s1 s2 n m h)
