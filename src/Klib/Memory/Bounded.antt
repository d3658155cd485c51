-- ===== src/Klib/Memory/Bounded.antt =====
-- abstract-machine/libs/klib/src/string.c: `strncpy` and `substr`.
use nju_os_lab.Prelude.{
  ℕ, zero, suc, ◌+◌, ◌≤◌, ◌<◌, ◌≡◌, refl, ◌⊎◌, inl, inr, arith, ◌≢◌, false, length, [], ◌∷◌,
  Bool-cases, ltb, ◌==◌,
}
use nju_os_lab.Klib.Memory.{Mem, store, pad, copy_pad, strncpy}
use nju_os_lab.Klib.Memory.Blocks.{Outside, Moved}
use nju_os_lab.Klib.Memory.Copy.{Holds, Holds-frame}
use nju_os_lab.Klib.Strings.{Bytes}

pad-Outside : (n sc : ℕ) (m : Mem) (a : ℕ) → Outside sc n a → pad n sc m a ≡ m a
unfolding pad
pad-Outside zero sc m a h = refl
pad-Outside (suc n) sc m a h = ground (arith, pad-Outside n (sc + 1) (store m sc 0) a)

pad_inside : (n sc : ℕ) (m : Mem) (a : ℕ) → sc ≤ a → a < sc + n → pad n sc m a ≡ 0
unfolding pad
pad_inside zero sc m a lo hi = absurd (omega arith)
pad_inside (suc n) sc m a lo hi = elim (Bool-cases (ltb sc a)) [
  | inl more ↦ pad_inside n (sc + 1) (store m sc 0) a (ground arith) (omega arith)
  | inr here ↦ ground (arith, pad-Outside n (sc + 1) (store m sc 0) a)
]

copy_pad-Moved :
    (n dst src : ℕ) (m : Mem)
    → ((i : ℕ) → i < n → m (src + i) ≢ 0)
    → (dst ≤ src) ⊎ (src + n ≤ dst)
    → Moved dst src n m (copy_pad n dst src m)
unfolding copy_pad
copy_pad-Moved zero dst src m h d = record {
  copied = λ i k. absurd (omega arith);
  same = λ a o. refl;
}
copy_pad-Moved (suc n) dst src m h d =
    let nonzero : m src ≢ 0 = λ e. h 0 (omega arith) (ground (arith, e)) in
    let ih =
      copy_pad-Moved n (dst + 1) (src + 1) (store m dst (m src)) (λ i k. ground (arith, h (suc i)))
        (omega arith) in
    record {
      copied = elim [
        | zero ↦ λ k. ground (arith, nonzero, ih.same dst)
        | suc i ↦ λ k. ground (arith, nonzero, ih.copied i)
      ];
      same = λ a o. ground (arith, nonzero, ih.same a);
    }

-- Of a string of at least `n` bytes, `n` not 0, `strncpy` copies exactly the first `n`: it writes
-- no NUL behind them, and nothing else. The target must not begin inside them.
pub strncpy-Moved :
    (dst src n : ℕ) (m : Mem)
    → 0 < n
    → ((i : ℕ) → i < n → m (src + i) ≢ 0)
    → (dst ≤ src) ⊎ (src + n ≤ dst)
    → Moved dst src n m (strncpy dst src n m)
unfolding strncpy
strncpy-Moved dst src n m pos h d =
    let moved = copy_pad-Moved n dst src m h d in
    record {
      copied = λ i k. ground (arith, moved.copied i k);
      same = λ a o. ground (arith, moved.same a o);
    }

-- What `strncpy` leaves when the string is shorter than `n`.
pub record Padded (dst n : ℕ) (str : Bytes) (m m' : Mem) : Type 0 where
  pub holds : Holds m' dst str
  pub zeros : (a : ℕ) → dst + length str ≤ a → a ≤ dst + n → m' a ≡ 0
  pub same : (a : ℕ) → Outside dst (n + 1) a → m' a ≡ m a

copy_pad-Padded :
    (n dst src : ℕ) (str : Bytes) (m : Mem)
    → Holds m src str
    → length str < n
    → (dst + n < src) ⊎ (src + length str < dst)
    → Padded dst n str m (copy_pad n dst src m)
unfolding copy_pad
copy_pad-Padded zero dst src str m h lt d = absurd (omega arith)
copy_pad-Padded (suc n) dst src [] m h lt d = record {
  holds = ground (arith, pad-Outside (suc n) (dst + 1) (store m dst (m src)) dst);
  zeros = λ a lo hi. ground (
    arith,
    pad-Outside (suc n) (dst + 1) (store m dst (m src)) a,
    pad_inside (suc n) (dst + 1) (store m dst (m src)) a,
  );
  same = λ a o. ground (arith, pad-Outside (suc n) (dst + 1) (store m dst (m src)) a);
}
copy_pad-Padded (suc n) dst src (c ∷ str) m h lt d =
    let moved = Holds-frame m (store m dst (m src)) (src + 1) str (λ b lo hi. ground arith) h.2 in
    let ih =
      copy_pad-Padded n (dst + 1) (src + 1) str (store m dst (m src)) moved (omega arith)
        (omega arith) in
    record {
      holds = (ground (arith, ih.same dst, h.0, h.1), h.1, ground (arith, h.0, h.1, ih.holds));
      zeros = λ a lo hi. ground (arith, h.0, h.1, ih.zeros a);
      same = λ a o. ground (arith, h.0, h.1, ih.same a);
    }

-- Of a string shorter than `n` that does not overlap the target, `strncpy` leaves a copy, and zeros from its end up to the address
-- `dst + n`, that one included: it writes `n + 1` bytes, one more than it was given.
pub strncpy-Padded :
    (dst src n : ℕ) (str : Bytes) (m : Mem)
    → Holds m src str
    → length str < n
    → (dst + n < src) ⊎ (src + length str < dst)
    → Padded dst n str m (strncpy dst src n m)
unfolding strncpy
strncpy-Padded dst src n str m h lt d =
    let p = copy_pad-Padded n dst src str m h lt d in
    let nonzero : (n == 0) ≡ false = ground arith in rw nonzero p
