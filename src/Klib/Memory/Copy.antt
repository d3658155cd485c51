-- ===== src/Klib/Memory/Copy.antt =====
-- abstract-machine/libs/klib/src/string.c: `strcpy`.
use nju_os_lab.Prelude.{
  ℕ, zero, suc, ◌+◌, ◌≤◌, ◌<◌, ◌≡◌, ◌⊎◌, arith, ◌≢◌, some, length, [], ◌∷◌, ◌++◌, ◌==◌, ◌∙◌, true,
  false, ap, refl, inl, inr,
}
use nju_os_lab.Klib.Memory.{Mem, store, strcpy, strlen_at, strcat}
use nju_os_lab.Klib.Memory.Blocks.{Outside}
use nju_os_lab.Klib.Strings.{Bytes}

-- A NUL-terminated string in memory.
abbrev pub Holds : Mem → ℕ → Bytes → Type 0
Holds m a [] = m a ≡ 0
Holds m a (c ∷ s) = (m a ≡ c) × (c ≢ 0) × Holds m (a + 1) s

pub Holds-frame :
    (m m' : Mem) (a : ℕ) (s : Bytes)
    → ((b : ℕ) → a ≤ b → b ≤ a + length s → m' b ≡ m b)
    → Holds m a s
    → Holds m' a s
Holds-frame m m' a [] f h = f a (omega arith) (omega arith) ∙ h
Holds-frame m m' a (c ∷ s) f h = (
  f a (omega arith) (omega arith) ∙ h.0,
  h.1,
  Holds-frame m m' (a + 1) s (λ b lo hi. f b (omega arith) (omega arith)) h.2,
)

-- A copy of `str` stands at `dst`, and nothing else has changed.
pub record Copied (dst : ℕ) (str : Bytes) (m m' : Mem) : Type 0 where
  pub holds : Holds m' dst str
  pub same : (a : ℕ) → Outside dst (length str + 1) a → m' a ≡ m a

-- `strcpy` of a string to a place that does not overlap it ends after its length and one rounds; a
-- copy with its NUL stands at the target, and nothing else changes.
pub strcpy-Copied :
    (fuel dst src : ℕ) (str : Bytes) (m : Mem)
    → length str < fuel
    → Holds m src str
    → (dst + length str < src) ⊎ (src + length str < dst)
    → (m' : Mem) × (strcpy fuel dst src m ≡ some m') × Copied dst str m m'
unfolding strcpy
strcpy-Copied zero dst src str m fits h d = absurd (omega arith)
strcpy-Copied (suc fuel) dst src [] m fits h d =
    (store m dst (m src), ground arith, record { holds = ground arith; same = λ a o. ground arith })
strcpy-Copied (suc fuel) dst src (c ∷ str) m fits h d =
    let moved = Holds-frame m (store m dst (m src)) (src + 1) str (λ b lo hi. ground arith) h.2 in
    let (m', e, done) =
      strcpy-Copied fuel (dst + 1) (src + 1) str (store m dst (m src)) (omega arith) moved
        (omega arith) in
    (
      m',
      ground (arith, e, h.0),
      record {
        holds = (ground (arith, done.same dst, h.0), h.1, done.holds);
        same = λ a o. ground (arith, done.same a);
      },
    )

pub strlen_at-Holds :
    (fuel a : ℕ) (m : Mem) (t : Bytes)
    → Holds m a t
    → length t < fuel
    → strlen_at fuel m a ≡ some (length t)
unfolding strlen_at
strlen_at-Holds zero a m t h lt = absurd (omega arith)
strlen_at-Holds (suc fuel) a m [] h lt =
    let ends : (m a == 0) ≡ true = ground (arith, h) in rw ends refl
strlen_at-Holds (suc fuel) a m (c ∷ t) h lt =
    let more : (m a == 0) ≡ false = ground (arith, h.0, h.1) in
    let rest = strlen_at-Holds fuel (a + 1) m t h.2 (omega arith) in
    rw (more, rest) (ap (λ n. some n) (omega arith))

Holds-append :
    (m m' : Mem) (a : ℕ) (s t : Bytes)
    → Holds m a s
    → ((b : ℕ) → b < a + length s → m' b ≡ m b)
    → Holds m' (a + length s) t
    → Holds m' a (s ++ t)
Holds-append m m' a [] t h same behind = let here : a ≡ a + 0 = omega arith in rw here behind
Holds-append m m' a (c ∷ s) t h same behind =
    let next : a + suc (length s) ≡ a + 1 + length s = omega arith in
    (
      same a (omega arith) ∙ h.0,
      h.1,
      Holds-append m m' (a + 1) s t h.2 (λ b lt. same b (omega (arith, lt))) (rw next at behind),
    )

-- `strcat` puts a copy of a string behind another one, if it overlaps neither that nor its place, and changes nothing else.
pub strcat-Holds :
    (fuel dst src : ℕ) (front str : Bytes) (m : Mem)
    → Holds m dst front
    → Holds m src str
    → length front < fuel
    → length str < fuel
    → (dst + length front + length str < src) ⊎ (src + length str < dst)
    → (m' : Mem) × (strcat fuel dst src m ≡ some m')
      × Holds m' dst (front ++ str)
      × ((a : ℕ) → Outside dst (length front + length str + 1) a → m' a ≡ m a)
unfolding strcat
strcat-Holds fuel dst src front str m h h2 fits fits2 apart =
    let (m', e, copied) =
      strcpy-Copied fuel (dst + length front) src str m fits2 h2 (omega arith) in
    (
      m',
      rw (strcat, strlen_at-Holds fuel dst m front h fits) e,
      Holds-append m m' dst front str h (λ a lt. copied.same a (inl lt)) copied.holds,
      λ a out.
          copied.same a
            (elim out [ inl q ↦ inl (omega (arith, q)) | inr q ↦ inr (omega (arith, q)) ]),
    )
