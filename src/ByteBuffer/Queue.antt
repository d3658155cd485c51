-- ===== src/ByteBuffer/Queue.antt =====
-- kernel/src/buffer.c: the buffer is a queue of bytes, until it is full.
use nju_os_lab.Prelude.{
  ℕ, zero, suc, ◌+◌, ◌≤◌, ◌<◌, ◌≡◌, refl, false, List, [], ◌∷◌, ◌++◌, ◌==◌, leb, if◌then◌else◌,
  length, arith, ap, sym, ℤ, pos, append_assoc, append-nil,
}
use nju_os_lab.Klib.Strings.{Bytes}
use nju_os_lab.ByteBuffer.{
  ByteBuffer, buffer_init, buffer_isempty, buffer_push, buffer_next, char_value,
}

-- The bytes from `i` up to `size`.
abbrev pub Slots : (ℕ → ℕ) → ℕ → ℕ → Bytes → Type 0
Slots content i size [] = i ≡ size
Slots content i size (c ∷ q) = (i < size) × (content i ≡ c) × Slots content (i + 1) size q

-- The buffer holds the bytes that have been pushed and not yet taken, oldest first.
pub record Holds (buf : ByteBuffer) (q : Bytes) : Type 0 where
  pub slots : Slots buf.content buf.buf_pos buf.buf_size q
  pub fits : buf.buf_size ≤ buf.buf_cap

pub Slots-push :
    (content : ℕ → ℕ) (i size c : ℕ) (q : Bytes)
    → Slots content i size q
    → Slots (λ k. if k == size then c else content k) i (size + 1) (q ++ c ∷ [])
Slots-push content i size c [] h = (omega arith, ground arith, ap (λ k. k + 1) h)
Slots-push content i size c (x ∷ q) (lo, at, rest) =
    (omega arith, ground (arith, at), Slots-push content (i + 1) size c q rest)

pub buffer_push-Holds :
    (buf : ByteBuffer) (q : Bytes) (c : ℕ)
    → Holds buf q
    → buf.buf_size < buf.buf_cap
    → (buf' : ByteBuffer) × (buffer_push buf c ≡ (char_value c, buf'))
      × Holds buf' (q ++ c ∷ [])
      × (buf'.buf_size ≡ buf.buf_size + 1)
      × (buf'.buf_cap ≡ buf.buf_cap)
unfolding buffer_push
buffer_push-Holds buf q c h room =
    let not_full : (buf.buf_size == buf.buf_cap) ≡ false = ground arith in
    (
      record buf {
        content = λ k. if k == buf.buf_size then c else buf.content k;
        buf_size = buf.buf_size + 1;
      },
      rw (buffer_push, not_full) refl,
      record {
        slots = Slots-push buf.content buf.buf_pos buf.buf_size c q h.slots;
        fits = omega arith;
      },
      refl,
      refl,
    )

pub buffer_next-Holds :
    (buf : ByteBuffer) (c : ℕ) (q : Bytes)
    → Holds buf (c ∷ q)
    → (buf' : ByteBuffer) × (buffer_next buf ≡ (pos c, buf')) × Holds buf' q
unfolding buffer_next buffer_isempty
buffer_next-Holds buf c q h =
    let there : leb buf.buf_size buf.buf_pos ≡ false = (let lo = h.slots.0 in ground (arith, lo)) in
    (
      record buf { buf_pos = buf.buf_pos + 1 },
      rw (buffer_next, there, h.slots.1) refl,
      record { slots = h.slots.2; fits = h.fits },
    )

-- All bytes pushed, one after the other, and `n` bytes taken.
unfoldable pub push_all : Bytes → ByteBuffer → ByteBuffer
push_all [] buf = buf
push_all (c ∷ s) buf = push_all s (buffer_push buf c).1

unfoldable pub next_all : ℕ → ByteBuffer → List ℤ
next_all zero buf = []
next_all (suc n) buf = (buffer_next buf).0 ∷ next_all n (buffer_next buf).1

abbrev pub values : Bytes → List ℤ
values [] = []
values (c ∷ s) = pos c ∷ values s

push_all-Holds :
    (s q : Bytes) (buf : ByteBuffer)
    → Holds buf q
    → buf.buf_size + length s ≤ buf.buf_cap
    → Holds (push_all s buf) (q ++ s)
unfolding push_all
push_all-Holds [] q buf h room = rw (append-nil q) h
push_all-Holds (c ∷ s) q buf h room =
    let (buf', e, h', size, cap) = buffer_push-Holds buf q c h (omega arith) in
    rw (ap (λ p. p.1) e) (
      rw (sym (append_assoc q (c ∷ []) s))
        (push_all-Holds s (q ++ c ∷ []) buf' h' (rw (size, cap) (omega arith))))

next_all-Holds : (q : Bytes) (buf : ByteBuffer) → Holds buf q → next_all (length q) buf ≡ values q
unfolding next_all
next_all-Holds [] buf h = refl
next_all-Holds (c ∷ q) buf h =
    let (buf', e, h') = buffer_next-Holds buf c q h in
    rw e (ap (λ l. pos c ∷ l) (next_all-Holds q buf' h'))

-- Bytes that are pushed into a fresh buffer, no more than its capacity, are taken out again in the order in which they were pushed.
pub next_all-push_all :
    (s : Bytes) (cap : ℕ)
    → length s ≤ cap
    → next_all (length s) (push_all s (buffer_init cap)) ≡ values s
unfolding buffer_init
next_all-push_all s cap room = next_all-Holds s (push_all s (buffer_init cap)) (
    push_all-Holds s [] (buffer_init cap) (record { slots = refl; fits = omega arith })
      (omega arith))
