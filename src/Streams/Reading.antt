-- ===== src/Streams/Reading.antt =====
-- kernel/src/io.c: a stream reads lines, however the file gives its bytes.
use nju_os_lab.Prelude.{
  ℕ, zero, suc, ◌+◌, ◌≤◌, ◌<◌, ◌≡◌, refl, inl, inr, ◌∙◌, ap, subst, true, false, none, some, [],
  ◌∷◌, ◌++◌, ◌==◌, leb, if◌then◌else◌, length, arith, Bool-cases, pos, minus_one,
}
use nju_os_lab.Klib.Strings.{Bytes}
use nju_os_lab.ByteBuffer.{ByteBuffer, buffer_isempty, buffer_next}
use nju_os_lab.ByteBuffer.Queue.{Slots, Holds}
use nju_os_lab.Streams.{
  FileCalls, Stream, filled, refill, continue_read, take_or_end, fs_get_char, line_round, line_loop,
  fs_get_line,
}

-- What a read does on a file that has certain bytes left: it does not fail, and it takes a part from the front, of at most the bytes that are asked for,
-- and an empty part only at the end of the file.
pub record Reads {S : Type 0} (vfs : FileCalls S) (Left : S → Bytes → Type 0) : Type 1 where
  pub read :
      (n : ℕ) (s : S) (l : Bytes)
      → 0 < n
      → Left s l
      → (a b : Bytes) × (s' : S) × (vfs.read n s ≡ (some a, s'))
        × (l ≡ a ++ b)
        × Left s' b
        × (length a ≤ n)
        × ((a ≡ []) → l ≡ [])

Slots-shift :
    (s : Bytes) (content : ℕ → ℕ) (c i : ℕ) (q : Bytes)
    → Slots (filled s (λ j. content (j + 1))) i (length s) q
    → Slots (filled (c ∷ s) content) (i + 1) (suc (length s)) q
unfolding filled
Slots-shift s content c i [] h = ap (λ k. k + 1) h ∙ omega arith
Slots-shift s content c i (x ∷ q) (lo, at, rest) =
    let next : i + 1 ≡ suc i = omega arith in
    (omega arith, rw next at, Slots-shift s content c (i + 1) q rest)

Slots-filled : (s : Bytes) (content : ℕ → ℕ) → Slots (filled s content) 0 (length s) s
unfolding filled
Slots-filled [] content = refl
Slots-filled (c ∷ s) content =
    (omega arith, refl, Slots-shift s content c 0 s (Slots-filled s (λ j. content (j + 1))))

-- The first line of some bytes, of a size at most: the line, how many bytes are taken, and the rest.
abbrev pub first_line : ℕ → Bytes → Bytes × ℕ × Bytes
first_line zero l = ([], 0, l)
first_line (suc left) [] = ([], 0, [])
first_line (suc left) (c ∷ l) =
    let (line, taken, rest) = first_line left l in
    if c == b'\n' then ([], 1, l) else (c ∷ line, taken + 1, rest)

-- What a stream has to read: the bytes in its buffer, and those that the file has left.
pub record Ready {S : Type 0} (Left : S → Bytes → Type 0) (st : Stream S) (l : Bytes) : Type 0 where
  pub queue : Bytes
  pub rest : Bytes
  pub holds : Holds st.buf queue
  pub left : Left st.file rest
  pub all : l ≡ queue ++ rest
  pub room : 0 < st.buf.buf_cap

module _ {S : Type 0} (vfs : FileCalls S) (Left : S → Bytes → Type 0) (laws : Reads vfs Left) where
  -- After a refill the buffer is empty only at the end.
  abbrev Refilled : Stream S → Bytes → Type 0
  Refilled st l =
      (q r : Bytes) × Holds st.buf q
      × Left st.file r
      × (l ≡ q ++ r)
      × (0 < st.buf.buf_cap)
      × ((q ≡ []) → l ≡ [])

  empty_queue : (b : ByteBuffer) (q : Bytes) → Holds b q → buffer_isempty b ≡ true → q ≡ []
  unfolding buffer_isempty
  empty_queue b [] h e = refl
  empty_queue b (c ∷ q) h e = absurd (let lo = h.slots.0 in ground (arith, lo, e))

  continue_read-Refilled :
      (st : Stream S) (l : Bytes) → Ready Left st l → Refilled (continue_read vfs st) l
  unfolding continue_read refill buffer_isempty
  continue_read-Refilled st l d = elim (Bool-cases (buffer_isempty st.buf)) [
    | inl e ↦
        let (a, b, s', run, split, left, short, end) =
          laws.read st.buf.buf_cap st.file d.rest d.room d.left in
        let none_held : d.queue ≡ [] = empty_queue st.buf d.queue d.holds e in
        let same : l ≡ d.rest = d.all ∙ ap (λ q. q ++ d.rest) none_held in
        rw (e, run)
          (
            a,
            b,
            record { slots = Slots-filled a st.buf.content; fits = short },
            left,
            same ∙ split,
            d.room,
            λ z. same ∙ end z,
          )
    | inr e ↦ rw e (
      d.queue,
      d.rest,
      d.holds,
      d.left,
      d.all,
      d.room,
      λ z. absurd (
          let i = subst (Slots st.buf.content st.buf.buf_pos st.buf.buf_size) z d.holds.slots in
          ground (arith, i, e)),
    )
  ]

  take_end :
      (st : Stream S) (q r : Bytes)
      → Holds st.buf q
      → Left st.file r
      → [] ≡ q ++ r
      → 0 < st.buf.buf_cap
      → (st' : Stream S) × (take_or_end vfs st ≡ (minus_one, st')) × Ready Left st' []
  unfolding buffer_isempty
  take_end st [] r holds left all room =
      let same = holds.slots in
      let empty : leb st.buf.buf_size st.buf.buf_pos ≡ true = ground (arith, same) in
      (
        st,
        rw empty refl,
        record { queue = []; rest = r; holds = holds; left = left; all = all; room = room },
      )
  take_end st (c ∷ q) r holds left all room = absurd cc

  take_next :
      (st : Stream S) (q r l : Bytes) (c : ℕ)
      → Holds st.buf q
      → Left st.file r
      → c ∷ l ≡ q ++ r
      → 0 < st.buf.buf_cap
      → (q ≡ [] → c ∷ l ≡ [])
      → (st' : Stream S) × (take_or_end vfs st ≡ (pos c, st')) × Ready Left st' l
  unfolding buffer_isempty buffer_next
  take_next st [] r l c holds left all room end = absurd (let z = end refl in cc)
  take_next st (x ∷ q) r l c holds left all room end =
      let lo = holds.slots.0 in
      let full : leb st.buf.buf_size st.buf.buf_pos ≡ false = ground (arith, lo) in
      let here : st.buf.content st.buf.buf_pos ≡ c = holds.slots.1 ∙ cc in
      let b' = record st.buf { buf_pos = st.buf.buf_pos + 1 } in
      (
        record st { buf = b' },
        rw (full, here) refl,
        record {
          queue = q;
          rest = r;
          holds = record { slots = holds.slots.2; fits = holds.fits };
          left = left;
          all = cc;
          room = room;
        },
      )

  fs_get_char_end :
      (st : Stream S)
      → Ready Left st []
      → (st' : Stream S) × (fs_get_char vfs st ≡ (minus_one, st')) × Ready Left st' []
  unfolding fs_get_char
  fs_get_char_end st d =
      let (q, r, holds, left, all, room, end) = continue_read-Refilled st [] d in
      take_end (continue_read vfs st) q r holds left all room

  fs_get_char_next :
      (st : Stream S) (c : ℕ) (l : Bytes)
      → Ready Left st (c ∷ l)
      → (st' : Stream S) × (fs_get_char vfs st ≡ (pos c, st')) × Ready Left st' l
  unfolding fs_get_char
  fs_get_char_next st c l d =
      let (q, r, holds, left, all, room, end) = continue_read-Refilled st (c ∷ l) d in
      take_next (continue_read vfs st) q r l c holds left all room end

  pub line_loop_lem :
      (size : ℕ) (l : Bytes) (st : Stream S)
      → Ready Left st l
      → (st' : Stream S) × (line_loop vfs size st
          ≡ ((first_line size l).0, (first_line size l).1, st'))
        × Ready Left st' (first_line size l).2
  unfolding line_loop
  line_loop_lem zero l st d = (st, refl, d)
  line_loop_lem (suc size) [] st d =
      let (st', run, d') = fs_get_char_end st d in
      (st', ap (λ r. line_round vfs r (line_loop vfs size)) run, d')
  line_loop_lem (suc size) (c ∷ l) st d =
      let (st1, run, d1) = fs_get_char_next st c l d in
      let (st2, run', d2) = line_loop_lem size l st1 d1 in
      elim (Bool-cases (c == b'\n')) [
        | inl e ↦ rw e (st1, ap (λ r. line_round vfs r (line_loop vfs size)) run ∙ rw e refl, d1)
        | inr e ↦
            rw e (st2, ap (λ r. line_round vfs r (line_loop vfs size)) run ∙ rw (e, run') refl, d2)
      ]

  -- `fsGetLine` takes the first line of what a stream has to read, however the file cuts it into parts: the bytes before the newline, or `size` bytes
  -- if the line is longer, and `NULL` at the end. The rest stays to be read. The file's calls do not fail.
  pub fs_get_line-first_line :
      (size : ℕ) (l : Bytes) (st : Stream S)
      → Ready Left st l
      → (st' : Stream S) × (fs_get_line vfs size st
          ≡ ((if (first_line size l).1 == 0 then none else some (first_line size l).0), st'))
        × Ready Left st' (first_line size l).2
  unfolding fs_get_line
  fs_get_line-first_line size l st d =
      let (st', run, d') = line_loop_lem size l st d in (st', rw run refl, d')
