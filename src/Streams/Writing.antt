-- ===== src/Streams/Writing.antt =====
-- kernel/src/io.c: a stream writes its bytes in order.
use nju_os_lab.Prelude.{
  ℕ, suc, ◌+◌, ◌-◌, ◌<◌, ◌≡◌, refl, inl, inr, ◌∙◌, ap, sym, subst, true, false, some, List, [], ◌∷◌,
  ◌++◌, ◌==◌, ◌&&◌, leb, if◌then◌else◌, length, arith, Bool-cases, ==-refl, minus_one, All,
  append_assoc, append-nil,
}
use nju_os_lab.Klib.Strings.{Bytes}
use nju_os_lab.Klib.Strings.Search.{Lacks}
use nju_os_lab.Klib.Format.Pieces.{Piece, Renders, spelled, args_of}
use nju_os_lab.Klib.Format.Written.{vsnprintf-Renders, put_loop-Spells}
use nju_os_lab.ByteBuffer.{ByteBuffer, buffer_isempty, buffer_push, char_value}
use nju_os_lab.ByteBuffer.Queue.{Slots, Holds, Slots-push}
use nju_os_lab.Streams.{
  FileCalls, Stream, slice, is_minus_one, fs_flush, fs_put_char, put_chars, fs_printf,
}

-- A file that takes all bytes of a write, behind what it has.
pub record Writes {S : Type 0} (vfs : FileCalls S) (Has : S → Bytes → Type 0) : Type 1 where
  pub write :
      (a : Bytes) (s : S) (l : Bytes)
      → Has s l
      → (s' : S) × (vfs.write a s ≡ (length a, s')) × Has s' (l ++ a)

-- What has been written to a stream that nobody reads: the file has the first part, and the buffer the rest.
pub record Sent {S : Type 0} (Has : S → Bytes → Type 0) (st : Stream S) (l : Bytes) : Type 0 where
  pub done : Bytes
  pub queue : Bytes
  pub has : Has st.file done
  pub holds : Holds st.buf queue
  pub start : st.buf.buf_pos ≡ 0
  pub all : done ++ queue ≡ l
  pub room : 0 < st.buf.buf_cap

-- A byte that is not -1 as a `char`.
abbrev pub Printable : ℕ → Type 0
Printable c = is_minus_one (char_value c) ≡ false

slice-Slots :
    (content : ℕ → ℕ) (i size : ℕ) (q : Bytes)
    → Slots content i size q
    → (slice content i (size - i) ≡ q) × (length q ≡ size - i)
slice-Slots content i size [] h =
    let e : size - i ≡ 0 = omega (arith, h) in (rw e refl, omega (arith, h))
slice-Slots content i size (c ∷ q) (lo, at, rest) =
    let e : size - i ≡ suc (size - (i + 1)) = omega (arith, lo) in
    let (same, count) = slice-Slots content (i + 1) size q rest in
    (rw (e, at, same) refl, omega (arith, e, count))

module _ {S : Type 0} (vfs : FileCalls S) (Has : S → Bytes → Type 0) (laws : Writes vfs Has) where
  fs_flush-Sent :
      (st : Stream S) (l : Bytes)
      → Sent Has st l
      → (st' : Stream S) × (fs_flush vfs st ≡ some st') × Sent Has st' l × (st'.buf.buf_size ≡ 0)
  unfolding fs_flush buffer_isempty
  fs_flush-Sent st l d = elim (Bool-cases (leb st.buf.buf_size st.buf.buf_pos)) [
    | inl e ↦ rw e (st, refl, d, let z = d.start in ground (arith, e, z))
    | inr e ↦
        let count = st.buf.buf_size - st.buf.buf_pos in
        let (bytes, size) =
          slice-Slots st.buf.content st.buf.buf_pos st.buf.buf_size d.queue d.holds.slots in
        let (s', run, has) =
          laws.write (slice st.buf.content st.buf.buf_pos count) st.file d.done d.has in
        let counted : (count == length (slice st.buf.content st.buf.buf_pos count)) ≡ true =
          rw bytes (rw size (==-refl count)) in
        rw (e, run, counted)
          (
            record st { buf = record st.buf { buf_pos = 0; buf_size = 0 }; file = s' },
            refl,
            record {
              done = d.done ++ slice st.buf.content st.buf.buf_pos count;
              queue = [];
              has = has;
              holds = record { slots = refl; fits = omega arith };
              start = refl;
              all =
                  append-nil (d.done ++ slice st.buf.content st.buf.buf_pos count)
                  ∙ ap (λ q. d.done ++ q) bytes
                  ∙ d.all;
              room = d.room;
            },
            refl,
          )
  ]

  -- A push into a buffer with room.
  push-Sent :
      (st : Stream S) (l : Bytes) (c : ℕ)
      → Sent Has st l
      → st.buf.buf_size < st.buf.buf_cap
      → (b : ByteBuffer) × (buffer_push st.buf c ≡ (char_value c, b))
        × Sent Has (record st { buf = b }) (l ++ c ∷ [])
  unfolding buffer_push
  push-Sent st l c d room =
      let not_full : (st.buf.buf_size == st.buf.buf_cap) ≡ false = ground (arith, room) in
      (
        record st.buf {
          content = λ k. if k == st.buf.buf_size then c else st.buf.content k;
          buf_size = st.buf.buf_size + 1;
        },
        rw not_full refl,
        record {
          done = d.done;
          queue = d.queue ++ c ∷ [];
          has = d.has;
          holds = record {
            slots =
                Slots-push st.buf.content st.buf.buf_pos st.buf.buf_size c d.queue d.holds.slots;
            fits = omega (arith, room);
          };
          start = d.start;
          all = sym (append_assoc d.done d.queue (c ∷ [])) ∙ ap (λ t. t ++ c ∷ []) d.all;
          room = d.room;
        },
      )

  full_push :
      (b : ByteBuffer) (c : ℕ) → (b.buf_size == b.buf_cap) ≡ true → buffer_push b c ≡ (minus_one, b)
  unfolding buffer_push
  full_push b c e = rw e refl

  fs_put_char-Sent :
      (st : Stream S) (l : Bytes) (c : ℕ)
      → Sent Has st l
      → Printable c
      → (st' : Stream S) × (fs_put_char vfs c st ≡ some st') × Sent Has st' (l ++ c ∷ [])
  unfolding fs_put_char
  fs_put_char-Sent st l c d printable = elim (Bool-cases (st.buf.buf_size == st.buf.buf_cap)) [
    | inl e ↦
        let (st1, run, d1, emptied) = fs_flush-Sent st l d in
        let room = d1.room in
        let (b, push, d2) = push-Sent st1 l c d1 (omega (arith, emptied, room)) in
        (
          record st1 { buf = b },
          rw (full_push st.buf c e) (rw run (rw push (rw printable refl))),
          d2,
        )
    | inr e ↦
        let fits = d.holds.fits in
        let (b, push, d1) = push-Sent st l c d (ground (arith, e, fits)) in
        (record st { buf = b }, rw push (rw printable refl), d1)
  ]

  put_chars-Sent :
      (s : Bytes) (st : Stream S) (l : Bytes)
      → Sent Has st l
      → All Printable s
      → (st' : Stream S) × (put_chars vfs s st ≡ some st') × Sent Has st' (l ++ s)
  unfolding put_chars
  put_chars-Sent [] st l d printable = (st, refl, rw (append-nil l) d)
  put_chars-Sent (c ∷ s) st l d printable =
      let (st1, run, d1) = fs_put_char-Sent st l c d printable.0 in
      let go = λ (st2 : Stream S) (d2 : Sent Has st2 (l ++ c ∷ [])).
        put_chars-Sent s st2 (l ++ c ∷ []) d2 printable.1 in
      let longer = append_assoc l (c ∷ []) s in
      elim (Bool-cases (st1.enable_line_buf && (c == b'\n'))) [
        | inl e ↦
            let (st2, flush, d2, _) = fs_flush-Sent st1 (l ++ c ∷ []) d1 in
            let (st3, rest, d3) = go st2 d2 in
            (st3, rw run (rw (e, flush, rest) refl), subst (Sent Has st3) longer d3)
        | inr e ↦
            let (st3, rest, d3) = go st1 d1 in
            (st3, rw run (rw (e, rest) refl), subst (Sent Has st3) longer d3)
      ]

  -- `fsPrintf` of a text of fewer than 128 bytes, none of which is NUL or -1, to a stream that is only written to: no assertion fails, the stream's bytes are then
  -- those from before with the text behind them, and the result is the text's length. A write of the file takes all bytes.
  pub fs_printf-Sent :
      (bf : ℕ → ℕ) (ps : List Piece) (t : Bytes) (st : Stream S) (l : Bytes)
      → Renders ps t
      → Lacks 0 t
      → All Printable t
      → length t < 128
      → Sent Has st l
      → (st' : Stream S) × (fs_printf vfs bf (spelled ps) (args_of ps) st ≡ some (length t, st'))
        × Sent Has st' (l ++ t)
  unfolding fs_printf
  fs_printf-Sent bf ps t st l r plain printable short d =
      let (m, run, spells, _) = vsnprintf-Renders bf 128 128 ps t r plain short short in
      let out = put_loop-Spells 129 m 0 t spells plain (omega arith) in
      let (st', put, d') = put_chars-Sent t st l d printable in
      (st', rw run (rw (out, put) refl), d')
