-- ===== src/Streams.antt =====
-- kernel/src/io.c: the streams, which put a buffer in front of the calls of the file system.
pub mod Reading
pub mod Writing
mod Tests
use nju_os_lab.Prelude.{
  ℕ, zero, suc, ◌+◌, ◌-◌, ◌*◌, ◌^◌, ◌≤◌, ◌<◌, ◌≡◌, ◌≢◌, Bool, true, false, Option, none, some, List,
  [], ◌∷◌, ◌++◌, ◌==◌, ◌&&◌, if◌then◌else◌, ◌>>=◌, ◌>>◌, assert, length, ℤ, pos, negsuc, minus_one,
}
use nju_os_lab.Klib.Strings.{Bytes}
use nju_os_lab.Klib.Format.{Arg, vsnprintf, put_loop}
use nju_os_lab.ByteBuffer.{ByteBuffer, buffer_init, buffer_isempty, buffer_next, buffer_push}

-- What the streams use of `vfs`, on an open descriptor: `read` returns bytes, or -1 as `none`; `write` returns a number.
pub record FileCalls (S : Type 0) : Type 0 where
  pub read : ℕ → S → Option Bytes × S
  pub write : Bytes → S → ℕ × S

pub record Stream (S : Type 0) : Type 0 where
  pub buf : ByteBuffer
  pub enable_line_buf : Bool
  pub file : S

-- The stream of `fsOpen` on a descriptor.
unfoldable pub fs_open : {S : Type 0} → S → Stream S
fs_open file = record { buf = buffer_init 256; enable_line_buf = false; file = file }

-- Memory with bytes at its start.
unfoldable pub filled : Bytes → (ℕ → ℕ) → ℕ → ℕ
filled [] content k = content k
filled (c ∷ s) content zero = c
filled (c ∷ s) content (suc k) = filled s (λ j. content (j + 1)) k

-- The result of `read` as a `size_t` of 32 bits.
abbrev pub received : ByteBuffer → Option Bytes → ByteBuffer
received buf none = record buf { buf_pos = 0; buf_size = 2 ^ 32 - 1 }
received buf (some s) = record buf {
  content = filled s buf.content;
  buf_pos = 0;
  buf_size = length s;
}

abbrev pub slice : (ℕ → ℕ) → ℕ → ℕ → Bytes
slice content i zero = []
slice content i (suc n) = content i ∷ slice content (i + 1) n

abbrev pub is_minus_one : ℤ → Bool
is_minus_one (pos n) = false
is_minus_one (negsuc zero) = true
is_minus_one (negsuc (suc n)) = false

module _ {S : Type 0} (vfs : FileCalls S) where
  unfoldable pub refill : Stream S → Stream S
  refill st =
      let (r, file) = vfs.read st.buf.buf_cap st.file in
      record st { buf = received st.buf r; file = file }

  -- `continue_read`, whose result is whether the buffer is empty after it.
  unfoldable pub continue_read : Stream S → Stream S
  continue_read st = if buffer_isempty st.buf then refill st else st

  abbrev pub take_char : Stream S → ℤ × Stream S
  take_char st = let (c, buf) = buffer_next st.buf in (c, record st { buf = buf })

  abbrev pub take_or_end : Stream S → ℤ × Stream S
  take_or_end st = if buffer_isempty st.buf then (minus_one, st) else take_char st

  unfoldable pub fs_get_char : Stream S → ℤ × Stream S
  fs_get_char st = take_or_end (continue_read st)

  -- A round of the loop of `fsGetLine`, with the rounds after it.
  abbrev pub line_round : ℤ × Stream S → (Stream S → Bytes × ℕ × Stream S) → Bytes × ℕ × Stream S
  line_round (negsuc n, st) more = ([], 0, st)
  line_round (pos c, st) more =
      if c == b'\n' then ([], 1, st) else (c ∷ (more st).0, (more st).1 + 1, (more st).2)

  -- With `left` bytes to go: the bytes that are stored, `readed`, and the stream.
  unfoldable pub line_loop : ℕ → Stream S → Bytes × ℕ × Stream S
  line_loop zero st = ([], 0, st)
  line_loop (suc left) st = line_round (fs_get_char st) (line_loop left)

  -- The line, without its newline, or `none` for `NULL`. The NUL behind it may stand at `buf[size]`.
  unfoldable pub fs_get_line : ℕ → Stream S → Option Bytes × Stream S
  fs_get_line size st =
      let (line, readed, st') = line_loop size st in (if readed == 0 then none else some line, st')

  -- `none` is a failed assertion.
  abbrev pub flush_all : Stream S → Option (Stream S)
  flush_all st =
      let count = st.buf.buf_size - st.buf.buf_pos in
      let (wrd, file) = vfs.write (slice st.buf.content st.buf.buf_pos count) st.file in
      do
        assert (count == wrd)
        some (record st { buf = record st.buf { buf_pos = 0; buf_size = 0 }; file = file })

  unfoldable pub fs_flush : Stream S → Option (Stream S)
  fs_flush st = if buffer_isempty st.buf then some st else flush_all st

  abbrev pub push_again : ℕ → Stream S → Option (Stream S)
  push_again c st =
      let (r, buf) = buffer_push st.buf c in
      do assert (if is_minus_one r then false else true); some (record st { buf = buf })

  unfoldable pub fs_put_char : ℕ → Stream S → Option (Stream S)
  fs_put_char c st =
      let (r, buf) = buffer_push st.buf c in
      let full = (do st' ← fs_flush (record st { buf = buf }); push_again c st') in
      if is_minus_one r then full else some (record st { buf = buf })

  unfoldable pub put_chars : Bytes → Stream S → Option (Stream S)
  put_chars [] st = some st
  put_chars (c ∷ s) st = do
    st1 ← fs_put_char c st
    st2 ← if st1.enable_line_buf && (c == b'\n') then fs_flush st1 else some st1
    put_chars s st2

  -- With what `bf` has held. A format that overflows `bf` is left to `vsnprintf`.
  unfoldable pub fs_printf : (ℕ → ℕ) → Bytes → List Arg → Stream S → Option (ℕ × Stream S)
  fs_printf bf fmt args st = do
    (ret, m) ← vsnprintf bf 128 fmt args
    s ← put_loop 129 m 0
    st' ← put_chars s st
    some (ret, st')
