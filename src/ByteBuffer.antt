-- ===== src/ByteBuffer.antt =====
-- kernel/src/buffer.c: the byte buffer. `content` has `buf_cap` bytes.
pub mod Queue
mod Tests
use nju_os_lab.Prelude.{ℕ, ◌+◌, ◌%◌, ◌==◌, leb, Bool, if◌then◌else◌, ℤ, pos, minus_one}
use nju_os_lab.Klib.Strings.{char_diff}

pub record ByteBuffer : Type 0 where
  pub content : ℕ → ℕ
  pub buf_cap : ℕ
  pub buf_pos : ℕ
  pub buf_size : ℕ

-- The memory that `alloc` returns is cleared.
unfoldable pub buffer_init : ℕ → ByteBuffer
buffer_init cap = record { content = λ k. 0; buf_cap = cap; buf_pos = 0; buf_size = 0 }

unfoldable pub buffer_isempty : ByteBuffer → Bool
buffer_isempty buf = leb buf.buf_size buf.buf_pos

-- A byte as a `char`, which is signed.
abbrev pub char_value : ℕ → ℤ
char_value c = char_diff c 0

unfoldable pub buffer_peek : ByteBuffer → ℤ
buffer_peek buf = if buffer_isempty buf then minus_one else char_value (buf.content buf.buf_pos)

unfoldable pub buffer_next : ByteBuffer → ℤ × ByteBuffer
buffer_next buf =
    if buffer_isempty buf
    then (minus_one, buf)
    else (pos (buf.content buf.buf_pos), record buf { buf_pos = buf.buf_pos + 1 })

unfoldable pub buffer_push : ByteBuffer → ℕ → ℤ × ByteBuffer
buffer_push buf c = if buf.buf_size == buf.buf_cap then (minus_one, buf) else (
  char_value c,
  record buf {
    content = λ k. if k == buf.buf_size then c else buf.content k;
    buf_size = buf.buf_size + 1;
  },
)
