-- ===== src/ByteBuffer/Tests.antt =====
-- kernel/src/buffer.c: runs of the byte buffer, and each theorem at an input.
use nju_os_lab.Prelude.{◌≡◌, refl, [], ◌∷◌, minus_one}
use nju_os_lab.ByteBuffer.{buffer_init, buffer_push, buffer_peek, buffer_isempty}
use nju_os_lab.ByteBuffer.Queue.{push_all}

-- The byte 255 is pushed with the result -1, and a look at it gives -1 as well.
push_255 : (buffer_push (buffer_init 4) 255).0 ≡ minus_one
unfolding buffer_push buffer_init
push_255 = refl

peek_255 : buffer_peek (push_all (255 ∷ []) (buffer_init 4)) ≡ minus_one
unfolding buffer_push buffer_init buffer_peek buffer_isempty push_all
peek_255 = refl
