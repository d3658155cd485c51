-- ===== src/Procfs/Parts.antt =====
-- kernel/src/vfs/procfs.c: a file that is read in two parts.
use nju_os_lab.Prelude.{
  ℕ, ◌+◌, ◌-◌, ◌^◌, ◌<◌, ◌≡◌, refl, false, Option, none, some, [], ◌++◌, leb, length, take, drop,
  append-nil, arith, pos,
}
use nju_os_lab.Klib.Strings.{Bytes}
use nju_os_lab.Klib.Memory.Copy.{Holds}
use nju_os_lab.Procfs.{Task, InfoType, World, smaller, inode_read}
use nju_os_lab.Procfs.Reads.{
  reading, Apart, read_behind, Holds-drop, length-drop, length-take, take_whole,
}

past_end :
    (w : World) (type : InfoType) (obj : Option Task) (a size o buf n : ℕ)
    → size < o
    → inode_read buf n (reading type obj a size o) w ≡ none
unfolding inode_read
past_end w type obj a size o buf n lt =
    let past : leb o size ≡ false = ground (arith, lt) in rw past refl

-- A task reads an open file into a buffer of `n` bytes that a NUL follows and that does not touch the text. The text has more than `n` bytes, and fewer than twice as many. The
-- first read returns `n` and the first `n` bytes. The second one returns `n` again: behind the rest of the text it has counted what the first one left in the buffer.
-- The third one halts, since the offset is behind the text.
pub third_read_halts :
    (w : World) (type : InfoType) (obj : Option Task) (a buf n : ℕ) (t : Bytes)
    → Holds w.mem a t
    → Apart buf n a t
    → n < length t
    → length t < n + n
    → n < 2 ^ 30
    → w.mem (buf + n) ≡ 0
    → (w1 w2 : World) × (inode_read buf n (reading type obj a (length t) 0) w
        ≡ some (pos n, reading type obj a (length t) n, w1))
      × Holds w1.mem buf (take n t)
      × (inode_read buf n (reading type obj a (length t) n) w1
          ≡ some (pos n, reading type obj a (length t) (n + n), w2))
      × Holds w2.mem buf (drop n t ++ drop (length t - n) (take n t))
      × (inode_read buf n (reading type obj a (length t) (n + n)) w2 ≡ none)
third_read_halts w type obj a buf n t held apart more less small clean =
    let full : smaller (length t - 0) n ≡ n = ground (arith, more) in
    let (m1, e1, b1, h1) =
      read_behind w type obj a t held 0 buf n n [] full apart (omega arith) (omega arith) clean
        (omega arith) in
    let first : Holds m1 buf (take n t) = rw (append-nil (take n t)) at b1 in
    let count1 : n + 0 ≡ n = omega arith in
    let start : 0 + n ≡ n = omega arith in
    let w1 : World = record w { mem = m1 } in
    let rem : smaller (length t - n) n ≡ length t - n = ground (arith, less) in
    let taken = length-take n t (omega arith) in
    let behind = Holds-drop (length t - n) buf m1 (take n t) first (omega (arith, taken)) in
    let left = length-drop (length t - n) (take n t) (omega (arith, taken)) in
    let (m2, e2, b2, h2) =
      read_behind w1 type obj a t h1 n buf n (length t - n) (drop (length t - n) (take n t)) rem
        apart more (omega arith) behind (omega (arith, left, taken)) in
    let count2 : length t - n + length (drop (length t - n) (take n t)) ≡ n =
      omega (arith, left, taken) in
    let all = take_whole (length t - n) (drop n t) (omega (arith, length-drop n t (omega arith))) in
    (
      w1,
      record w1 { mem = m2 },
      rw (count1, start) at e1,
      first,
      rw count2 at e2,
      rw all at b2,
      past_end _ type obj a (length t) (n + n) buf n less,
    )
