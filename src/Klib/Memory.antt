-- ===== src/Klib/Memory.antt =====
-- abstract-machine/libs/klib/src/string.c: the functions that write memory. A pointer is an
-- address, and addresses do not wrap around here.
pub mod Blocks
pub mod Copy
pub mod Bounded
use nju_os_lab.Prelude.{
  ◌>>=◌, ℕ, zero, suc, ◌+◌, ◌%◌, Bool, true, false, Option, none, some, ◌&&◌, ◌==◌, ltb,
  if◌then◌else◌, ℤ, pos, minus_one,
}

abbrev pub Mem : Type 0
Mem = ℕ → ℕ

abbrev pub store : Mem → ℕ → ℕ → Mem
store m a v b = if a == b then v else m b

-- Each loop recurs on the rounds that it has left.
unfoldable pub memset : ℕ → ℕ → ℕ → Mem → Mem
memset v c zero m = m
memset v c (suc n) m = memset (v + 1) c n (store m v (c % 256))

unfoldable pub memcpy : ℕ → ℕ → ℕ → Mem → Mem
memcpy out src zero m = m
memcpy out src (suc n) m = memcpy (out + 1) (src + 1) n (store m out (m src))

-- The loop of `memmove` that runs down. It makes `n` rounds, since `q` ends below `in`.
unfoldable pub copy_down : ℕ → ℕ → ℕ → Mem → Mem
copy_down out src zero m = m
copy_down out src (suc n) m = copy_down out src n (store m (out + n) (m (src + n)))

unfoldable pub memmove : ℕ → ℕ → ℕ → Mem → Mem
memmove out src n m =
    if ltb src out && ltb out (src + n) then copy_down out src n m else memcpy out src n m

-- The loop advances `s1` and `s2`, and reads through `_s1` and `_s2`, which stay.
unfoldable pub memcmp : ℕ → ℕ → ℕ → Mem → ℤ
memcmp s1 s2 zero m = pos 0
memcmp s1 s2 (suc n) m =
    let rest = memcmp s1 s2 n m in
    if ltb (m s1) (m s2) then minus_one else if ltb (m s2) (m s1) then pos 1 else rest

-- The copy stops behind the NUL. `none`: the fuel ran out.
unfoldable pub strcpy : ℕ → ℕ → ℕ → Mem → Option Mem
strcpy zero dst src m = none
strcpy (suc fuel) dst src m =
    let m' = store m dst (m src) in
    let rest = strcpy fuel (dst + 1) (src + 1) m' in if m src == 0 then some m' else rest

-- The second loop of `strncpy`.
unfoldable pub pad : ℕ → ℕ → Mem → Mem
pad zero sc m = m
pad (suc n) sc m = pad n (sc + 1) (store m sc 0)

-- Both loops; the argument is `n - i`. When the copied byte is the NUL, `sc` has moved on and `i`
-- has not.
unfoldable pub copy_pad : ℕ → ℕ → ℕ → Mem → Mem
copy_pad zero sc su m = m
copy_pad (suc k) sc su m =
    let m' = store m sc (m su) in
    let rest = copy_pad k (sc + 1) (su + 1) m' in
    let padded = pad (suc k) (sc + 1) m' in if m su == 0 then padded else rest

unfoldable pub strncpy : ℕ → ℕ → ℕ → Mem → Mem
strncpy dst src n m = if n == 0 then store m dst 0 else copy_pad n dst src m

-- `substr` is `strncpy` from an offset.
unfoldable pub substr : ℕ → ℕ → ℕ → ℕ → Mem → Mem
substr dst src from count m = strncpy dst (src + from) count m

-- `strlen` on memory, with the bytes that it may look at.
unfoldable pub strlen_at : ℕ → Mem → ℕ → Option ℕ
strlen_at zero m s = none
strlen_at (suc fuel) m s =
    let longer = (do n ← strlen_at fuel m (s + 1); some (n + 1)) in
    if m s == 0 then some 0 else longer

-- `strcat`: the copy starts at the NUL of the target. The loops take the fuel that `strlen` and `strcpy` take.
unfoldable pub strcat : ℕ → ℕ → ℕ → Mem → Option Mem
strcat fuel dst src m = elim (strlen_at fuel m dst) [
  | none ↦ none
  | some n ↦ strcpy fuel (dst + n) src m
]
