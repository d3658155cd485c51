-- ===== src/Path.antt =====
-- kernel/src/path.c: paths as C strings. Every result is a new string in memory that `alloc` has
-- cleared, so a copy of fewer bytes is terminated.
pub mod Join
pub mod Parts
mod Tests
use nju_os_lab.Prelude.{
  ℕ, zero, suc, ◌+◌, ◌-◌, ◌/◌, ◌^◌, Bool, true, false, Option, none, some, List, [], ◌∷◌, ◌++◌,
  ◌==◌, if◌then◌else◌, length, take, drop,
}
use nju_os_lab.Klib.Strings.{Bytes, strlen, strchr, strrchr}

abbrev pub slash : ℕ
slash = b'/'

-- The first byte of a string that is not empty, and the last; 0 is the NUL.
abbrev pub first : Bytes → ℕ
first [] = 0
first (c ∷ s) = c

abbrev pub last_from : ℕ → Bytes → ℕ
last_from prev [] = prev
last_from prev (c ∷ s) = last_from c s

abbrev pub drop_last : Bytes → Bytes
drop_last [] = []
drop_last (c ∷ []) = []
drop_last (c ∷ d ∷ s) = c ∷ drop_last (d ∷ s)

-- The byte before an allocated string: the last of its block header, which is the top byte of the
-- field `data`, `block_magic`.
abbrev pub header_byte : ℕ
header_byte = 31579846 / 2 ^ 24

unfoldable pub path_join : Bytes → Bytes → Bytes
unfolding strlen
path_join base child =
    if strlen base == 0
    then base
    else if strlen child == 0
    then child
    else if last_from 0 base == slash
    then if first child == slash then base ++ drop 1 child else base ++ child
    else if first child == slash
    then base ++ child
    else base ++ slash ∷ child

-- A last '/' is overwritten with NUL for the search, and restored. The length of the result is
-- `rp - buf + 1`, which is what `strrchr` of the model returns.
unfoldable pub path_get_directory : Bytes → Bytes
unfolding strlen strrchr
path_get_directory path =
    let buf = if last_from header_byte path == slash then drop_last path else path in
    elim (strrchr header_byte buf slash) [
      | none ↦ take (strlen path) path
      | some ind ↦ take ind path
    ]

-- A last '/' is overwritten with NUL for good.
unfoldable pub path_get_name : Bytes → Bytes
unfolding strrchr
path_get_name path =
    let buf = if last_from header_byte path == slash then drop_last path else path in
    elim (strrchr header_byte buf slash) [ none ↦ [] | some ind ↦ drop ind buf ]

-- The next name, or `NULL`, and the rest of the path behind it, or `NULL`.
unfoldable pub path_next_name : Bytes → Option Bytes × Option Bytes
unfolding strlen strchr
path_next_name path =
    let cur = if first path == slash then drop 1 path else path in
    if strlen cur == 0 then (none, none) else elim (strchr cur slash) [
      | none ↦ (some cur, none)
      | some tlen ↦ (some (take tlen cur), some (drop tlen cur))
    ]
