-- ===== src/Kvdb/Scan.antt =====
-- libkvdb/kvdb.c: how `find_db` reads the file, with what it uses of `fgets` and `sscanf`. The file has no NUL, since it
-- consists of C strings.
pub mod Lines
pub mod Headers
use nju_os_lab.Prelude.{
  ℕ, zero, suc, ◌+◌, ◌*◌, ◌-◌, ◌^◌, Bool, true, false, Option, none, some, List, [], ◌∷◌, ◌++◌,
  ◌==◌, ◌&&◌, ◌||◌, not, ltb, leb, if◌then◌else◌, length, take,
}
use nju_os_lab.Klib.Strings.{Bytes}

-- `strcmp(s, t) == 0`.
unfoldable pub same_bytes : Bytes → Bytes → Bool
same_bytes [] [] = true
same_bytes [] (y ∷ t) = false
same_bytes (x ∷ s) [] = false
same_bytes (x ∷ s) (y ∷ t) = (x == y) && same_bytes s t

-- `fgets` into `n + 1` bytes: the bytes that are read, and the rest of the file. It returns `NULL` where it reads none.
unfoldable pub fgets : ℕ → Bytes → Bytes × Bytes
fgets zero file = ([], file)
fgets (suc n) [] = ([], [])
fgets (suc n) (c ∷ file) =
    let (line, rest) = fgets n file in if c == b'\n' then (c ∷ [], file) else (c ∷ line, rest)

-- What `sscanf` with "%d:%[^\n]\n" reads. A conversion fails unless it takes a byte.
pub data Header : Type 0 where
  unmatched : Header
  header : Bool → ℕ → Bytes → Header

unfoldable pub is_space : ℕ → Bool
is_space c = (c == b' ') || (leb 9 c && leb c 13)

abbrev pub is_digit : ℕ → Bool
is_digit c = leb b'0' c && leb c b'9'

unfoldable pub skip_space : Bytes → Bytes
skip_space [] = []
skip_space (c ∷ s) = if is_space c then skip_space s else c ∷ s

unfoldable pub scan_digits : ℕ → Bytes → ℕ × Bytes
scan_digits acc [] = (acc, [])
scan_digits acc (c ∷ s) =
    let rest = scan_digits (acc * 10 + (c - b'0')) s in if is_digit c then rest else (acc, c ∷ s)

unfoldable pub to_newline : Bytes → Bytes
to_newline [] = []
to_newline (c ∷ s) = if c == b'\n' then [] else c ∷ to_newline s

abbrev pub with_key : Bool → ℕ → Bytes → Header
with_key minus n [] = unmatched
with_key minus n (c ∷ key) = header minus n (c ∷ key)

-- From the colon on.
unfoldable pub scan_key : Bool → ℕ × Bytes → Header
scan_key minus (n, []) = unmatched
scan_key minus (n, c ∷ s) = if c == b':' then with_key minus n (to_newline s) else unmatched

-- The number behind its sign.
unfoldable pub scan_number : Bool → Bytes → Header
scan_number minus [] = unmatched
scan_number minus (c ∷ s) = if is_digit c then scan_key minus (scan_digits 0 (c ∷ s)) else unmatched

unfoldable pub scan_sign : Bytes → Header
scan_sign [] = unmatched
scan_sign (c ∷ s) =
    if c == b'-'
    then scan_number true s
    else if c == b'+'
    then scan_number false s
    else scan_number false (c ∷ s)

unfoldable pub scan_header : Bytes → Header
scan_header line = scan_sign (skip_space line)

-- What is behind the header of the key: the value and the end mark. A string ends at the NUL that is put behind
-- `vlen` bytes, or behind 3 bytes, or where the line ends.
abbrev pub take_end : Bytes → Option Bytes → Bytes × Bytes → Bytes × Option Bytes
take_end value res (end, rest) =
    if same_bytes (take 3 end) (b'E' ∷ b'N' ∷ b'D' ∷ []) then (rest, some value) else (rest, res)

abbrev pub take_value : ℕ → Option Bytes → Bytes × Bytes → Bytes × Option Bytes
take_value vlen res ([], rest) = (rest, res)
take_value vlen res (c ∷ line, rest) = take_end (take vlen (c ∷ line)) res (fgets 9 rest)

-- One round of the loop: the rest of the file, and `res`. `none`: a length that is negative or no `int` that one can
-- add 5 to, where the code writes outside of its memory.
unfoldable pub after_header : Bytes → Option Bytes → Header → Bytes → Option (Bytes × Option Bytes)
after_header key res unmatched rest = some (rest, res)
after_header key res (header minus vlen found) rest =
    if same_bytes key found
    then if (minus && not (vlen == 0)) || leb (2 ^ 31 - 5) vlen
      then none
      else some (take_value vlen res (fgets (vlen + 4) rest))
    else some (rest, res)

abbrev pub next_line : Bytes → Option Bytes → Bytes × Bytes → Option (Bytes × Option Bytes)
next_line key res (buf, rest) = after_header key res (scan_header buf) rest

unfoldable pub scan_round : Bytes → Bytes → Option Bytes → Option (Bytes × Option Bytes)
scan_round key file res = next_line key res (fgets 499 file)

pub data Scanned : Type 0 where
  returned : Option Bytes → Scanned
  undefined unfinished : Scanned

-- The loop, on fuel. A round at the end of the file changes nothing and ends the loop, so the loop ends there.
unfoldable pub scan_loop : Bytes → ℕ → Bytes → Option Bytes → Scanned
scan_loop key zero file res = Scanned.unfinished
scan_loop key (suc fuel) [] res = Scanned.returned res
scan_loop key (suc fuel) (c ∷ file) res = elim (scan_round key (c ∷ file) res) [
  | none ↦ Scanned.undefined
  | some (rest, res') ↦ scan_loop key fuel rest res'
]

-- Each round takes a byte at least.
unfoldable pub scan_file : Bytes → Bytes → Scanned
scan_file key file = scan_loop key (length file + 1) file none
