-- ===== src/Klib/Strings.antt =====
-- abstract-machine/libs/klib/src/string.c: comparison and search. A C string is the list of its
-- bytes before the NUL, none of which is 0.
pub mod Compare
pub mod Search
use nju_os_lab.Prelude.{
  ℕ, zero, suc, ◌+◌, Bool, true, false, Option, none, some, List, [], ◌∷◌, ◌==◌, leb, if◌then◌else◌,
  length, ℤ, pos, sub_ℕ, is_zero,
}

abbrev pub Bytes : Type 0
Bytes = List ℕ

unfoldable pub strlen : Bytes → ℕ
strlen s = length s

-- The difference of two `char` values, which are signed on x86.
abbrev pub char_diff : ℕ → ℕ → ℤ
char_diff a b = sub_ℕ (a + (if leb 128 b then 256 else 0)) (b + (if leb 128 a then 256 else 0))

unfoldable pub strcmp : Bytes → Bytes → ℤ
strcmp [] [] = pos 0
strcmp [] (y ∷ t) = char_diff 0 y
strcmp (x ∷ s) [] = char_diff x 0
strcmp (x ∷ s) (y ∷ t) = if x == y then strcmp s t else char_diff x y

unfoldable pub strncmp : Bytes → Bytes → ℕ → ℤ
strncmp s t zero = pos 0
strncmp [] [] (suc n) = pos 0
strncmp [] (y ∷ t) (suc n) = char_diff 0 y
strncmp (x ∷ s) [] (suc n) = char_diff x 0
strncmp (x ∷ s) (y ∷ t) (suc n) = if x == y then strncmp s t n else char_diff x y

unfoldable pub streq : Bytes → Bytes → Bool
streq s t = is_zero (strcmp s t)

unfoldable pub strneq : Bytes → Bytes → ℕ → Bool
strneq s t n = is_zero (strncmp s t n)

-- The index of the first occurrence; `c` is not 0.
unfoldable pub strchr : Bytes → ℕ → Option ℕ
strchr [] c = none
strchr (x ∷ s) c =
    let later = strchr s c in
    if x == c then some 0 else elim later [ none ↦ none | some i ↦ some (suc i) ]

-- The scan runs down from the last byte. If it finds nothing it ends one byte before the string,
-- and the last test reads that byte, `prev`. The result is `ts - s + 1`.
unfoldable pub strrchr : ℕ → Bytes → ℕ → Option ℕ
strrchr prev [] c = if prev == c then some 0 else none
strrchr prev (x ∷ s) c = elim (strrchr x s c) [
  | some i ↦ some (suc i)
  | none ↦ if prev == c then some 0 else none
]
