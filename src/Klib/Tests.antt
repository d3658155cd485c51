-- ===== src/Klib/Tests.antt =====
-- Runs of the string functions, and each theorem at an input.
use nju_os_lab.Prelude.{
  ℕ, zero, suc, ◌+◌, ◌<◌, ◌≡◌, refl, arith, ◌≢◌, [], ◌∷◌, some, if◌then◌else◌, ◌==◌, pos, minus_one,
}
use nju_os_lab.Klib.Memory.{Mem, strncpy, memmove, copy_down, copy_pad}
use nju_os_lab.Klib.Memory.Blocks.{Moved}
use nju_os_lab.Klib.Memory.Bounded.{strncpy-Moved}
use nju_os_lab.Klib.Strings.{Bytes, strcmp, strncmp, strchr, strrchr}
use nju_os_lab.Klib.Strings.Search.{FirstAt, strchr-FirstAt}

abbrev ab : Bytes
ab = 97 ∷ 98 ∷ []

abbrev ac : Bytes
ac = 97 ∷ 99 ∷ []

-- "ab" at address 10, then a NUL.
abbrev small : Mem
small a = if a == 10 then 97 else if a == 11 then 98 else if a == 20 then 7 else 0

strncpy_runs : strncpy 20 10 1 small 20 ≡ 97
unfolding strncpy copy_pad
strncpy_runs = refl

strcmp_runs :
    (strcmp (97 ∷ []) (98 ∷ []) ≡ minus_one) × (strncmp (97 ∷ 1 ∷ []) (97 ∷ 2 ∷ []) 1 ≡ pos 0)
unfolding strcmp strncmp
strcmp_runs = (refl, refl)

search_runs :
    (strchr (1 ∷ 47 ∷ 2 ∷ 47 ∷ []) 47 ≡ some 1) × (strrchr 1 (1 ∷ 47 ∷ 2 ∷ 47 ∷ []) 47 ≡ some 4)
unfolding strchr strrchr
search_runs = (refl, refl)

memmove_runs : (memmove 11 10 2 small 11 ≡ 97) × (memmove 11 10 2 small 12 ≡ 98)
unfolding memmove copy_down
memmove_runs = (refl, refl)

strncpy-Moved_example : Moved 20 10 1 small (strncpy 20 10 1 small)
strncpy-Moved_example = strncpy-Moved 20 10 1 small (omega arith) one (omega arith)
  where
    one : (i : ℕ) → i < 1 → small (10 + i) ≢ 0
    one zero h = omega arith
    one (suc i) h = absurd (omega arith)

strchr-FirstAt_example : FirstAt (1 ∷ 47 ∷ 2 ∷ []) 47 (strchr (1 ∷ 47 ∷ 2 ∷ []) 47)
strchr-FirstAt_example = strchr-FirstAt (1 ∷ 47 ∷ 2 ∷ []) 47
