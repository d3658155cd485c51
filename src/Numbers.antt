-- ===== src/Numbers.antt =====
-- kernel/src/string.c: numbers in decimal.
pub mod Decimal
mod Tests
use nju_os_lab.Prelude.{
  ℕ, zero, suc, ◌+◌, ◌-◌, ◌*◌, ◌^◌, Bool, true, false, Option, none, some, List, [], ◌∷◌, ◌==◌,
  ◌&&◌, ltb, leb, if◌then◌else◌, ℤ, pos, negsuc, minus_one,
}
use nju_os_lab.Klib.Strings.{Bytes}

-- `*res * f` for a number that is not negative.
abbrev pub signed : Bool → ℕ → ℤ
signed true (suc n) = negsuc n
signed _ n = pos n

-- The loop, with `*res` and whether `f` is -1. The result is the return value and `*res`; `none`: an
-- `int64_t` overflowed.
unfoldable pub atoi_loop : Bytes → ℕ → Bool → Option (ℤ × ℤ)
atoi_loop [] acc minus = some (pos 0, signed minus acc)
atoi_loop (c ∷ s) acc minus =
    let signed_rest = atoi_loop s acc true in
    let rest = atoi_loop s (acc * 10 + c - b'0') minus in
    if c == b'-'
    then signed_rest
    else if leb b'0' c && leb c b'9'
    then if ltb (acc * 10 + c) (2 ^ 63) then rest else none
    else some (minus_one, pos acc)

unfoldable pub atoi : Bytes → Option (ℤ × ℤ)
atoi s = atoi_loop s 0 false
