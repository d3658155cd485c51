-- ===== src/Klib/Format.antt =====
-- abstract-machine/libs/klib/src/stdio.c: `vsnprintf` and the functions that call it. The arguments come as a list.
pub mod Digits
pub mod Pieces
pub mod Written
pub mod Overflow
mod Tests
use nju_os_lab.Prelude.{
  ℕ, zero, suc, ◌+◌, ◌-◌, ◌*◌, ◌/◌, ◌%◌, ◌^◌, Bool, true, false, Option, none, some, List, [], ◌∷◌,
  ◌++◌, ◌==◌, ◌&&◌, ltb, leb, if◌then◌else◌, ◌>>=◌, length, replicate, ℤ, pos, negsuc, assert, ◌>>◌,
}
use nju_os_lab.Klib.Strings.{Bytes}

-- An argument. `scaled` is a `double` as the code converts it, `(int32_t)(var * 10000)`.
pub data Arg : Type 0 where
  int scaled : ℤ → Arg
  word pointer char : ℕ → Arg
  text : Bytes → Arg

-- A character of `presentation`.
abbrev pub digit_char : ℕ → ℕ
digit_char d = if ltb d 10 then b'0' + d else b'a' + (d - 10)

-- The loops `do ... while (var)`, which write to the left of what is there. 20 rounds are enough for 64 bits.
unfoldable pub push_digits : ℕ → ℕ → ℕ → Bytes → Bytes
push_digits zero base var s = s
push_digits (suc fuel) base var s =
    let more = push_digits fuel base (var / base) (digit_char (var % base) ∷ s) in
    if var / base == 0 then digit_char (var % base) ∷ s else more

abbrev pub number_text : ℕ → ℕ → Bytes
number_text base var = push_digits 20 base var []

-- The four decimals of `%f`.
abbrev pub push_decimals : ℕ → ℕ → Bytes → Bytes
push_decimals zero var s = s
push_decimals (suc n) var s = push_decimals n (var / 10) (digit_char (var % 10) ∷ s)

abbrev pub scaled_text : ℕ → Bytes
scaled_text var = push_digits 20 10 (var / 10000) (b'.' ∷ push_decimals 4 var [])

-- `-var` of the least `int32_t` overflows.
abbrev pub negated : ℕ → (ℕ → Bytes) → Option Bytes
negated var show = if ltb var (2 ^ 31) then some (b'-' ∷ show var) else none

-- The text of a conversion. `none`: the type is unknown, which fails an assertion, or the argument has another type.
unfoldable pub convert : ℕ → Arg → Option Bytes
convert type (int (pos n)) = if type == b'd' then some (number_text 10 n) else none
convert type (int (negsuc n)) = if type == b'd' then negated (n + 1) (number_text 10) else none
convert type (scaled (pos n)) = if type == b'f' then some (scaled_text n) else none
convert type (scaled (negsuc n)) = if type == b'f' then negated (n + 1) scaled_text else none
convert type (word n) =
    if type == b'u'
    then some (number_text 10 n)
    else if type == b'x'
    then some (number_text 16 n)
    else none
convert type (pointer n) = if type == b'p' then some (b'0' ∷ b'x' ∷ number_text 16 n) else none
convert type (char c) = if type == b'c' then some (c ∷ []) else none
convert type (text s) = if type == b's' then some s else none

abbrev pub is_digit : ℕ → Bool
is_digit c = leb b'0' c && leb c b'9'

abbrev pub buffer_size : ℕ
buffer_size = 400

-- The padding: nothing, or zeros to the left up to a width. `buffer` has room for its size less the NUL; a longer text is written
-- outside of it.
abbrev pub padded : Option ℕ → Bytes → Bytes
padded none s = s
padded (some width) s = replicate (width - length s) b'0' ++ s

unfoldable pub fits_buffer : Bytes → Option Bytes
fits_buffer s = if ltb (length s) buffer_size then some s else none

-- The width, and what is behind it.
unfoldable pub scan_width : ℕ → Bytes → ℕ × Bytes
scan_width acc [] = (acc, [])
scan_width acc (c ∷ fmt) =
    let rest = scan_width (acc * 10 + (c - b'0')) fmt in if is_digit c then rest else (acc, c ∷ fmt)

abbrev pub with_width : ℕ × Bytes → Option ℕ × Bytes
with_width (width, fmt) = (some width, fmt)

-- What is between the '%' and the type. `none`: a width that does not start with 0 fails an assertion.
unfoldable pub scan_pad : Bytes → Option (Option ℕ × Bytes)
scan_pad [] = some (none, [])
scan_pad (c ∷ fmt) =
    if is_digit c
    then if c == b'0' then some (with_width (scan_width 0 fmt)) else none
    else some (none, c ∷ fmt)

-- The memory from `out` on, `outp - out`, and `ret`.
pub record Printed : Type 0 where
  pub out : ℕ → ℕ
  pub outp : ℕ
  pub ret : ℕ

abbrev pub put_byte : ℕ → Printed → Printed
put_byte c p = record p { out = λ k. if k == p.outp then c else p.out k; ret = p.ret + 1 }

abbrev pub next_out : Printed → Printed
next_out p = record p { outp = p.outp + 1 }

-- The loop that copies the text of a conversion. Its `break` leaves `outp` where it is.
unfoldable pub put_text : ℕ → Bytes → Printed → Printed
put_text n [] p = p
put_text n (c ∷ s) p =
    let rest = put_text n s (next_out (put_byte c p)) in
    if c == 0 then p else if p.ret + 1 == n then put_byte c p else rest

-- What a round does: the loop goes on with the rest of the format and of the arguments, or it ends.
pub data Next : Type 0 where
  goes_on : Bytes → List Arg → Printed → Next
  ends : Printed → Next

abbrev pub convert_next : ℕ → Option ℕ → Bytes → List Arg → Printed → Option Next
convert_next n pad [] args p = none
convert_next n pad (type ∷ fmt) [] p = none
convert_next n pad (type ∷ fmt) (arg ∷ args) p = do
  s ← convert type arg
  s' ← fits_buffer (padded pad s)
  some (goes_on fmt args (put_text n s' p))

unfoldable pub vsn_round : ℕ → ℕ → Bytes → List Arg → Printed → Option Next
vsn_round n cur fmt args p =
    let literal = next_out (put_byte cur p) in
    let conversion = (do (pad, fmt') ← scan_pad fmt; convert_next n pad fmt' args p) in
    if cur == b'%'
    then conversion
    else if p.ret + 1 == n
    then some (ends literal)
    else some (goes_on fmt args literal)

-- The loop over the format; each round takes a byte of it at least.
unfoldable pub vsn_loop : ℕ → ℕ → Bytes → List Arg → Printed → Option Printed
vsn_loop zero n fmt args p = none
vsn_loop (suc fuel) n [] args p = some p
vsn_loop (suc fuel) n (cur ∷ fmt) args p = elim (vsn_round n cur fmt args p) [
  | none ↦ none
  | some (goes_on fmt' args' p') ↦ vsn_loop fuel n fmt' args' p'
  | some (ends p') ↦ some p'
]

-- `none` halts. `out` is the memory before the call; the result is `ret` and the memory.
abbrev pub terminated : Printed → ℕ × (ℕ → ℕ)
terminated p = (p.ret, λ k. if k == p.outp then 0 else p.out k)

unfoldable pub vsnprintf : (ℕ → ℕ) → ℕ → Bytes → List Arg → Option (ℕ × (ℕ → ℕ))
vsnprintf out n fmt args = do
  p ← vsn_loop (length fmt + 1) n fmt args (record { out = out; outp = 0; ret = 0 })
  some (terminated p)

-- `n` is -1, the greatest `size_t`; `size_bits` is 32 or 64.
unfoldable pub sprintf : ℕ → (ℕ → ℕ) → Bytes → List Arg → Option (ℕ × (ℕ → ℕ))
sprintf size_bits out fmt args = vsnprintf out (2 ^ size_bits - 1) fmt args

-- The loop of `printf`, which hands the bytes to `_putc`. `none`: the end of the fuel.
unfoldable pub put_loop : ℕ → (ℕ → ℕ) → ℕ → Option Bytes
put_loop zero m t = none
put_loop (suc fuel) m t =
    let more = (do s ← put_loop fuel m (t + 1); some (m t ∷ s)) in
    if m t == 0 then some [] else more

-- With what `printf_buffer` has held; the result is `ret` and what is put out.
unfoldable pub printf : (ℕ → ℕ) → Bytes → List Arg → Option (ℕ × Bytes)
printf printf_buffer fmt args = do
  (ret, m) ← vsnprintf printf_buffer (2 * buffer_size) fmt args
  s ← put_loop (2 * buffer_size) m 0
  some (ret, s)

unfoldable pub puts : (ℕ → ℕ) → Bytes → Option (ℕ × Bytes)
puts printf_buffer s = do
  (ret, out) ← printf printf_buffer (b'%' ∷ b's' ∷ b'\n' ∷ []) (text s ∷ [])
  some (0, out)
