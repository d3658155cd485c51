-- ===== src/Klib/Format/Pieces.antt =====
-- abstract-machine/libs/klib/src/stdio.c: what `vsnprintf` writes for a format.
use nju_os_lab.Prelude.{
  ℕ, zero, suc, ◌+◌, ◌-◌, ◌*◌, ◌≤◌, ◌<◌, ◌≡◌, ◌≢◌, refl, ◌∙◌, ap, sym, true, false, Option, none,
  some, List, [], ◌∷◌, ◌++◌, ◌==◌, ltb, length, length-append, All, All-split, arith,
}
use nju_os_lab.Klib.Strings.{Bytes}
use nju_os_lab.Klib.Strings.Search.{Lacks}
use nju_os_lab.Klib.Format.{
  Arg, convert, is_digit, padded, fits_buffer, scan_width, scan_pad, with_width, Printed, put_byte,
  next_out, put_text, goes_on, vsn_round, vsn_loop,
}

-- The parts of a format: a byte that is printed, or a conversion with the digits of its width and its argument.
pub data Piece : Type 0 where
  lit : ℕ → Piece
  conv : Option (List ℕ) → ℕ → Arg → Piece

abbrev pub digit_bytes : List ℕ → Bytes
digit_bytes [] = []
digit_bytes (d ∷ ds) = (b'0' + d) ∷ digit_bytes ds

abbrev pub spelled_pad : Option (List ℕ) → Bytes → Bytes
spelled_pad none s = s
spelled_pad (some ds) s = b'0' ∷ (digit_bytes ds ++ s)

abbrev pub spelled : List Piece → Bytes
spelled [] = []
spelled (lit c ∷ ps) = c ∷ spelled ps
spelled (conv pad type arg ∷ ps) = b'%' ∷ spelled_pad pad (type ∷ spelled ps)

abbrev pub args_of : List Piece → List Arg
args_of [] = []
args_of (lit c ∷ ps) = args_of ps
args_of (conv pad type arg ∷ ps) = arg ∷ args_of ps

abbrev pub width_from : ℕ → List ℕ → ℕ
width_from acc [] = acc
width_from acc (d ∷ ds) = width_from (acc * 10 + d) ds

abbrev pub pad_of : Option (List ℕ) → Option ℕ
pad_of none = none
pad_of (some ds) = some (width_from 0 ds)

abbrev pub digits_of : Option (List ℕ) → List ℕ
digits_of none = []
digits_of (some ds) = ds

-- A text in which every part is written out, where all the conversions are possible.
pub data Renders : List Piece → Bytes → Type 0 where
  nothing : Renders [] []
  literal :
      (c : ℕ) (ps : List Piece) (t : Bytes) → c ≢ b'%' → Renders ps t → Renders (lit c ∷ ps) (c ∷ t)
  converted :
      (pad : Option (List ℕ)) (type : ℕ) (arg : Arg) (s : Bytes) (ps : List Piece) (t : Bytes)
      → All (λ d. d < 10) (digits_of pad)
      → is_digit type ≡ false
      → convert type arg ≡ some s
      → length (padded (pad_of pad) s) < 400
      → Renders ps t
      → Renders (conv pad type arg ∷ ps) (padded (pad_of pad) s ++ t)

abbrev pub print_all : Bytes → Printed → Printed
print_all [] p = p
print_all (c ∷ s) p = print_all s (next_out (put_byte c p))

print_all-append : (s t : Bytes) (p : Printed) → print_all (s ++ t) p ≡ print_all t (print_all s p)
print_all-append [] t p = refl
print_all-append (c ∷ s) t p = print_all-append s t (next_out (put_byte c p))

pub print_all_ret : (s : Bytes) (p : Printed) → (print_all s p).ret ≡ p.ret + length s
print_all_ret [] p = omega arith
print_all_ret (c ∷ s) p = let ih = print_all_ret s (next_out (put_byte c p)) in omega (arith, ih)

pub print_all_outp : (s : Bytes) (p : Printed) → (print_all s p).outp ≡ p.outp + length s
print_all_outp [] p = omega arith
print_all_outp (c ∷ s) p = let ih = print_all_outp s (next_out (put_byte c p)) in omega (arith, ih)

-- Printing changes nothing in front of `outp`, nor behind the text.
pub print_all_before :
    (s : Bytes) (p : Printed) (k : ℕ) → k < p.outp → (print_all s p).out k ≡ p.out k
print_all_before [] p k h = refl
print_all_before (c ∷ s) p k h =
    print_all_before s (next_out (put_byte c p)) k (omega arith) ∙ ground (arith, h)

pub print_all_behind :
    (s : Bytes) (p : Printed) (k : ℕ) → p.outp + length s ≤ k → (print_all s p).out k ≡ p.out k
print_all_behind [] p k h = refl
print_all_behind (c ∷ s) p k h =
    print_all_behind s (next_out (put_byte c p)) k (omega arith) ∙ ground (arith, h)

put_text-print_all :
    (n : ℕ) (s : Bytes) (p : Printed)
    → Lacks 0 s
    → p.ret + length s < n
    → put_text n s p ≡ print_all s p
unfolding put_text
put_text-print_all n [] p h room = refl
put_text-print_all n (c ∷ s) p h room =
    let ne : (c == 0) ≡ false = ground (arith, h.0) in
    let more : (p.ret + 1 == n) ≡ false = ground (arith, room) in
    rw (ne, more) (put_text-print_all n s (next_out (put_byte c p)) h.1 (omega arith))

scan_width_lem :
    (ds : List ℕ) (acc type : ℕ) (fmt : Bytes)
    → All (λ d. d < 10) ds
    → is_digit type ≡ false
    → scan_width acc (digit_bytes ds ++ type ∷ fmt) ≡ (width_from acc ds, type ∷ fmt)
unfolding scan_width
scan_width_lem [] acc type fmt h nd = rw nd refl
scan_width_lem (d ∷ ds) acc type fmt h nd =
    let digit : is_digit (b'0' + d) ≡ true = ground (arith, h.0) in
    let value : acc * 10 + (b'0' + d - b'0') ≡ acc * 10 + d = omega arith in
    rw (digit, value) (scan_width_lem ds (acc * 10 + d) type fmt h.1 nd)

scan_pad_lem :
    (pad : Option (List ℕ)) (type : ℕ) (fmt : Bytes)
    → All (λ d. d < 10) (digits_of pad)
    → is_digit type ≡ false
    → scan_pad (spelled_pad pad (type ∷ fmt)) ≡ some (pad_of pad, type ∷ fmt)
unfolding scan_pad
scan_pad_lem none type fmt h nd = rw nd refl
scan_pad_lem (some ds) type fmt h nd =
    ap (λ w. some (with_width w)) (scan_width_lem ds 0 type fmt h nd)

-- One part of the format takes one round.
pub conversion_round :
    (n : ℕ) (pad : Option (List ℕ)) (type : ℕ) (arg : Arg) (s fmt : Bytes) (args : List Arg)
    (p : Printed)
    → All (λ d. d < 10) (digits_of pad)
    → is_digit type ≡ false
    → convert type arg ≡ some s
    → length (padded (pad_of pad) s) < 400
    → vsn_round n b'%' (spelled_pad pad (type ∷ fmt)) (arg ∷ args) p
      ≡ some (goes_on fmt args (put_text n (padded (pad_of pad) s) p))
unfolding vsn_round fits_buffer
conversion_round n pad type arg s fmt args p h nd conversion short =
    let room : ltb (length (padded (pad_of pad) s)) 400 ≡ true = ground (arith, short) in
    rw (scan_pad_lem pad type fmt h nd) (rw (conversion, room) refl)

pub vsn_loop_lem :
    (fuel n : ℕ) (ps : List Piece) (t : Bytes) (p : Printed)
    → Renders ps t
    → length ps < fuel
    → Lacks 0 t
    → p.ret + length t < n
    → vsn_loop fuel n (spelled ps) (args_of ps) p ≡ some (print_all t p)
unfolding vsn_loop vsn_round
vsn_loop_lem zero n ps t p r far plain room = absurd (omega arith)
vsn_loop_lem (suc fuel) n _ _ p nothing far plain room = refl
vsn_loop_lem (suc fuel) n _ _ p (literal c ps t ne r) far plain room =
    let other : (c == b'%') ≡ false = ground (arith, ne) in
    let more : (p.ret + 1 == n) ≡ false = ground (arith, room) in
    rw (vsn_loop, other, more)
      (vsn_loop_lem fuel n ps t (next_out (put_byte c p)) r (omega arith) plain.1 (omega arith))
vsn_loop_lem (suc fuel) n _ _ p (converted pad type arg s ps t ds nd conversion short r) far plain
      room =
    let s' = padded (pad_of pad) s in
    let (first, later) = All-split (λ x. x ≢ 0) s' t plain in
    let sizes = length-append s' t in
    let ret = print_all_ret s' p in
    rw
      (
        vsn_loop,
        conversion_round n pad type arg s (spelled ps) (args_of ps) p ds nd conversion short,
        put_text-print_all n s' p first (omega (arith, sizes)),
      )
      (vsn_loop_lem fuel n ps t (print_all s' p) r (omega arith) later (omega (arith, sizes, ret))
        ∙ ap (λ q. some q) (sym (print_all-append s' t p)))
