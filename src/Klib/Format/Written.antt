-- ===== src/Klib/Format/Written.antt =====
-- abstract-machine/libs/klib/src/stdio.c: the string that `vsnprintf` leaves in memory, and what `printf` puts out.
use nju_os_lab.Prelude.{
  ℕ, zero, suc, ◌+◌, ◌≤◌, ◌<◌, ◌≡◌, refl, ◌∙◌, ap, true, false, none, some, List, [], ◌∷◌, ◌==◌,
  length, length-append, arith,
}
use nju_os_lab.Klib.Strings.{Bytes}
use nju_os_lab.Klib.Strings.Search.{Lacks}
use nju_os_lab.Klib.Format.{Printed, put_byte, next_out, terminated, vsnprintf, put_loop, printf}
use nju_os_lab.Klib.Format.Pieces.{
  Piece, lit, conv, Renders, spelled, args_of, digit_bytes, print_all, print_all_ret,
  print_all_outp, print_all_before, print_all_behind, vsn_loop_lem,
}

-- The C string in memory.
abbrev pub Spells : (ℕ → ℕ) → ℕ → Bytes → Type 0
Spells m i [] = m i ≡ 0
Spells m i (c ∷ s) = (m i ≡ c) × Spells m (i + 1) s

Spells-print_all : (s : Bytes) (p : Printed) → Spells (terminated (print_all s p)).1 p.outp s
Spells-print_all [] p = ground arith
Spells-print_all (c ∷ s) p =
    let p1 = next_out (put_byte c p) in
    let stays = print_all_before s p1 p.outp (omega arith) in
    let end = print_all_outp s p1 in (ground (arith, stays, end), Spells-print_all s p1)

length-spelled : (ps : List Piece) → length ps ≤ length (spelled ps)
length-spelled [] = omega arith
length-spelled (lit c ∷ ps) = let ih = length-spelled ps in omega (arith, ih)
length-spelled (conv none type arg ∷ ps) = let ih = length-spelled ps in omega (arith, ih)
length-spelled (conv (some ds) type arg ∷ ps) =
    let ih = length-spelled ps in
    let more = length-append (digit_bytes ds) (type ∷ spelled ps) in omega (arith, ih, more)

-- `vsnprintf` with a buffer that is longer than the text does not halt: it writes the text with a NUL behind it, changes nothing else, and returns the text's
-- length. The text has no NUL, and each conversion's text has fewer than 400 bytes.
pub vsnprintf-Renders :
    (out : ℕ → ℕ) (n k : ℕ) (ps : List Piece) (t : Bytes)
    → Renders ps t
    → Lacks 0 t
    → length t < n
    → length t < k
    → (m : ℕ → ℕ) × (vsnprintf out n (spelled ps) (args_of ps) ≡ some (length t, m))
      × Spells m 0 t
      × (m k ≡ out k)
unfolding vsnprintf
vsnprintf-Renders out n k ps t r plain room far =
    let p : Printed = record { out = out; outp = 0; ret = 0 } in
    let fuel = length-spelled ps in
    let ret = print_all_ret t p in
    let end = print_all_outp t p in
    let behind = print_all_behind t p k (omega arith) in
    (
      (terminated (print_all t p)).1,
      rw
          (vsn_loop_lem (length (spelled ps) + 1) n ps t p r (omega (arith, fuel)) plain
            (omega arith))
          (ap (λ l. some (l, (terminated (print_all t p)).1)) (ret ∙ omega arith)),
      Spells-print_all t p,
      ground (arith, behind, end),
    )

pub put_loop-Spells :
    (fuel : ℕ) (m : ℕ → ℕ) (i : ℕ) (t : Bytes)
    → Spells m i t
    → Lacks 0 t
    → length t < fuel
    → put_loop fuel m i ≡ some t
unfolding put_loop
put_loop-Spells zero m i t h plain lt = absurd (omega arith)
put_loop-Spells (suc fuel) m i [] h plain lt =
    let ended : (m i == 0) ≡ true = ground (arith, h) in rw ended refl
put_loop-Spells (suc fuel) m i (c ∷ t) h plain lt =
    let more : (m i == 0) ≡ false = ground (arith, h.0, plain.0) in
    rw (more, put_loop-Spells fuel m (i + 1) t h.1 plain.1 (omega arith), h.0) refl

-- `printf` puts out exactly the text of a format, if that has fewer than 800 bytes, and returns its length.
pub printf-Renders :
    (printf_buffer : ℕ → ℕ) (ps : List Piece) (t : Bytes)
    → Renders ps t
    → Lacks 0 t
    → length t < 800
    → printf printf_buffer (spelled ps) (args_of ps) ≡ some (length t, t)
unfolding printf
printf-Renders printf_buffer ps t r plain room =
    let (m, run, spells, _) = vsnprintf-Renders printf_buffer 800 800 ps t r plain room room in
    rw run (rw (put_loop-Spells 800 m 0 t spells plain room) refl)
