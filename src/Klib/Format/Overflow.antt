-- ===== src/Klib/Format/Overflow.antt =====
-- abstract-machine/libs/klib/src/stdio.c: `vsnprintf` behind a text that fills the buffer.
use nju_os_lab.Prelude.{
  ℕ, suc, ◌+◌, ◌≤◌, ◌<◌, ◌≡◌, ◌≢◌, refl, ◌∙◌, ap, false, none, some, List, [], ◌∷◌, ◌==◌, length,
  arith, inl, inr, Bool-cases,
}
use nju_os_lab.Klib.Strings.{Bytes}
use nju_os_lab.Klib.Strings.Search.{Lacks}
use nju_os_lab.Klib.Format.{
  Arg, text, convert, Printed, put_byte, next_out, put_text, vsn_round, vsn_loop, terminated,
  vsnprintf,
}
use nju_os_lab.Klib.Format.Pieces.{conversion_round}

-- The copy stops when `ret` is `n`, with `outp` at the last byte.
put_text_full :
    (n : ℕ) (s : Bytes) (p : Printed)
    → Lacks 0 s
    → p.ret < n
    → n ≤ p.ret + length s
    → ((put_text n s p).ret ≡ n) × ((put_text n s p).outp + 1 + p.ret ≡ p.outp + n)
unfolding put_text
put_text_full n [] p h below full = absurd (omega arith)
put_text_full n (c ∷ s) p h below full =
    let ne : (c == 0) ≡ false = ground (arith, h.0) in
    elim (Bool-cases (p.ret + 1 == n)) [
      | inl e ↦ rw (ne, e) (ground (arith, e), ground (arith, e))
      | inr e ↦
          let later : p.ret + 1 < n = ground (arith, e, below) in
          let (ret, outp) = put_text_full n s (next_out (put_byte c p)) h.1 later (omega arith) in
          rw (ne, e) (ret, omega (arith, outp))
    ]

literal_step :
    (fuel n c : ℕ) (fmt : Bytes) (args : List Arg) (p : Printed)
    → c ≢ b'%'
    → p.ret + 1 ≢ n
    → vsn_loop (suc fuel) n (c ∷ fmt) args p ≡ vsn_loop fuel n fmt args (next_out (put_byte c p))
unfolding vsn_loop vsn_round
literal_step fuel n c fmt args p ne more =
    let other : (c == b'%') ≡ false = ground (arith, ne) in
    let room : (p.ret + 1 == n) ≡ false = ground (arith, more) in rw (vsn_loop, other, room) refl

at_end : (fuel n : ℕ) (args : List Arg) (p : Printed) → vsn_loop (suc fuel) n [] args p ≡ some p
unfolding vsn_loop
at_end fuel n args p = refl

first_round :
    (n x y : ℕ) (s : Bytes) (p : Printed)
    → length s < 400
    → vsn_loop 5 n (b'%' ∷ b's' ∷ x ∷ y ∷ []) (text s ∷ []) p
      ≡ vsn_loop 4 n (x ∷ y ∷ []) [] (put_text n s p)
unfolding vsn_loop convert
first_round n x y s p short =
    rw (vsn_loop, conversion_round n none b's' (text s) s (x ∷ y ∷ []) [] p tt refl refl short) refl

-- `vsnprintf` does not keep to its bound: where the text of "%s" fills the buffer of `n` bytes and the format goes on with two bytes, the second one
-- is written to `out[n]`, and the result is `n + 2`.
pub vsnprintf_overflow :
    (out : ℕ → ℕ) (n x y : ℕ) (s : Bytes)
    → Lacks 0 s
    → 0 < n
    → n ≤ length s
    → length s < 400
    → x ≢ b'%'
    → y ≢ b'%'
    → (m : ℕ → ℕ) × (vsnprintf out n (b'%' ∷ b's' ∷ x ∷ y ∷ []) (text s ∷ []) ≡ some (n + 2, m))
      × (m n ≡ y)
unfolding vsnprintf convert
vsnprintf_overflow out n x y s plain pos_n full short hx hy =
    let p : Printed = record { out = out; outp = 0; ret = 0 } in
    let q = put_text n s p in
    let (ret, outp) = put_text_full n s p plain pos_n (omega arith) in
    let q1 = next_out (put_byte x q) in
    let q2 = next_out (put_byte y q1) in
    let first = first_round n x y s p short in
    let second = literal_step 3 n x (y ∷ []) [] q hx (λ e. absurd (omega (arith, e, ret))) in
    let third = literal_step 2 n y [] [] q1 hy (λ e. absurd (omega (arith, e, ret))) in
    (
      (terminated q2).1,
      rw (first ∙ second ∙ third ∙ at_end 1 n [] q2)
          (ap (λ l. some (l, (terminated q2).1)) (omega (arith, ret))),
      ground (arith, ret, outp),
    )
