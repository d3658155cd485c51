-- ===== src/Numbers/Decimal.antt =====
-- kernel/src/string.c: `atoi` reads decimal notation.
use nju_os_lab.Prelude.{
  ℕ, suc, ◌+◌, ◌-◌, ◌*◌, ◌^◌, ◌≤◌, ◌<◌, ◌≡◌, refl, Bool, true, false, some, List, [], ◌∷◌, ◌==◌,
  ◌&&◌, ltb, leb, pos, length, All, arith, ap, sym, ◌∙◌,
}
use native.Mathlib.Nat.{add-mul, mul_assoc, pow-succ', one-le-pow, mul-le-mul_left}
use nju_os_lab.Klib.Strings.{Bytes}
use nju_os_lab.Numbers.{signed, atoi_loop, atoi}

-- The number that digits stand for, the highest place first.
abbrev pub decimal : List ℕ → ℕ
decimal [] = 0
decimal (d ∷ ds) = d * 10 ^ length ds + decimal ds

abbrev pub digit_chars : List ℕ → Bytes
digit_chars [] = []
digit_chars (d ∷ ds) = (b'0' + d) ∷ digit_chars ds

shift : (acc d p r : ℕ) → (acc * 10 + d) * p + r ≡ acc * (10 * p) + (d * p + r)
shift acc d p r = omega (arith, add-mul (acc * 10) d p, mul_assoc acc 10 p)

grows : (x p r : ℕ) → 1 ≤ p → x ≤ x * p + r
grows x p r h = let big : x * 1 ≤ x * p = mul-le-mul_left x h in omega arith

digit_step :
    (acc d : ℕ) (minus : Bool) (s : Bytes)
    → d < 10
    → acc * 10 + d + 48 < 2 ^ 63
    → atoi_loop ((b'0' + d) ∷ s) acc minus ≡ atoi_loop s (acc * 10 + d) minus
unfolding atoi_loop
digit_step acc d minus s here fits =
    let same : acc * 10 + (b'0' + d) - b'0' ≡ acc * 10 + d = omega arith in
    let no_sign : (b'0' + d == b'-') ≡ false = ground arith in
    let digit : (leb b'0' (b'0' + d) && leb (b'0' + d) b'9') ≡ true = ground arith in
    let room : ltb (acc * 10 + (b'0' + d)) (2 ^ 63) ≡ true = ground arith in
    rw (no_sign, digit, room, same) refl

atoi_loop-digit_chars :
    (ds : List ℕ) (acc : ℕ) (minus : Bool)
    → All (λ d. d < 10) ds
    → acc * 10 ^ length ds + decimal ds + 48 < 2 ^ 63
    → atoi_loop (digit_chars ds) acc minus
      ≡ some (pos 0, signed minus (acc * 10 ^ length ds + decimal ds))
unfolding atoi_loop
atoi_loop-digit_chars [] acc minus digits fits =
    ap (λ n. some (pos 0, signed minus n)) (omega arith)
atoi_loop-digit_chars (d ∷ ds) acc minus digits fits =
    let p = 10 ^ length ds in
    let here : d < 10 = digits.0 in
    let carried : (acc * 10 + d) * p + decimal ds
        ≡ acc * 10 ^ suc (length ds) + (d * p + decimal ds) =
      shift acc d p (decimal ds)
      ∙ ap (λ q. acc * q + (d * p + decimal ds)) (sym (pow-succ' 10 (length ds))) in
    let below : acc * 10 + d ≤ (acc * 10 + d) * p + decimal ds =
      grows (acc * 10 + d) p (decimal ds) (one-le-pow (length ds) 10 (omega arith)) in
    let bound : (acc * 10 + d) * p + decimal ds + 48 < 2 ^ 63 = omega arith in
    let next : atoi_loop ((b'0' + d) ∷ digit_chars ds) acc minus
        ≡ atoi_loop (digit_chars ds) (acc * 10 + d) minus =
      digit_step acc d minus (digit_chars ds) here (omega arith) in
    next
    ∙ atoi_loop-digit_chars ds (acc * 10 + d) minus digits.1 bound
    ∙ ap (λ n. some (pos 0, signed minus n)) carried

-- `atoi` of a decimal notation returns 0 and yields the number, and with a '-' in front the number
-- negated, if the number plus 48 fits an `int64_t`.
pub atoi_lem :
    (ds : List ℕ)
    → All (λ d. d < 10) ds
    → decimal ds + 48 < 2 ^ 63
    → (atoi (digit_chars ds) ≡ some (pos 0, pos (decimal ds)))
      × (atoi (b'-' ∷ digit_chars ds) ≡ some (pos 0, signed true (decimal ds)))
unfolding atoi atoi_loop
atoi_lem ds digits fits = (from_zero false, from_zero true)
  where
    start : 0 * 10 ^ length ds + decimal ds ≡ decimal ds
    start = omega arith

    from_zero :
        (minus : Bool)
        → atoi_loop (digit_chars ds) 0 minus ≡ some (pos 0, signed minus (decimal ds))
    from_zero minus =
        atoi_loop-digit_chars ds 0 minus digits (omega (arith, start))
        ∙ ap (λ n. some (pos 0, signed minus n)) start
