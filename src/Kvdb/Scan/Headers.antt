-- ===== src/Kvdb/Scan/Headers.antt =====
-- libkvdb/kvdb.c: which lines `sscanf` takes for a header.
use nju_os_lab.Prelude.{
  ℕ, zero, suc, ◌+◌, ◌*◌, ◌-◌, ◌/◌, ◌%◌, ◌^◌, ◌≤◌, ◌<◌, ◌≡◌, ◌≢◌, refl, inl, inr, Bool, true, false,
  [], ◌∷◌, ◌++◌, ◌==◌, ltb, length, length-append, append_assoc, All-append, arith, ap, sym, ◌∙◌,
  Bool-cases,
}
use native.Mathlib.Nat.{pow-succ'}
use nju_os_lab.Klib.Strings.{Bytes}
use nju_os_lab.Klib.Strings.Search.{Lacks}
use nju_os_lab.Kvdb.{newline, decimal_digits}
use nju_os_lab.Kvdb.Scan.{
  same_bytes, unmatched, header, is_space, is_digit, skip_space, scan_digits, to_newline, scan_key,
  scan_number, scan_sign, scan_header,
}

pub same_bytes_refl : (s : Bytes) → same_bytes s s ≡ true
unfolding same_bytes
same_bytes_refl [] = refl
same_bytes_refl (x ∷ s) = ground (arith, same_bytes_refl s)

pub same_bytes→≡ : (s t : Bytes) → same_bytes s t ≡ true → s ≡ t
unfolding same_bytes
same_bytes→≡ [] [] h = refl
same_bytes→≡ [] (y ∷ t) h = cc
same_bytes→≡ (x ∷ s) [] h = cc
same_bytes→≡ (x ∷ s) (y ∷ t) h = ground (arith, same_bytes→≡ s t)

-- A line with no colon is no header.
skip_space-Lacks : (c : ℕ) (s : Bytes) → Lacks c s → Lacks c (skip_space s)
unfolding skip_space
skip_space-Lacks c [] h = tt
skip_space-Lacks c (x ∷ s) h = elim (Bool-cases (is_space x)) [
  | inl e ↦ rw e (skip_space-Lacks c s h.1)
  | inr e ↦ rw e h
]

scan_digits-Lacks : (c n : ℕ) (s : Bytes) → Lacks c s → Lacks c (scan_digits n s).1
unfolding scan_digits
scan_digits-Lacks c n [] h = tt
scan_digits-Lacks c n (x ∷ s) h = elim (Bool-cases (is_digit x)) [
  | inl e ↦ rw e (scan_digits-Lacks c (n * 10 + (x - b'0')) s h.1)
  | inr e ↦ rw e h
]

scan_key_none :
    (minus : Bool) (n : ℕ) (s : Bytes) → Lacks b':' s → scan_key minus (n, s) ≡ unmatched
unfolding scan_key
scan_key_none minus n [] h = refl
scan_key_none minus n (c ∷ s) h = let ne : (c == b':') ≡ false = ground (arith, h.0) in rw ne refl

scan_number_none : (minus : Bool) (s : Bytes) → Lacks b':' s → scan_number minus s ≡ unmatched
unfolding scan_number
scan_number_none minus [] h = refl
scan_number_none minus (c ∷ s) h = elim (Bool-cases (is_digit c)) [
  | inl e ↦ rw e (
      scan_key_none minus (scan_digits 0 (c ∷ s)).0 (scan_digits 0 (c ∷ s)).1
        (scan_digits-Lacks b':' 0 (c ∷ s) h))
  | inr e ↦ rw e refl
]

scan_sign_none : (s : Bytes) → Lacks b':' s → scan_sign s ≡ unmatched
unfolding scan_sign
scan_sign_none [] h = refl
scan_sign_none (c ∷ s) h = elim (Bool-cases (c == b'-')) [
  | inl e ↦ rw e (scan_number_none true s h.1)
  | inr e ↦ elim (Bool-cases (c == b'+')) [
    | inl p ↦ rw (e, p) (scan_number_none false s h.1)
    | inr p ↦ rw (e, p) (scan_number_none false (c ∷ s) h)
  ]
]

pub scan_header_none : (s : Bytes) → Lacks b':' s → scan_header s ≡ unmatched
unfolding scan_header
scan_header_none s h = scan_sign_none (skip_space s) (skip_space-Lacks b':' s h)

-- The header of a record is read back.
pub scan_digits-decimal_digits :
    (fuel n : ℕ) (s : Bytes)
    → n < fuel
    → scan_digits 0 (decimal_digits fuel n ++ s) ≡ scan_digits n s
unfolding decimal_digits scan_digits
scan_digits-decimal_digits zero n s h = absurd (omega arith)
scan_digits-decimal_digits (suc fuel) n s h = elim (Bool-cases (ltb n 10)) [
  | inl e ↦
      let digit : is_digit (b'0' + n) ≡ true = ground arith in
      let value : 0 * 10 + (b'0' + n - b'0') ≡ n = omega arith in rw e (rw (digit, value) refl)
  | inr e ↦
      let d = b'0' + n % 10 in
      let digit : is_digit d ≡ true = ground arith in
      let value : n / 10 * 10 + (d - b'0') ≡ n = omega arith in
      let smaller : n / 10 < fuel = ground arith in
      let step : scan_digits (n / 10) (d ∷ s) ≡ scan_digits n s = rw (digit, value) refl in
      rw (e, append_assoc (decimal_digits fuel (n / 10)) (d ∷ []) s)
        (scan_digits-decimal_digits fuel (n / 10) (d ∷ s) smaller ∙ step)
]

-- It starts with a digit.
pub decimal_digits_first :
    (fuel n : ℕ)
    → n < fuel
    → (c : ℕ) × (ds : Bytes) × (decimal_digits fuel n ≡ c ∷ ds) × (is_digit c ≡ true)
unfolding decimal_digits
decimal_digits_first zero n h = absurd (omega arith)
decimal_digits_first (suc fuel) n h = elim (Bool-cases (ltb n 10)) [
  | inl e ↦ rw e (b'0' + n, [], refl, ground arith)
  | inr e ↦
      let smaller : n / 10 < fuel = ground arith in
      let (c, ds, at, digit) = decimal_digits_first fuel (n / 10) smaller in
      rw e (c, ds ++ (b'0' + n % 10) ∷ [], rw at refl, digit)
]

-- It has digits only, and not more than it needs.
pub decimal_digits_plain : (fuel n : ℕ) → Lacks newline (decimal_digits fuel n)
unfolding decimal_digits
decimal_digits_plain zero n = tt
decimal_digits_plain (suc fuel) n = elim (Bool-cases (ltb n 10)) [
  | inl e ↦ rw e ((λ q. absurd (omega arith)), tt)
  | inr e ↦ rw e (
      All-append (λ x. x ≢ newline) (decimal_digits fuel (n / 10)) ((b'0' + n % 10) ∷ [])
        (decimal_digits_plain fuel (n / 10)) ((λ q. absurd (omega arith)), tt))
]

pub decimal_digits_short : (k fuel n : ℕ) → n < 10 ^ k → length (decimal_digits fuel n) ≤ k + 1
unfolding decimal_digits
decimal_digits_short k zero n h = omega arith
decimal_digits_short zero (suc fuel) n h = ground (arith, h)
decimal_digits_short (suc k) (suc fuel) n h = elim (Bool-cases (ltb n 10)) [
  | inl e ↦ rw e (omega arith)
  | inr e ↦
      let below : n / 10 < 10 ^ k = let p = pow-succ' 10 k in omega (arith, p) in
      let size = length-append (decimal_digits fuel (n / 10)) ((b'0' + n % 10) ∷ []) in
      let ih = decimal_digits_short k fuel (n / 10) below in rw e (omega (arith, size, ih))
]

to_newline_lem : (key : Bytes) → Lacks newline key → to_newline (key ++ newline ∷ []) ≡ key
unfolding to_newline
to_newline_lem [] h = refl
to_newline_lem (c ∷ key) h =
    let ne : (c == newline) ≡ false = ground (arith, h.0) in
    rw ne (ap (λ k. c ∷ k) (to_newline_lem key h.1))

scan_header_digit :
    (c : ℕ) (s : Bytes)
    → is_digit c ≡ true
    → scan_header (c ∷ s) ≡ scan_key false (scan_digits 0 (c ∷ s))
unfolding scan_header scan_sign scan_number skip_space is_space
scan_header_digit c s digit =
    let space : is_space c ≡ false = ground arith in
    let minus : (c == b'-') ≡ false = ground arith in
    let plus : (c == b'+') ≡ false = ground arith in rw (space) (rw (minus, plus, digit) refl)

scan_key_lem :
    (size k : ℕ) (key : Bytes)
    → Lacks newline (k ∷ key)
    → scan_key false (scan_digits size (b':' ∷ ((k ∷ key) ++ newline ∷ [])))
      ≡ header false size (k ∷ key)
unfolding scan_key scan_digits
scan_key_lem size k key h = rw (to_newline_lem (k ∷ key) h) refl

pub scan_header_lem :
    (size k : ℕ) (key : Bytes)
    → Lacks newline (k ∷ key)
    → scan_header (decimal_digits (size + 1) size ++ b':' ∷ ((k ∷ key) ++ newline ∷ []))
      ≡ header false size (k ∷ key)
scan_header_lem size k key h =
    let rest = b':' ∷ ((k ∷ key) ++ newline ∷ []) in
    let (c, ds, at, digit) = decimal_digits_first (size + 1) size (omega arith) in
    let number = scan_digits-decimal_digits (size + 1) size rest (omega arith) in
    ap (λ l. scan_header (l ++ rest)) at
    ∙ scan_header_digit c (ds ++ rest) digit
    ∙ ap (λ l. scan_key false (scan_digits 0 (l ++ rest))) (sym at)
    ∙ ap (scan_key false) number
    ∙ scan_key_lem size k key h
