-- ===== src/Klib/Format/Digits.antt =====
-- abstract-machine/libs/klib/src/stdio.c and kernel/src/string.c: `%d` prints what `atoi` reads.
use nju_os_lab.Prelude.{
  ℕ, zero, suc, ◌+◌, ◌*◌, ◌/◌, ◌%◌, ◌^◌, ◌<◌, ◌≡◌, refl, inl, inr, ◌∙◌, ap, true, some, List, [],
  ◌∷◌, ◌==◌, ltb, if◌then◌else◌, length, All, arith, Bool-cases, pos, negsuc, ℤ,
}
use native.Mathlib.Nat.{pow-succ', add-mul, mul_assoc}
use nju_os_lab.Klib.Strings.{Bytes}
use nju_os_lab.Klib.Format.{int, digit_char, push_digits, number_text, convert}
use nju_os_lab.Numbers.{atoi, signed}
use nju_os_lab.Numbers.Decimal.{decimal, digit_chars, atoi_lem}

-- The digits that `push_digits` writes.
abbrev digits_from : ℕ → ℕ → List ℕ → List ℕ
digits_from zero v ds = ds
digits_from (suc fuel) v ds =
    let more = digits_from fuel (v / 10) ((v % 10) ∷ ds) in
    if v / 10 == 0 then (v % 10) ∷ ds else more

decimal_digit : (d : ℕ) → d < 10 → digit_char d ≡ b'0' + d
decimal_digit d h = ground arith

push_digits-digits_from :
    (fuel v : ℕ) (ds : List ℕ)
    → push_digits fuel 10 v (digit_chars ds) ≡ digit_chars (digits_from fuel v ds)
unfolding push_digits
push_digits-digits_from zero v ds = refl
push_digits-digits_from (suc fuel) v ds =
    let d = decimal_digit (v % 10) (omega arith) in
    let ih = push_digits-digits_from fuel (v / 10) ((v % 10) ∷ ds) in
    elim (Bool-cases (v / 10 == 0)) [ inl e ↦ rw (e, d) refl | inr e ↦ rw (e, d) ih ]

digits_from-All :
    (fuel v : ℕ) (ds : List ℕ) → All (λ d. d < 10) ds → All (λ d. d < 10) (digits_from fuel v ds)
digits_from-All zero v ds h = h
digits_from-All (suc fuel) v ds h =
    let ih = digits_from-All fuel (v / 10) ((v % 10) ∷ ds) (omega arith, h) in
    elim (Bool-cases (v / 10 == 0)) [ inl e ↦ rw e (omega arith, h) | inr e ↦ rw e ih ]

split_digit : (v p r : ℕ) → v / 10 * (10 * p) + (v % 10 * p + r) ≡ v * p + r
split_digit v p r =
    let whole : v / 10 * 10 + v % 10 ≡ v = omega arith in
    omega (arith, add-mul (v / 10 * 10) (v % 10) p, mul_assoc (v / 10) 10 p, ap (λ t. t * p) whole)

decimal-digits_from :
    (fuel v : ℕ) (ds : List ℕ)
    → v < 10 ^ fuel
    → decimal (digits_from fuel v ds) ≡ v * 10 ^ length ds + decimal ds
decimal-digits_from zero v ds h = let none_left : v ≡ 0 = omega arith in rw none_left (omega arith)
decimal-digits_from (suc fuel) v ds h =
    let below : v / 10 < 10 ^ fuel = let p = pow-succ' 10 fuel in omega (arith, p) in
    let ih = decimal-digits_from fuel (v / 10) ((v % 10) ∷ ds) below in
    let longer = pow-succ' 10 (length ds) in
    let split = split_digit v (10 ^ length ds) (decimal ds) in
    elim (Bool-cases (v / 10 == 0)) [
      | inl e ↦ rw e (let same : v % 10 ≡ v = ground (arith, e) in rw same refl)
      | inr e ↦
          rw e (ih ∙ ap (λ q. v / 10 * q + (v % 10 * 10 ^ length ds + decimal ds)) longer ∙ split)
    ]

abbrev digits : ℕ → List ℕ
digits n = digits_from 20 n []

number_text-digits : (n : ℕ) → number_text 10 n ≡ digit_chars (digits n)
number_text-digits n = push_digits-digits_from 20 n []

abbrev pub InRange : ℤ → Type 0
InRange (pos n) = n < 2 ^ 31
InRange (negsuc n) = n + 1 < 2 ^ 31

-- Every `int32_t` but the least one is printed by `%d`, and `atoi` reads the printed text back.
pub atoi-convert :
    (v : ℤ) → InRange v → (s : Bytes) × (convert b'd' (int v) ≡ some s) × (atoi s ≡ some (pos 0, v))
unfolding convert
atoi-convert (pos n) h =
    let value : decimal (digits n) ≡ n = decimal-digits_from 20 n [] (omega arith) ∙ omega arith in
    (
      number_text 10 n,
      refl,
      ap atoi (number_text-digits n)
          ∙ (atoi_lem (digits n) (digits_from-All 20 n [] tt) (omega (arith, value))).0
          ∙ ap (λ k. some (pos 0, pos k)) value,
    )
atoi-convert (negsuc n) h =
    let m = n + 1 in
    let value : decimal (digits m) ≡ m = decimal-digits_from 20 m [] (omega arith) ∙ omega arith in
    let fits : ltb m (2 ^ 31) ≡ true = ground arith in
    let next : m ≡ suc n = omega arith in
    (
      b'-' ∷ number_text 10 m,
      rw fits refl,
      ap (λ s. atoi (b'-' ∷ s)) (number_text-digits m)
          ∙ (atoi_lem (digits m) (digits_from-All 20 m [] tt) (omega (arith, value))).1
          ∙ ap (λ k. some (pos 0, signed true k)) (value ∙ next),
    )
