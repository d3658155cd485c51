-- ===== src/Klib/Strings/Compare.antt =====
-- abstract-machine/libs/klib/src/string.c: what the comparisons decide.
use nju_os_lab.Prelude.{
  ℕ, zero, suc, ◌<◌, ◌≡◌, refl, ◌↔◌, true, false, [], ◌∷◌, ◌==◌, All, length, take, arith, is_zero,
  Bool-cases, inl, inr, ap, ◌++◌,
}
use nju_os_lab.Klib.Strings.{Bytes, char_diff, strcmp, strncmp, streq, strneq}

-- The bytes of a C string.
abbrev pub IsString : Bytes → Type 0
IsString s = All (λ c. (0 < c) × (c < 256)) s

differ : (x y : ℕ) → x < 256 → y < 256 → (x == y) ≡ false → is_zero (char_diff x y) ≡ false
differ x y hx hy h = ground arith

-- Two C strings compare as equal exactly when they are the same bytes.
pub streq_iff : (s t : Bytes) → IsString s → IsString t → (streq s t ≡ true) ↔ (s ≡ t)
unfolding streq strcmp
streq_iff [] [] hs ht = (λ _. refl, λ _. refl)
streq_iff [] (y ∷ t) hs ht = (λ h. absurd (ground arith), λ h. cc)
streq_iff (x ∷ s) [] hs ht = (λ h. absurd (ground arith), λ h. cc)
streq_iff (x ∷ s) (y ∷ t) hs ht = elim (Bool-cases (x == y)) [
  | inl e ↦
      let ih = streq_iff s t hs.1 ht.1 in (λ h. ground (arith, ih.0), λ h. ground (arith, ih.1))
  | inr e ↦ (λ h. ground (arith, differ x y), λ h. absurd (ground arith))
]

-- Two C strings compare as equal up to `n` bytes exactly when their first `n` bytes are the same.
pub strneq_iff :
    (n : ℕ) (s t : Bytes) → IsString s → IsString t → (strneq s t n ≡ true) ↔ (take n s ≡ take n t)
unfolding strneq strncmp
strneq_iff zero s t hs ht = (λ _. refl, λ _. refl)
strneq_iff (suc n) [] [] hs ht = (λ _. refl, λ _. refl)
strneq_iff (suc n) [] (y ∷ t) hs ht = (λ h. absurd (ground arith), λ h. cc)
strneq_iff (suc n) (x ∷ s) [] hs ht = (λ h. absurd (ground arith), λ h. cc)
strneq_iff (suc n) (x ∷ s) (y ∷ t) hs ht = elim (Bool-cases (x == y)) [
  | inl e ↦
      let ih = strneq_iff n s t hs.1 ht.1 in (λ h. ground (arith, ih.0), λ h. ground (arith, ih.1))
  | inr e ↦ (λ h. ground (arith, differ x y), λ h. absurd (ground arith))
]

take-append : (t r : Bytes) → take (length t) (t ++ r) ≡ t
take-append [] r = refl
take-append (x ∷ t) r = ap (λ l. x ∷ l) (take-append t r)

-- `strneq(path, prefix, strlen(prefix))` is how the kernel tests for a prefix.
pub strneq-prefix : (t r : Bytes) → strneq (t ++ r) t (length t) ≡ true
unfolding strneq strncmp
strneq-prefix [] r = refl
strneq-prefix (x ∷ t) r = ground (arith, strneq-prefix t r)
