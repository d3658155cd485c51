-- ===== src/Klib/Strings/Search.antt =====
-- abstract-machine/libs/klib/src/string.c: what the searches find.
use nju_os_lab.Prelude.{
  ℕ, suc, ◌≡◌, [], ◌∷◌, ◌==◌, All, take, drop, arith, Bool-cases, inl, inr, ap, ◌++◌, Option, some,
  none, ◌≢◌, Option-cases,
}
use nju_os_lab.Klib.Strings.{Bytes, strchr, strrchr}

-- The byte does not occur.
abbrev pub Lacks : ℕ → Bytes → Type 0
Lacks c s = All (λ x. x ≢ c) s

-- What `strchr` returns, on both ways out.
abbrev pub FirstAt : Bytes → ℕ → Option ℕ → Type 0
FirstAt s c none = Lacks c s
FirstAt s c (some i) = Lacks c (take i s) × (s ≡ take i s ++ c ∷ drop (suc i) s)

-- `strchr` finds the first occurrence, and returns `NULL` only if there is none.
-- `strchr` finds the first occurrence.
pub strchr-FirstAt : (s : Bytes) (c : ℕ) → FirstAt s c (strchr s c)
unfolding strchr
strchr-FirstAt [] c = tt
strchr-FirstAt (x ∷ s) c = elim (Bool-cases (x == c)) [
  | inl q ↦ rw q (tt, ground arith)
  | inr q ↦ elim (Option-cases (strchr s c)) [
    | inl e ↦ rw (q, e) (ground arith, rw e at (strchr-FirstAt s c))
    | inr (i, e) ↦
        let (before, at) = rw e at (strchr-FirstAt s c) in
        rw (q, e) ((ground arith, before), ap (λ l. x ∷ l) at)
  ]
]

-- What `strrchr` returns, counted from the byte before the string.
abbrev pub LastAt : Bytes → ℕ → Option ℕ → Type 0
LastAt s c none = Lacks c s
LastAt s c (some i) = Lacks c (drop (suc i) s) × (s ≡ take i s ++ c ∷ drop (suc i) s)

-- `strrchr` of a string, given the byte in front of it, finds the last occurrence among that byte and the
-- string, and nothing exactly if none of them is the one looked for.
pub strrchr-LastAt : (prev : ℕ) (s : Bytes) (c : ℕ) → LastAt (prev ∷ s) c (strrchr prev s c)
unfolding strrchr
strrchr-LastAt prev [] c = elim (Bool-cases (prev == c)) [
  | inl q ↦ rw q (tt, ground arith)
  | inr q ↦ rw q (ground arith, tt)
]
strrchr-LastAt prev (x ∷ s) c = elim (Option-cases (strrchr x s c)) [
  | inl e ↦ elim (Bool-cases (prev == c)) [
    | inl q ↦ rw (e, q) (rw e at (strrchr-LastAt x s c), ground arith)
    | inr q ↦ rw (e, q) (ground arith, rw e at (strrchr-LastAt x s c))
  ]
  | inr (i, e) ↦
      let (after, at) = rw e at (strrchr-LastAt x s c) in rw e (after, ap (λ l. prev ∷ l) at)
]
