-- ===== src/Kvdb/Scan/Lines.antt =====
-- libkvdb/kvdb.c: `find_db` reads the file line by line.
use nju_os_lab.Prelude.{
  ℕ, zero, suc, ◌+◌, ◌≤◌, ◌<◌, ◌≡◌, ◌≢◌, refl, inl, inr, false, Option, none, some, [], ◌∷◌, ◌++◌,
  ◌==◌, ltb, length, length-append, All-append, All-split, arith, ap, subst, ◌∙◌, Bool-cases,
}
use nju_os_lab.Klib.Strings.{Bytes}
use nju_os_lab.Klib.Strings.Search.{Lacks}
use nju_os_lab.Kvdb.{newline}
use nju_os_lab.Kvdb.Scan.{fgets, after_header, scan_round, Scanned, scan_loop, scan_file}
use nju_os_lab.Kvdb.Scan.Headers.{scan_header_none}

-- A line that fits the buffer is read whole.
pub fgets_line :
    (n : ℕ) (l s : Bytes)
    → Lacks newline l
    → length l < n
    → fgets n (l ++ newline ∷ s) ≡ (l ++ newline ∷ [], s)
unfolding fgets
fgets_line zero l s h lt = absurd (omega arith)
fgets_line (suc n) [] s h lt = refl
fgets_line (suc n) (c ∷ l) s h lt =
    let ne : (c == newline) ≡ false = ground (arith, h.0) in
    rw (ne, fgets_line n l s h.1 (omega arith)) refl

-- Of a longer one the buffer takes the beginning.
fgets_part :
    (n : ℕ) (l s : Bytes)
    → Lacks newline l
    → n ≤ length l
    → (a b : Bytes) × (l ≡ a ++ b)
      × (length a ≡ n)
      × (fgets n (l ++ newline ∷ s) ≡ (a, b ++ newline ∷ s))
unfolding fgets
fgets_part zero l s h le = ([], l, refl, refl, refl)
fgets_part (suc n) [] s h le = absurd (omega arith)
fgets_part (suc n) (c ∷ l) s h le =
    let ne : (c == newline) ≡ false = ground (arith, h.0) in
    let (a, b, split, size, read) = fgets_part n l s h.1 (omega arith) in
    (c ∷ a, b, ap (λ x. c ∷ x) split, ap suc size, rw (ne, read) refl)

-- Rounds of the loop that lead from one place in the file to another, on any fuel that is enough.
abbrev pub Goes : Bytes → Bytes → Option Bytes → Bytes → Option Bytes → Type 0
Goes key file res rest res' =
    (fuel : ℕ)
    → length file < fuel
    → (fuel' : ℕ) × (scan_loop key fuel file res ≡ scan_loop key fuel' rest res')
      × (length rest < fuel')

pub Goes-trans :
    (key f g h : Bytes) (r s t : Option Bytes)
    → Goes key f r g s
    → Goes key g s h t
    → Goes key f r h t
Goes-trans key f g h r s t a b fuel lt =
    let (fuel', e, lt') = a fuel lt in
    let (fuel'', e', lt'') = b fuel' lt' in (fuel'', e ∙ e', lt'')

pub Goes-round :
    (key file rest : Bytes) (res res' : Option Bytes)
    → scan_round key file res ≡ some (rest, res')
    → length rest < length file
    → Goes key file res rest res'
unfolding scan_loop
Goes-round key [] rest res res' round shorter fuel lt = absurd (omega arith)
Goes-round key (c ∷ file) rest res res' round shorter zero lt = absurd (omega arith)
Goes-round key (c ∷ file) rest res res' round shorter (suc fuel) lt =
    (fuel, rw (scan_loop, round) refl, omega arith)

-- At the end of the file the loop ends.
pub Goes-returned :
    (key file : Bytes) (res : Option Bytes)
    → Goes key file none [] res
    → scan_file key file ≡ Scanned.returned res
unfolding scan_file scan_loop
Goes-returned key file res goes =
    let (fuel, e, lt) = goes (length file + 1) (omega arith) in e ∙ at_end fuel lt
  where
    at_end : (fuel : ℕ) → 0 < fuel → scan_loop key fuel [] res ≡ Scanned.returned res
    at_end zero h = absurd (omega arith)
    at_end (suc fuel) h = refl

-- A line with no colon is passed over, however long it is.
skip_bounded :
    (bound : ℕ) (key l s : Bytes) (res : Option Bytes)
    → length l < bound
    → Lacks newline l
    → Lacks b':' l
    → Goes key (l ++ newline ∷ s) res s res
unfolding scan_round after_header
skip_bounded zero key l s res lt h colon = absurd (omega arith)
skip_bounded (suc bound) key l s res lt h colon = elim (Bool-cases (ltb (length l) 499)) [
  | inl e ↦
      let plain =
        All-append (λ x. x ≢ b':') l (newline ∷ []) colon ((λ q. absurd (omega arith)), tt) in
      let size = length-append l (newline ∷ s) in
      Goes-round key (l ++ newline ∷ s) s res res
        (rw (scan_round, fgets_line 499 l s h (ground (arith, e)))
          (rw (scan_header_none (l ++ newline ∷ []) plain) refl))
        (omega (arith, size))
  | inr e ↦
      let (a, b, split, size, read) = fgets_part 499 l s h (ground (arith, e)) in
      let (pa, pb) = All-split (λ x. x ≢ b':') a b (subst (Lacks b':') split colon) in
      let (na, nb) = All-split (λ x. x ≢ newline) a b (subst (Lacks newline) split h) in
      let sizes = length-append a b in
      let all = ap length split in
      let whole = length-append l (newline ∷ s) in
      let later = length-append b (newline ∷ s) in
      Goes-trans key (l ++ newline ∷ s) (b ++ newline ∷ s) s res res res
        (Goes-round key (l ++ newline ∷ s) (b ++ newline ∷ s) res res
          (rw (scan_round, read) (rw (scan_header_none a pa) refl))
          (omega (arith, sizes, all, size, whole, later)))
        (skip_bounded bound key b s res (omega (arith, sizes, all, size)) nb pb)
]

pub skip_line :
    (key l s : Bytes) (res : Option Bytes)
    → Lacks newline l
    → Lacks b':' l
    → Goes key (l ++ newline ∷ s) res s res
skip_line key l s res = skip_bounded (length l + 1) key l s res (omega arith)
