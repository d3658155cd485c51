-- ===== src/Kmt/Cli.antt =====
-- kernel/src/kmt.c: `pushcli` and `popcli` nest.
use nju_os_lab.Prelude.{
  ℕ, zero, suc, ◌+◌, ◌≡◌, refl, Bool, true, false, Option, none, some, ◌&&◌, ltb, ◌==◌, arith, ap,
  ◌>>=◌,
}
use nju_os_lab.Kmt.{Cpu, pushcli, popcli}

-- The processor after `n` calls of `pushcli` that are not undone, started with the interrupts as in
-- `base`.
abbrev pub nested : Bool → ℕ → Cpu
nested base n = record { interrupts = (n == 0) && base; count = n; has_if = ltb 0 n && base }

pub pushcli-nested : (base : Bool) (n : ℕ) → pushcli (nested base n) ≡ some (nested base (suc n))
unfolding pushcli
pushcli-nested true zero = refl
pushcli-nested false zero = refl
pushcli-nested true (suc n) = ground arith
pushcli-nested false (suc n) = ground arith

pub popcli-nested : (base : Bool) (n : ℕ) → popcli (nested base (suc n)) ≡ some (nested base n)
unfolding popcli
popcli-nested true zero = refl
popcli-nested false zero = refl
popcli-nested true (suc n) = ground arith
popcli-nested false (suc n) = ground arith

-- `n` calls in a row.
abbrev pub repeat : ℕ → (Cpu → Option Cpu) → Cpu → Option Cpu
repeat zero f c = some c
repeat (suc n) f c = f c >>= repeat n f

repeat_push :
    (base : Bool) (n k m : ℕ) → m ≡ n + k → repeat n pushcli (nested base k) ≡ some (nested base m)
repeat_push base zero k m e = let same : k ≡ m = omega arith in ap (λ x. some (nested base x)) same
repeat_push base (suc n) k m e =
    rw (pushcli-nested base k) (repeat_push base n (suc k) m (omega arith))

repeat_pop :
    (base : Bool) (n k m : ℕ) → m ≡ n + k → repeat n popcli (nested base m) ≡ some (nested base k)
repeat_pop base zero k m e = let same : m ≡ k = omega arith in ap (λ x. some (nested base x)) same
repeat_pop base (suc n) k zero e = absurd (omega arith)
repeat_pop base (suc n) k (suc m) e =
    rw (popcli-nested base m) (repeat_pop base n k m (omega arith))

-- Any number of calls of `pushcli` and then as many of `popcli` halt nowhere and give the processor
-- back as it was, with the interrupts off in between; one more `popcli` halts.
pub pop-push_nested :
    (base : Bool) (n : ℕ)
    → (repeat (suc n) pushcli (nested base 0) ≡ some (nested base (suc n)))
      × ((nested base (suc n)).interrupts ≡ false)
      × (repeat (suc n) popcli (nested base (suc n)) ≡ some (nested base 0))
      × (popcli (nested base 0) ≡ none)
unfolding popcli
pop-push_nested base n = (
  repeat_push base (suc n) 0 (suc n) (omega arith),
  ground arith,
  repeat_pop base (suc n) 0 (suc n) (omega arith),
  ground arith,
)
