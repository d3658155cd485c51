-- ===== src/Kmt/Spin/Runs.antt =====
-- kernel/src/kmt.c: `spin_lock` lets one processor in at a time.
use nju_os_lab.Prelude.{
  ℕ, ◌≡◌, refl, Bool, true, false, Option, none, some, List, [], ◌∷◌, ◌==◌, sym, ap, ◌&&◌, ◌∙◌,
}
use nju_os_lab.Kmt.Cli.{nested}
use nju_os_lab.Kmt.Spin.{outside, Spin, step, run}
use nju_os_lab.Kmt.Spin.Exclusion.{has_lock, depth, Fits, Sound, has, step_at-Sound}

step-Sound :
    (base : ℕ → Bool) (h : Option ℕ) (s : Spin) → Fits base h s → (i : ℕ) → Sound base (step i s)
unfolding step
step-Sound base h s fits i = rw (fits.clis i) (step_at-Sound base h s fits i (s.procs i).stage refl)

run-Sound :
    (base : ℕ → Bool) (order : List ℕ) (h : Option ℕ) (s : Spin)
    → Fits base h s
    → Sound base (run order s)
unfolding run
run-Sound base [] h s fits = (s, h, refl, fits)
run-Sound base (i ∷ order) h s fits =
    let (s1, h1, e, fits1) = step-Sound base h s fits i in rw e (run-Sound base order h1 s1 fits1)

-- `spin_init`, with no processor at the lock.
abbrev pub fresh : (ℕ → Bool) → Spin
fresh base = record {
  locked = false;
  cpu = none;
  procs = λ i. record { stage = outside; cli = nested (base i) 0 };
}

-- From a fresh lock, whatever steps the processors take in whatever order: no panic is reached, no two
-- processors have the lock at once, and the interrupts of a processor are off from its first step of
-- `spin_lock` to its last of `spin_unlock`, and outside of that as they were.
pub run_lem :
    (base : ℕ → Bool) (order : List ℕ)
    → (s : Spin) × (run order (fresh base) ≡ some s)
      × ((i j : ℕ) → has_lock (s.procs i).stage ≡ true → has_lock (s.procs j).stage ≡ true → i ≡ j)
      × ((i : ℕ) → (s.procs i).cli.interrupts ≡ ((depth (s.procs i).stage == 0) && base i))
run_lem base order =
    let fits0 : Fits base none (fresh base) = record {
      clis = λ i. refl;
      holder = λ i. refl;
      locked = refl;
      named = refl;
    } in
    let (s, h, e, fits) = run-Sound base order none (fresh base) fits0 in
    (
      s,
      e,
      λ i j hi hj. some-inj (sym (has base h s fits i hi) ∙ has base h s fits j hj),
      λ i. ap (λ c. c.interrupts) (fits.clis i),
    )
  where
    some-inj : {a b : ℕ} → some a ≡ some b → a ≡ b
    some-inj q = cc
