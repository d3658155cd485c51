-- ===== src/Kmt/Spin/Exclusion.antt =====
-- kernel/src/kmt.c: what every step of a processor keeps.
use nju_os_lab.Prelude.{
  ℕ, ◌≡◌, refl, Bool, true, false, Option, none, some, ◌==◌, if◌then◌else◌, Bool-cases, inl, inr,
  ==-refl, ==→≡, sym, ap, ◌∙◌,
}
use nju_os_lab.Kmt.Cli.{nested, pushcli-nested, popcli-nested}
use nju_os_lab.Kmt.Spin.{
  Stage, outside, check_locked, check_cpu, spinning, taken, inside, release_cpu, clear_cpu,
  unlocking, leaving, Proc, Spin, put, is_cpu, step_at,
}

-- From its exchange that found the lock free to the one that frees it, a processor has the lock.
abbrev pub has_lock : Stage → Bool
has_lock taken = true
has_lock inside = true
has_lock release_cpu = true
has_lock clear_cpu = true
has_lock unlocking = true
has_lock _ = false

-- Its number is then in `lk->cpu`.
abbrev pub is_named : Stage → Bool
is_named inside = true
is_named release_cpu = true
is_named clear_cpu = true
is_named _ = false

-- The calls of `pushcli` that are not undone.
abbrev pub depth : Stage → ℕ
depth outside = 0
depth check_cpu = 2
depth release_cpu = 2
depth _ = 1

abbrev pub name_of : Option ℕ → (ℕ → Proc) → Option ℕ
name_of none procs = none
name_of (some j) procs = if is_named (procs j).stage then some j else none

abbrev pub is_taken : Option ℕ → Bool
is_taken none = false
is_taken (some j) = true

-- `base` says which processors had their interrupts on; `h` is the processor that has the lock.
pub record Fits (base : ℕ → Bool) (h : Option ℕ) (s : Spin) : Type 0 where
  pub clis : (i : ℕ) → (s.procs i).cli ≡ nested (base i) (depth (s.procs i).stage)
  pub holder : (i : ℕ) → has_lock (s.procs i).stage ≡ is_cpu i h
  pub locked : s.locked ≡ is_taken h
  pub named : s.cpu ≡ name_of h s.procs

abbrev pub Sound : (ℕ → Bool) → Option Spin → Type 0
Sound base r = (s : Spin) × (h : Option ℕ) × (r ≡ some s) × Fits base h s

module _ (base : ℕ → Bool) (h : Option ℕ) (s : Spin) (fits : Fits base h s) (i : ℕ) where
  -- A step of processor `i` to the stage `g`.
  moved :
      (h' : Option ℕ) (g : Stage) (l : Bool) (c : Option ℕ)
      → let s' = put i g (nested (base i) (depth g)) (record s { locked = l; cpu = c }) in
        has_lock g ≡ is_cpu i h'
        → ((k : ℕ) → (i == k) ≡ false → is_cpu k h ≡ is_cpu k h')
        → l ≡ is_taken h'
        → c ≡ name_of h' s'.procs
        → Fits base h' s'
  moved h' g l c lock others taken_by name = record {
    clis = λ k. elim (Bool-cases (i == k)) [
      | inl e ↦ let same : i ≡ k = ==→≡ i k e in rw (e, same) refl
      | inr e ↦ rw e (fits.clis k)
    ];
    holder = λ k. elim (Bool-cases (i == k)) [
      | inl e ↦ let same : i ≡ k = ==→≡ i k e in rw (e, sym same) lock
      | inr e ↦ rw e (fits.holder k ∙ others k e)
    ];
    locked = taken_by;
    named = name;
  }

  -- It neither takes nor frees the lock.
  stay :
      (g : Stage) (l : Bool)
      → l ≡ s.locked
      → has_lock (s.procs i).stage ≡ has_lock g
      → is_named (s.procs i).stage ≡ is_named g
      → Fits base h (put i g (nested (base i) (depth g)) (record s { locked = l }))
  stay g l el same name =
      moved h g l s.cpu (sym same ∙ fits.holder i) (λ k e. refl) (el ∙ fits.locked)
        (fits.named ∙ renamed h)
    where
      renamed :
          (o : Option ℕ)
          → name_of o s.procs ≡ name_of o (put i g (nested (base i) (depth g)) s).procs
      renamed none = refl
      renamed (some j) = elim (Bool-cases (i == j)) [
        | inl e ↦ let at : i ≡ j = ==→≡ i j e in rw (e, sym at, name) refl
        | inr e ↦ rw e refl
      ]

  keep :
      (g : Stage)
      → has_lock (s.procs i).stage ≡ has_lock g
      → is_named (s.procs i).stage ≡ is_named g
      → Fits base h (put i g (nested (base i) (depth g)) s)
  keep g = stay g s.locked refl

  -- Where the processor has the lock, it is `h`, and conversely.
  pub has : has_lock (s.procs i).stage ≡ true → h ≡ some i
  has e = go h (sym (fits.holder i) ∙ e)
    where
      go : (o : Option ℕ) → is_cpu i o ≡ true → o ≡ some i
      go none e = cc
      go (some j) e = let same : j ≡ i = ==→≡ j i e in rw same refl

  -- Where it has not, `lk->cpu` is another number.
  not_cpu : has_lock (s.procs i).stage ≡ false → is_cpu i s.cpu ≡ false
  not_cpu e = ap (is_cpu i) fits.named ∙ go h (sym (fits.holder i) ∙ e)
    where
      go : (o : Option ℕ) → is_cpu i o ≡ false → is_cpu i (name_of o s.procs) ≡ false
      go none e = refl
      go (some j) e = elim (Bool-cases (is_named (s.procs j).stage)) [
        | inl n ↦ rw n e
        | inr n ↦ rw n refl
      ]

  spinning-Sound :
      (o : Option ℕ)
      → h ≡ o
      → (s.procs i).stage ≡ spinning
      → Sound base (step_at spinning i (nested (base i) 1) s)
  unfolding step_at
  spinning-Sound none e at =
      let free : s.locked ≡ false = fits.locked ∙ ap is_taken e in
      (
        _,
        some i,
        rw free refl,
        moved (some i) taken true s.cpu (sym (==-refl i)) (λ k d. rw (e, d) refl) refl
            (fits.named ∙ rw (e, ==-refl i) refl),
      )
  spinning-Sound (some j) e at =
      let busy : s.locked ≡ true = fits.locked ∙ ap is_taken e in
      (_, h, rw busy refl, stay spinning true (sym busy) (ap has_lock at) (ap is_named at))

  pub step_at-Sound :
      (g : Stage) → (s.procs i).stage ≡ g → Sound base (step_at g i (nested (base i) (depth g)) s)
  unfolding step_at
  step_at-Sound outside at = (
    _,
    h,
    rw (pushcli-nested (base i) 0) refl,
    keep check_locked (ap has_lock at) (ap is_named at),
  )
  step_at-Sound check_locked at = elim (Bool-cases s.locked) [
    | inl l ↦ (
      _,
      h,
      rw (pushcli-nested (base i) 1, popcli-nested (base i) 1, l) refl,
      keep check_cpu (ap has_lock at) (ap is_named at),
    )
    | inr l ↦ (
      _,
      h,
      rw (pushcli-nested (base i) 1, popcli-nested (base i) 1, l) refl,
      keep spinning (ap has_lock at) (ap is_named at),
    )
  ]
  step_at-Sound check_cpu at =
      let other = not_cpu (ap has_lock at) in
      (
        _,
        h,
        rw (popcli-nested (base i) 1, other) refl,
        keep spinning (ap has_lock at) (ap is_named at),
      )
  step_at-Sound spinning at = spinning-Sound h refl at
  step_at-Sound taken at =
      let mine = has (ap has_lock at) in
      (
        _,
        h,
        refl,
        moved h inside s.locked (some i) (rw (mine, ==-refl i) refl) (λ k d. refl) fits.locked
            (rw (mine, ==-refl i) refl),
      )
  step_at-Sound inside at =
      let mine = has (ap has_lock at) in
      let busy : s.locked ≡ true = fits.locked ∙ ap is_taken mine in
      (
        _,
        h,
        rw (pushcli-nested (base i) 1, busy) refl,
        keep release_cpu (ap has_lock at) (ap is_named at),
      )
  step_at-Sound release_cpu at =
      let mine = has (ap has_lock at) in
      let here : s.cpu ≡ some i = fits.named ∙ rw (mine, at) refl in
      (
        _,
        h,
        rw (popcli-nested (base i) 1, here, ==-refl i) refl,
        keep clear_cpu (ap has_lock at) (ap is_named at),
      )
  step_at-Sound clear_cpu at =
      let mine = has (ap has_lock at) in
      (
        _,
        h,
        refl,
        moved h unlocking s.locked none (rw (mine, ==-refl i) refl) (λ k d. refl) fits.locked
            (rw (mine, ==-refl i) refl),
      )
  step_at-Sound unlocking at =
      let mine = has (ap has_lock at) in
      (
        _,
        none,
        refl,
        moved none leaving false s.cpu refl (λ k d. rw (mine, d) refl) refl
            (fits.named ∙ rw (mine, at) refl),
      )
  step_at-Sound leaving at =
      (_, h, rw (popcli-nested (base i) 0) refl, keep outside (ap has_lock at) (ap is_named at))
