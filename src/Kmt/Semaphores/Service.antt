-- ===== src/Kmt/Semaphores/Service.antt =====
-- kernel/src/kmt.c: semaphores count, and serve the tasks that wait.
use nju_os_lab.Prelude.{
  ℕ, suc, ◌+◌, ◌-◌, ◌%◌, ◌^◌, ◌≤◌, ◌<◌, ◌≡◌, refl, inl, inr, Bool, true, false, List, [], ◌∷◌, ◌==◌,
  ◌||◌, length, arith, ap, sym, subst, ◌∙◌, Bool-cases, ==→≡,
}
use native.Mathlib.Nat.{mod-eq_of_lt}
use nju_os_lab.Kmt.Semaphores.{
  Sem, sem_init, sem_round, sem_signal, is_positive, Users, Event, enter, attempt, signal, member,
  remove, sem_step, sem_run, start,
}

-- How often `sem_signal` and `sem_wait` are called.
unfoldable pub signals : List Event → ℕ
signals [] = 0
signals (enter i ∷ es) = signals es
signals (attempt i ∷ es) = signals es
signals (signal ∷ es) = suc (signals es)

unfoldable pub enters : List Event → ℕ
enters [] = 0
enters (enter i ∷ es) = suc (enters es)
enters (attempt i ∷ es) = enters es
enters (signal ∷ es) = enters es

-- Whether a task calls `sem_wait`, and whether it makes a round of it.
unfoldable pub calls_wait : ℕ → List Event → Bool
calls_wait i [] = false
calls_wait i (enter j ∷ es) = (i == j) || calls_wait i es
calls_wait i (attempt j ∷ es) = calls_wait i es
calls_wait i (signal ∷ es) = calls_wait i es

unfoldable pub attempts : ℕ → List Event → Bool
attempts i [] = false
attempts i (enter j ∷ es) = attempts i es
attempts i (attempt j ∷ es) = (i == j) || attempts i es
attempts i (signal ∷ es) = attempts i es

-- Units of the semaphore, taken or not.
abbrev units : Users → ℕ
units u = u.sem.value + u.served

units-attempt : (i : ℕ) (u : Users) → units (sem_step (attempt i) u) ≡ units u
unfolding sem_step sem_round
units-attempt i u = elim (Bool-cases (member i u.waiting)) [
  | inl q ↦ elim (Bool-cases (is_positive u.sem.value)) [
    | inl p ↦ rw (q, p) (ground arith)
    | inr p ↦ rw (q, p) refl
  ]
  | inr q ↦ rw q refl
]

units-enter : (i : ℕ) (u : Users) → units (sem_step (enter i) u) ≡ units u
unfolding sem_step
units-enter i u = elim (Bool-cases (member i u.waiting)) [ inl q ↦ rw q refl | inr q ↦ rw q refl ]

value-signal : (s : Sem) → s.value < 2 ^ 31 → (sem_signal s).value ≡ s.value + 1
unfolding sem_signal
value-signal s h = mod-eq_of_lt (omega arith)

sem_run-units :
    (es : List Event) (u : Users)
    → u.sem.value + u.served + signals es < 2 ^ 31
    → units (sem_run es u) ≡ units u + signals es
unfolding sem_run signals sem_step
sem_run-units [] u h = omega arith
sem_run-units (enter i ∷ es) u h =
    let same = units-enter i u in
    let ih = sem_run-units es (sem_step (enter i) u) (rw same h) in
    ih ∙ ap (λ n. n + signals es) same
sem_run-units (attempt i ∷ es) u h =
    let same = units-attempt i u in
    let ih = sem_run-units es (sem_step (attempt i) u) (rw same h) in
    ih ∙ ap (λ n. n + signals es) same
sem_run-units (signal ∷ es) u h =
    let more = value-signal u.sem (omega arith) in
    let ih = sem_run-units es (sem_step signal u) (rw more (omega arith)) in
    ih ∙ rw more (omega arith)

-- However the rounds of the waiting tasks and the calls of `sem_signal` follow each other: the value of a semaphore, with the
-- number of calls of `sem_wait` that have returned, is the initial value with the number of calls of `sem_signal`. So no more
-- calls of `sem_wait` return than there are units.
pub semaphore_counts :
    (value : ℕ) (es : List Event)
    → value + signals es < 2 ^ 31
    → ((sem_run es (start value)).sem.value + (sem_run es (start value)).served
        ≡ value + signals es)
      × ((sem_run es (start value)).served ≤ value + signals es)
unfolding sem_init
semaphore_counts value es h =
    let whole : value % 2 ^ 32 ≡ value = mod-eq_of_lt (omega arith) in
    let all : units (sem_run es (start value)) ≡ value + signals es =
      sem_run-units es (start value) (rw whole (omega arith)) ∙ rw whole (omega arith) in
    (all, omega (arith, all))

member-remove_ne : (i j : ℕ) (w : List ℕ) → member i w ≡ false → member i (remove j w) ≡ false
unfolding member remove
member-remove_ne i j [] h = refl
member-remove_ne i j (x ∷ w) h = let ih = member-remove_ne i j w in ground (arith, ih)

member-remove : (i : ℕ) (w : List ℕ) → member i (remove i w) ≡ false
unfolding member remove
member-remove i [] = refl
member-remove i (x ∷ w) = let ih = member-remove i w in ground (arith, ih)

length-remove_le : (i : ℕ) (w : List ℕ) → length (remove i w) ≤ length w
unfolding remove
length-remove_le i [] = omega arith
length-remove_le i (x ∷ w) = let ih = length-remove_le i w in ground (arith, ih)

length-remove : (i : ℕ) (w : List ℕ) → member i w ≡ true → length (remove i w) < length w
unfolding member remove
length-remove i [] h = cc
length-remove i (x ∷ w) h =
    let ih = length-remove i w in let le = length-remove_le i w in ground (arith, ih, le)

-- There is a unit for every task that waits, and for every call that is to come.
record IsCovered (es : List Event) (u : Users) : Type 0 where
  units : length u.waiting + enters es ≤ u.sem.value
  small : u.sem.value + signals es < 2 ^ 31

member-length : (i : ℕ) (w : List ℕ) → member i w ≡ true → 1 ≤ length w
unfolding member
member-length i [] h = cc
member-length i (x ∷ w) h = omega arith

-- A round of a task that waits is its last, where there is a unit for each.
attempt_lem :
    (i : ℕ) (es : List Event) (u : Users)
    → IsCovered (attempt i ∷ es) u
    → member i u.waiting ≡ true
    → sem_step (attempt i) u ≡ record {
      sem = record { value = u.sem.value - 1 };
      waiting = remove i u.waiting;
      served = suc u.served;
    }
unfolding sem_step sem_round enters signals
attempt_lem i es u c q =
    let some_wait = member-length i u.waiting q in
    let p : is_positive u.sem.value ≡ true = ground (arith, c.units, c.small, some_wait) in
    rw (q, p) refl

sem_step-IsCovered :
    (e : Event) (es : List Event) (u : Users) → IsCovered (e ∷ es) u → IsCovered es (sem_step e u)
unfolding sem_step enters signals
sem_step-IsCovered (enter i) es u c = elim (Bool-cases (member i u.waiting)) [
  | inl q ↦ rw q (record { units = omega (arith, c.units); small = c.small })
  | inr q ↦ rw q (record { units = omega (arith, c.units); small = c.small })
]
sem_step-IsCovered (attempt i) es u c = elim (Bool-cases (member i u.waiting)) [
  | inl q ↦
      let fewer = length-remove i u.waiting q in
      subst (IsCovered es) (sym (attempt_lem i es u c q))
        (record { units = omega (arith, c.units, fewer); small = omega (arith, c.small) })
  | inr q ↦ rw q (record { units = c.units; small = c.small })
]
sem_step-IsCovered signal es u c =
    let more = value-signal u.sem (omega (arith, c.small)) in
    record { units = rw more (omega (arith, c.units)); small = rw more (omega (arith, c.small)) }

module _ (i : ℕ) where
  sem_step-out :
      (e : Event) (u : Users)
      → member i u.waiting ≡ false
      → calls_wait i (e ∷ []) ≡ false
      → member i (sem_step e u).waiting ≡ false
  unfolding sem_step calls_wait member sem_round
  sem_step-out (enter j) u out no_call = elim (Bool-cases (member j u.waiting)) [
    | inl q ↦ rw q out
    | inr q ↦ rw q (ground (arith, out))
  ]
  sem_step-out (attempt j) u out no_call = elim (Bool-cases (member j u.waiting)) [
    | inl q ↦ elim (Bool-cases (is_positive u.sem.value)) [
      | inl p ↦ rw (q, p) (member-remove_ne i j u.waiting out)
      | inr p ↦ rw (q, p) out
    ]
    | inr q ↦ rw q out
  ]
  sem_step-out signal u out no_call = out

  calls-split :
      (e : Event) (es : List Event)
      → calls_wait i (e ∷ es) ≡ false
      → (calls_wait i (e ∷ []) ≡ false) × (calls_wait i es ≡ false)
  unfolding calls_wait
  calls-split (enter j) es h = (ground arith, ground arith)
  calls-split (attempt j) es h = (refl, h)
  calls-split signal es h = (refl, h)

  sem_run-out :
      (es : List Event) (u : Users)
      → member i u.waiting ≡ false
      → calls_wait i es ≡ false
      → member i (sem_run es u).waiting ≡ false
  unfolding sem_run
  sem_run-out [] u out no_call = out
  sem_run-out (e ∷ es) u out no_call =
      let (now, later) = calls-split e es no_call in
      sem_run-out es (sem_step e u) (sem_step-out e u out now) later

  attempt-gone :
      (j : ℕ) (es : List Event) (u : Users)
      → IsCovered (attempt j ∷ es) u
      → i ≡ j
      → member i (sem_step (attempt j) u).waiting ≡ false
  unfolding sem_step
  attempt-gone j es u c e = elim (Bool-cases (member j u.waiting)) [
    | inl q ↦
        subst (λ v. member i v.waiting ≡ false) (sym (attempt_lem j es u c q))
          (rw e (member-remove j u.waiting))
    | inr q ↦ rw (q, e) q
  ]

  served :
      (es : List Event) (u : Users)
      → IsCovered es u
      → calls_wait i es ≡ false
      → attempts i es ≡ true
      → member i (sem_run es u).waiting ≡ false
  unfolding sem_run attempts calls_wait
  served [] u c no_call tries = cc
  served (enter j ∷ es) u c no_call tries =
      served es (sem_step (enter j) u) (sem_step-IsCovered (enter j) es u c)
        (calls-split (enter j) es no_call).1 tries
  served (signal ∷ es) u c no_call tries =
      served es (sem_step signal u) (sem_step-IsCovered signal es u c) no_call tries
  served (attempt j ∷ es) u c no_call tries = elim (Bool-cases (i == j)) [
    | inl e ↦ sem_run-out es (sem_step (attempt j) u) (attempt-gone j es u c (==→≡ i j e)) no_call
    | inr e ↦
        served es (sem_step (attempt j) u) (sem_step-IsCovered (attempt j) es u c) no_call
          (let later : ((i == j) || attempts i es) ≡ true = tries in ground (arith, later))
  ]

-- A task that waits for a semaphore is served: if there is a unit for every task that waits and for every call of `sem_wait` that is to come, then the task has left
-- `sem_wait` at the end of any sequence of events in which it makes a round, whatever the other tasks do before and behind, unless it
-- calls `sem_wait` once more.
pub waiting_served :
    (i : ℕ) (es : List Event) (u : Users)
    → length u.waiting + enters es ≤ u.sem.value
    → u.sem.value + signals es < 2 ^ 31
    → calls_wait i es ≡ false
    → attempts i es ≡ true
    → member i (sem_run es u).waiting ≡ false
waiting_served i es u enough small no_call tries =
    served i es u (record { units = enough; small = small }) no_call tries
