-- ===== src/Kmt/Tasks/Rounds.antt =====
-- kernel/src/kmt.c: the loop of `context_switch` goes around the tasks.
use nju_os_lab.Prelude.{
  ℕ, zero, suc, ◌+◌, ◌-◌, ◌%◌, ◌≤◌, ◌<◌, ◌≡◌, ◌≢◌, refl, Bool, true, false, none, some, List, [],
  ◌∷◌, ◌==◌, if◌then◌else◌, length, leb, arith, Bool-cases, inl, inr, sym, ap, ==→≡,
}
use native.Mathlib.Nat.{mod_self, mod-eq_of_lt, mod-lt}
use nju_os_lab.Kmt.Tasks.{Task, get_task, can_run, find_free}

-- How far the loop goes from `r` to `k` around `n` tasks.
abbrev pub around : ℕ → ℕ → ℕ → ℕ
around n r k = if leb r k then k - r else k + n - r

abbrev pub next_of : ℕ → ℕ → ℕ
next_of n r = if suc r == n then 0 else suc r

next_mod : (n r : ℕ) → r < n → suc r % n ≡ next_of n r
next_mod n r h = elim (Bool-cases (suc r == n)) [
  | inl e ↦ let same : suc r ≡ n = ==→≡ (suc r) n e in rw (e, same) (mod_self n)
  | inr e ↦ rw e (mod-eq_of_lt (ground arith))
]

around-next : (n r k : ℕ) → r < n → k < n → r ≢ k → suc (around n (next_of n r) k) ≡ around n r k
around-next n r k hr hk ne = ground arith

around_self : (n r : ℕ) → around n r r ≡ 0
around_self n r = ground arith

around-< : (n r k : ℕ) → r < n → k < n → around n r k < n
around-< n r k hr hk = ground arith

less : {a b c : ℕ} → suc a ≡ b → b < suc c → a < c
less e h = omega arith

one_more : {a b c d : ℕ} → suc a ≡ b → suc c ≡ d → a ≤ c → b ≤ d
one_more e e' h = omega arith

next_of-< : (n r : ℕ) → r < n → next_of n r < n
next_of-< n r h = ground arith

pub get_task-some :
    {A : Type 0} (tasks : List (Task A)) (k : ℕ)
    → k < length tasks
    → (t : Task A) × (get_task k tasks ≡ some t)
unfolding get_task
get_task-some [] k h = absurd (omega arith)
get_task-some (t ∷ tasks) zero h = (t, refl)
get_task-some (t ∷ tasks) (suc k) h = get_task-some tasks k (omega arith)

module _ {A : Type 0} (me : ℕ) (tasks : List (Task A)) where
  -- The task at a position can be switched to.
  abbrev pub runs_at : ℕ → Bool
  runs_at k = elim (get_task k tasks) [ none ↦ false | some t ↦ can_run me t ]

  -- The first such task from `r` on.
  pub record First (r j : ℕ) : Type 0 where
    pub here : runs_at j ≡ true
    pub inside : j < length tasks
    pub first :
        (k : ℕ)
        → k < length tasks
        → runs_at k ≡ true
        → around (length tasks) r j ≤ around (length tasks) r k

  differ : {r : ℕ} (k : ℕ) → r ≡ k → runs_at r ≡ false → runs_at k ≢ true
  differ k same idle runs = let idle_k : runs_at k ≡ false = rw (sym same) idle in cc

  find_free-First :
      (fuel i r k : ℕ)
      → i % length tasks ≡ r
      → r < length tasks
      → k < length tasks
      → runs_at k ≡ true
      → around (length tasks) r k < fuel
      → (j : ℕ) × (find_free fuel me i tasks ≡ some j) × First r j
  unfolding find_free
  find_free-First zero i r k e hr hk runs enough = absurd (omega arith)
  find_free-First (suc fuel) i r k e hr hk runs enough =
      let n = length tasks in
      let (t, et) = get_task-some tasks r hr in
      elim (Bool-cases (can_run me t)) [
        | inl c ↦ (
          r,
          rw (find_free, e, et, c) (ap some e),
          record {
            here = rw (runs_at, et) c;
            inside = hr;
            first =
                λ k' hk' runs'. let none_left : around n r r ≡ 0 = around_self n r in omega arith;
          },
        )
        | inr c ↦
            let apart : (k' : ℕ) → runs_at k' ≡ true → r ≢ k' =
              λ k' runs' same. differ k' same (rw (runs_at, et) c) runs' in
            let (j, ej, found) =
              find_free-First fuel (suc r) (next_of n r) k (next_mod n r hr) (next_of-< n r hr) hk
                runs (less (around-next n r k hr hk (apart k runs)) enough) in
            (
              j,
              rw (find_free, e, et, c, e) ej,
              record {
                here = found.here;
                inside = found.inside;
                first = λ k' hk' runs'.
                    one_more (around-next n r j hr found.inside (apart j found.here))
                      (around-next n r k' hr hk' (apart k' runs')) (found.first k' hk' runs');
              },
            )
      ]

  -- The loop of `context_switch` ends within as many rounds as there are tasks if some task can be
  -- switched to, and it finds the first such task in the order of the list, counted on around its end from the
  -- task after the one that ran.
  pub find_free_lem :
      (i k : ℕ)
      → k < length tasks
      → runs_at k ≡ true
      → (j : ℕ) × (find_free (length tasks) me i tasks ≡ some j) × First (i % length tasks) j
  find_free_lem i k hk runs =
      let n = length tasks in
      let hr : i % n < n = mod-lt i (omega arith) in
      find_free-First n i (i % n) k refl hr hk runs (around-< n (i % n) k hr hk)
