-- ===== src/Kmt/Tasks/Turn.antt =====
-- kernel/src/kmt.c: `context_switch` as a whole, and `create`.
use nju_os_lab.Prelude.{
  ℕ, zero, suc, ◌%◌, ◌++◌, ◌<◌, ◌≡◌, refl, true, false, some, List, [], ◌∷◌, ◌==◌, ◌⊎◌, length, set,
  arith, inl, inr, sym, ap, ◌∙◌, ==-refl,
}
use nju_os_lab.Kmt.Tasks.{
  working, is_free, Task, Kmt, get_task, can_run, next_index, set_current, set_free, start_task,
  context_switch, create,
}
use nju_os_lab.Kmt.Tasks.Rounds.{runs_at, First, find_free_lem, get_task-some}
use nju_os_lab.Kmt.Tasks.Switch.{
  some-inj, IsSched, set_free-Between, set_free-runs, start_task-IsSched,
}

runs-free :
    {A : Type 0} (me : ℕ) (tasks : List (Task A)) (j : ℕ) (t : Task A)
    → get_task j tasks ≡ some t
    → runs_at me tasks j ≡ true
    → is_free t.state ≡ true
runs-free me tasks j t et runs =
    let run : can_run me t ≡ true = rw (runs_at, et) at runs in ground arith

-- What `context_switch` on processor `me` leaves: its current task has been set free, the task at `j`
-- is the first free one of this processor behind it, and the context returned is that task's; it is the processor's current task now, and the
-- other processors' are as before.
pub record Switched {A : Type 0} (me : ℕ) (s : Kmt A) (context : A) (s' : Kmt A) : Type 0 where
  pub freed : List (Task A)
  pub chosen : ℕ
  pub task : Task A
  pub released : set_free (s.current me) s.tasks ≡ some freed
  pub first : First me freed (next_index (s.current me) % length s.tasks) chosen
  pub at : get_task chosen freed ≡ some task
  pub returned : context ≡ task.context
  pub current : s'.current me ≡ some chosen
  pub others : (c : ℕ) → (me == c) ≡ false → s'.current c ≡ s.current c

-- When tasks and processors agree, and its current task is there or a free task belongs to the processor, `context_switch` does not halt: its
-- loop ends within one round of the tasks, at the first free task of the processor behind the current one, which
-- counts as free now. Tasks and processors agree afterwards, so no task is run by two.
pub context_switch_lem :
    {A : Type 0} (me : ℕ) (s : Kmt A) (k : ℕ)
    → IsSched s.tasks s.current
    → k < length s.tasks
    → (s.current me ≡ some k) ⊎ (runs_at me s.tasks k ≡ true)
    → (context : A) × (s' : Kmt A) × (context_switch me s ≡ some (context, s'))
      × Switched me s context s'
      × IsSched s'.tasks s'.current
unfolding context_switch start_task
context_switch_lem {A} me s k sched hk runs =
    let (freed, released, between) =
      set_free-Between me s.tasks s.current (s.current me) sched refl in
    let (len, runs_on) =
      set_free-runs me s.tasks s.current (s.current me) freed sched refl released in
    let (j, found, first) =
      find_free_lem me freed (next_index (s.current me)) k (rw len hk) (runs_on k runs) in
    let (t, et) = get_task-some freed j first.inside in
    let some_task : (length s.tasks == 0) ≡ false = ground arith in
    let idle : is_free t.state ≡ true = runs-free me freed j t et first.here in
    (
      t.context,
      record {
        tasks = set freed j (record t { state = working; cpu = me });
        current = set_current me j s.current;
      },
      rw (context_switch, some_task, released, found, start_task, et) refl,
      record {
        freed = freed;
        chosen = j;
        task = t;
        released = released;
        first = rw (sym len) first;
        at = et;
        returned = refl;
        current = rw (==-refl me) refl;
        others = λ c ne. rw ne refl;
      },
      start_task-IsSched me freed s.current j t between et idle,
    )

module _ {A : Type 0} where
  get_task-append :
      (tasks rest : List (Task A)) (k : ℕ) (t : Task A)
      → get_task k tasks ≡ some t
      → get_task k (tasks ++ rest) ≡ some t
  unfolding get_task
  get_task-append [] rest k t e = cc
  get_task-append (x ∷ tasks) rest zero t e = e
  get_task-append (x ∷ tasks) rest (suc k) t e = get_task-append tasks rest k t e

  get_task-last :
      (tasks : List (Task A)) (v : Task A) (k : ℕ) (t : Task A)
      → get_task k (tasks ++ v ∷ []) ≡ some t
      → (get_task k tasks ≡ some t) ⊎ ((k ≡ length tasks) × (t ≡ v))
  unfolding get_task
  get_task-last [] v zero t e = inr (refl, some-inj (sym e))
  get_task-last [] v (suc k) t e = cc
  get_task-last (x ∷ tasks) v zero t e = inl e
  get_task-last (x ∷ tasks) v (suc k) t e = elim (get_task-last tasks v k t e) [
    | inl q ↦ inl q
    | inr (q, tv) ↦ inr (ap suc q, tv)
  ]

  -- Every task has its position in the list, counted from 1, as its number.
  abbrev pub Numbered : List (Task A) → Type 0
  Numbered tasks = (k : ℕ) (t : Task A) → get_task k tasks ≡ some t → t.tid ≡ suc k

  -- `create` keeps the agreement of tasks and processors, leaves the tasks that were there, and gives the new task the next number.
  pub create_lem :
      (ncpu : ℕ) (context : A) (s : Kmt A)
      → IsSched s.tasks s.current
      → Numbered s.tasks
      → let s' = create ncpu context s in
        IsSched s'.tasks s'.current
        × Numbered s'.tasks
        × ((k : ℕ) (t : Task A) → get_task k s.tasks ≡ some t → get_task k s'.tasks ≡ some t)
  unfolding create
  create_lem ncpu context s sched numbered = (
    record {
      currents = λ c k e.
          let (t, et, w, ct) = sched.currents c k e in (t, get_task-append s.tasks _ k t et, w, ct);
      workers = λ k t et w. elim (get_task-last s.tasks _ k t et) [
        | inl q ↦ sched.workers k t q w
        | inr (q, tv) ↦
            let idle : is_free t.state ≡ true = ap (λ x. is_free x.state) tv in absurd (cc)
      ];
    },
    λ k t et. elim (get_task-last s.tasks _ k t et) [
      | inl q ↦ numbered k t q
      | inr (q, tv) ↦ ap (λ x. x.tid) tv ∙ ap suc (sym q)
    ],
    λ k t et. get_task-append s.tasks _ k t et,
  )
