-- ===== src/Kmt/Tasks.antt =====
-- kernel/src/kmt.c: the list of tasks and the scheduler. A task node is its position in the list,
-- which only grows at its end. `A` is the type of the saved contexts.
pub mod Rounds
pub mod Switch
pub mod Turn
use nju_os_lab.Prelude.{
  ℕ, zero, suc, ◌+◌, ◌%◌, Bool, true, false, Option, none, some, List, [], ◌∷◌, ◌++◌, ◌==◌, ◌&&◌,
  if◌then◌else◌, length, get_elem?, set, ◌>>=◌, ◌>>◌, assert, replicate,
}

pub data TaskState : Type 0 where
  free working : TaskState

abbrev pub is_free : TaskState → Bool
is_free free = true
is_free working = false

-- `struct task`, with the fields that kmt.c reads again.
pub record Task (A : Type 0) : Type 0 where
  pub tid : ℕ
  pub context : A
  pub cpu : ℕ
  pub state : TaskState
  pub fildes : List (Option ℕ)

-- `head` and `current`; `task_count` is the length of the list.
pub record Kmt (A : Type 0) : Type 0 where
  pub tasks : List (Task A)
  pub current : ℕ → Option ℕ

-- `find_task_index(_current()) + 1`: -1 for no task, and the node's position else.
abbrev pub next_index : Option ℕ → ℕ
next_index none = 0
next_index (some k) = suc k

abbrev pub set_current : ℕ → ℕ → (ℕ → Option ℕ) → ℕ → Option ℕ
set_current me k current c = if me == c then some k else current c

module _ {A : Type 0} where
  -- `get_task`, `NULL` as `none`.
  unfoldable pub get_task : ℕ → List (Task A) → Option (Task A)
  get_task position [] = none
  get_task zero (t ∷ rest) = some t
  get_task (suc position) (t ∷ rest) = get_task position rest

  unfoldable pub save_at : Option ℕ → A → Kmt A → Kmt A
  save_at none context s = s
  save_at (some k) context s = elim (get_task k s.tasks) [
    | none ↦ s
    | some t ↦ record s { tasks = set s.tasks k (record t { context = context }) }
  ]

  unfoldable pub context_save : ℕ → A → Kmt A → Kmt A
  context_save me context s = save_at (s.current me) context s

  -- The current task, if there is one, is set free. Halts if it is not working.
  unfoldable pub set_free : Option ℕ → List (Task A) → Option (List (Task A))
  set_free none tasks = some tasks
  set_free (some k) tasks = elim (get_task k tasks) [
    | none ↦ none
    | some t ↦ if is_free t.state then none else some (set tasks k (record t { state = free }))
  ]

  abbrev pub can_run : ℕ → Task A → Bool
  can_run me t = is_free t.state && (t.cpu == me)

  -- The loop; `none` if the fuel runs out. The index is reduced where the task is looked up.
  unfoldable pub find_free : ℕ → ℕ → ℕ → List (Task A) → Option ℕ
  find_free zero me index tasks = none
  find_free (suc fuel) me index tasks =
      let later = find_free fuel me (suc (index % length tasks)) tasks in
      elim (get_task (index % length tasks) tasks) [
        | none ↦ none
        | some t ↦ if can_run me t then some (index % length tasks) else later
      ]

  -- The task becomes the current one of the processor; its saved context is the result.
  unfoldable pub start_task : ℕ → ℕ → List (Task A) → (ℕ → Option ℕ) → Option (A × Kmt A)
  start_task me k tasks current = elim (get_task k tasks) [
    | none ↦ none
    | some t ↦ some (
      t.context,
      record {
        tasks = set tasks k (record t { state = working; cpu = me });
        current = set_current me k current;
      },
    )
  ]

  -- `none`: without tasks the remainder by 0 or the assertion halts; or no task can run.
  unfoldable pub context_switch : ℕ → Kmt A → Option (A × Kmt A)
  context_switch me s = if length s.tasks == 0 then none else do
    tasks ← set_free (s.current me) s.tasks
    k ← find_free (length tasks) me (next_index (s.current me)) tasks
    start_task me k tasks s.current

  -- `create`, given the context that `_kcontext` made; its allocations are assumed to succeed.
  unfoldable pub create : ℕ → A → Kmt A → Kmt A
  create ncpu context s = record s {
    tasks =
        s.tasks
        ++ record {
          tid = suc (length s.tasks);
          context = context;
          cpu = length s.tasks % ncpu;
          state = free;
          fildes = replicate 16 none;
        }
          ∷ [];
  }
