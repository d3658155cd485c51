-- ===== src/Kmt/Tests.antt =====
-- kernel/src/kmt.c: runs with two processors, and each theorem at an input.
use nju_os_lab.Prelude.{
  ℕ, zero, suc, ◌≡◌, refl, ◌+◌, Bool, true, false, Option, none, some, List, [], ◌∷◌, ◌==◌, ◌&&◌,
  if◌then◌else◌, ap, arith, inr, inl, Bool-cases, ==→≡, sym,
}
use nju_os_lab.Kmt.{pushcli, popcli}
use nju_os_lab.Kmt.Spin.{Spin, run, step, step_at}
use nju_os_lab.Kmt.Spin.Exclusion.{has_lock, depth}
use nju_os_lab.Kmt.Spin.Runs.{fresh, run_lem}
use nju_os_lab.Kmt.Tasks.{
  Task, Kmt, free, working, is_free, get_task, context_switch, set_free, find_free, start_task,
}
use nju_os_lab.Kmt.Tasks.Switch.{IsSched, Works, some-inj}
use nju_os_lab.Kmt.Tasks.Turn.{Switched, Numbered, context_switch_lem}

abbrev on : ℕ → Bool
on i = true

-- Two processors at the lock; the first one gets it.
abbrev both : List ℕ
both = 0 ∷ 1 ∷ 0 ∷ 1 ∷ 0 ∷ 1 ∷ []

run_lem_example :
    (s : Spin) × (run both (fresh on) ≡ some s)
    × ((i j : ℕ) → has_lock (s.procs i).stage ≡ true → has_lock (s.procs j).stage ≡ true → i ≡ j)
    × ((i : ℕ) → (s.procs i).cli.interrupts ≡ ((depth (s.procs i).stage == 0) && on i))
run_lem_example = run_lem on both

both-run : elim (run both (fresh on)) [ none ↦ false | some s ↦ has_lock (s.procs 0).stage ] ≡ true
unfolding run step step_at pushcli popcli
both-run = refl

abbrev task : ℕ → ℕ → Task ℕ
task tid cpu = record { tid = tid; context = 100 + tid; cpu = cpu; state = free; fildes = [] }

-- Four tasks on two processors; processor 0 runs the third.
abbrev four : Kmt ℕ
four = record {
  tasks = task 1 0 ∷ task 2 1 ∷ record (task 3 0) { state = working } ∷ task 4 1 ∷ [];
  current = λ c. if c == 0 then some 2 else none;
}

four_currents : (c k : ℕ) → four.current c ≡ some k → Works four.tasks k c
unfolding get_task
four_currents c k e = elim (Bool-cases (c == 0)) [
  | inl q ↦
      let at : c ≡ 0 = ==→≡ c 0 q in
      let two : k ≡ 2 = sym (some-inj (rw q at e)) in rw (at, two) (_, refl, refl, refl)
  | inr q ↦ let missing : none ≡ some k = rw q at e in cc
]

four_workers :
    (k : ℕ) (t : Task ℕ)
    → get_task k four.tasks ≡ some t
    → is_free t.state ≡ false
    → four.current t.cpu ≡ some k
unfolding get_task
four_workers zero t e w =
    let idle : true ≡ is_free t.state = ap (λ x. is_free x.state) (some-inj e) in cc
four_workers (suc zero) t e w =
    let idle : true ≡ is_free t.state = ap (λ x. is_free x.state) (some-inj e) in cc
four_workers (suc (suc zero)) t e w =
    let here : t.cpu ≡ 0 = ap (λ x. x.cpu) (sym (some-inj e)) in rw here refl
four_workers (suc (suc (suc zero))) t e w =
    let idle : true ≡ is_free t.state = ap (λ x. is_free x.state) (some-inj e) in cc
four_workers (suc (suc (suc (suc k)))) t e w = cc

four-IsSched : IsSched four.tasks four.current
four-IsSched = record { currents = four_currents; workers = four_workers }

four-Numbered : Numbered four.tasks
unfolding get_task
four-Numbered zero t e = sym (ap (λ x. x.tid) (some-inj e))
four-Numbered (suc zero) t e = sym (ap (λ x. x.tid) (some-inj e))
four-Numbered (suc (suc zero)) t e = sym (ap (λ x. x.tid) (some-inj e))
four-Numbered (suc (suc (suc zero))) t e = sym (ap (λ x. x.tid) (some-inj e))
four-Numbered (suc (suc (suc (suc k)))) t e = cc

abbrev context_of : Option (ℕ × Kmt ℕ) → Option ℕ
context_of none = none
context_of (some (context, s)) = some context

switch_runs : context_of (context_switch 0 four) ≡ some 101
unfolding context_switch set_free find_free start_task get_task
switch_runs = refl

context_switch_lem_example :
    (context : ℕ) × (s' : Kmt ℕ) × (context_switch 0 four ≡ some (context, s'))
    × Switched 0 four context s'
    × IsSched s'.tasks s'.current
unfolding get_task
context_switch_lem_example = context_switch_lem 0 four 0 four-IsSched (omega arith) (inr refl)
