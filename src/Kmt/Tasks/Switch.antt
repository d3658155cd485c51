-- ===== src/Kmt/Tasks/Switch.antt =====
-- kernel/src/kmt.c: the two changes that `context_switch` makes to the tasks.
use nju_os_lab.Prelude.{
  ℕ, zero, suc, ◌≡◌, refl, true, false, Option, none, some, List, [], ◌∷◌, ◌==◌, ◌⊎◌, length, set,
  length-set, arith, Bool-cases, inl, inr, sym, ap, ◌∙◌, ==→≡, ==-refl,
}
use nju_os_lab.Kmt.Tasks.{free, working, is_free, Task, get_task, set_current, set_free}
use nju_os_lab.Kmt.Tasks.Rounds.{runs_at}

pub some-inj : {B : Type 0} {a b : B} → some a ≡ some b → a ≡ b
some-inj e = cc

module _ {A : Type 0} where
  get_task-set_self :
      (tasks : List (Task A)) (k : ℕ) (t v : Task A)
      → get_task k tasks ≡ some t
      → get_task k (set tasks k v) ≡ some v
  unfolding get_task
  get_task-set_self [] k t v e = cc
  get_task-set_self (x ∷ tasks) zero t v e = refl
  get_task-set_self (x ∷ tasks) (suc k) t v e = get_task-set_self tasks k t v e

  get_task-set_ne :
      (tasks : List (Task A)) (k j : ℕ) (v : Task A)
      → (k == j) ≡ false
      → get_task j (set tasks k v) ≡ get_task j tasks
  unfolding get_task
  get_task-set_ne [] k j v ne = refl
  get_task-set_ne (x ∷ tasks) zero zero v ne = absurd (ground arith)
  get_task-set_ne (x ∷ tasks) zero (suc j) v ne = refl
  get_task-set_ne (x ∷ tasks) (suc k) zero v ne = refl
  get_task-set_ne (x ∷ tasks) (suc k) (suc j) v ne = get_task-set_ne tasks k j v (ground arith)

  get_task-set_cases :
      (tasks : List (Task A)) (j k : ℕ) (t v t' : Task A)
      → get_task j tasks ≡ some t
      → get_task k (set tasks j v) ≡ some t'
      → (((j == k) ≡ true) × (j ≡ k) × (t' ≡ v))
        ⊎ (((j == k) ≡ false) × (get_task k tasks ≡ some t'))
  get_task-set_cases tasks j k t v t' e e' = elim (Bool-cases (j == k)) [
    | inl q ↦
        let same : j ≡ k = ==→≡ j k q in
        let at : get_task k (set tasks j v) ≡ some v =
          rw (sym same) (get_task-set_self tasks j t v e) in
        inl (q, same, some-inj (sym e' ∙ at))
    | inr q ↦ inr (q, sym (get_task-set_ne tasks j k v q) ∙ e')
  ]

  -- The task at position `k` is being run by processor `c`.
  abbrev pub Works : List (Task A) → ℕ → ℕ → Type 0
  Works tasks k c =
      (t : Task A) × (get_task k tasks ≡ some t) × (is_free t.state ≡ false) × (t.cpu ≡ c)

  -- Each processor's current task works for it, and each working task is the current one of its
  -- processor; so no task is run by two.
  pub record IsSched (tasks : List (Task A)) (current : ℕ → Option ℕ) : Type 0 where
    pub currents : (c k : ℕ) → current c ≡ some k → Works tasks k c
    pub workers :
        (k : ℕ) (t : Task A)
        → get_task k tasks ≡ some t
        → is_free t.state ≡ false
        → current t.cpu ≡ some k

  -- The same but for processor `me`, which has no task.
  pub record Between (me : ℕ) (tasks : List (Task A)) (current : ℕ → Option ℕ) : Type 0 where
    pub currents : (c k : ℕ) → (me == c) ≡ false → current c ≡ some k → Works tasks k c
    pub workers :
        (k : ℕ) (t : Task A)
        → get_task k tasks ≡ some t
        → is_free t.state ≡ false
        → (current t.cpu ≡ some k) × ((me == t.cpu) ≡ false)

  module _ (me : ℕ) (tasks : List (Task A)) (current : ℕ → Option ℕ) where
    pub set_free-Between :
        (o : Option ℕ)
        → IsSched tasks current
        → current me ≡ o
        → (freed : List (Task A)) × (set_free o tasks ≡ some freed) × Between me freed current
    unfolding set_free
    set_free-Between none sched e = (
      tasks,
      refl,
      record {
        currents = λ c k ne ec. sched.currents c k ec;
        workers = λ k t et w. (
          sched.workers k t et w,
          elim (Bool-cases (me == t.cpu)) [
            | inl q ↦
                let same : current me ≡ current t.cpu = ap current (==→≡ me t.cpu q) in
                let here = sched.workers k t et w in absurd (cc)
            | inr q ↦ q
          ],
        );
      },
    )
    set_free-Between (some k0) sched e =
        let (t0, e0, w0, c0) = sched.currents me k0 e in
        let v : Task A = record t0 { state = free } in
        (
          set tasks k0 v,
          rw (set_free, e0, w0) refl,
          record {
            currents = λ c k ne ec.
                let (t, et, w, ct) = sched.currents c k ec in
                elim (Bool-cases (k0 == k)) [
                  | inl q ↦
                      let same : get_task k0 tasks ≡ get_task k tasks =
                        ap (λ x. get_task x tasks) (==→≡ k0 k q) in
                      let one : t0 ≡ t = some-inj (sym e0 ∙ same ∙ et) in
                      let cpus : me ≡ c = sym c0 ∙ ap (λ x. x.cpu) one ∙ ct in
                      let me_c : (me == c) ≡ true = rw cpus (==-refl c) in absurd (cc)
                  | inr q ↦ (t, get_task-set_ne tasks k0 k v q ∙ et, w, ct)
                ];
            workers = λ k t et w. elim (get_task-set_cases tasks k0 k t0 v t e0 et) [
              | inl (q, same, tv) ↦
                  let idle : is_free t.state ≡ true = ap (λ x. is_free x.state) tv in absurd (cc)
              | inr (q, et') ↦ (
                sched.workers k t et' w,
                elim (Bool-cases (me == t.cpu)) [
                  | inl own ↦
                      let here : current me ≡ some k =
                        ap current (==→≡ me t.cpu own) ∙ sched.workers k t et' w in
                      let same : k0 ≡ k = some-inj (sym e ∙ here) in
                      let k0_k : (k0 == k) ≡ true = rw same (==-refl k) in absurd (cc)
                  | inr other ↦ other
                ],
              )
            ];
          },
        )

    pub set_free-runs :
        (o : Option ℕ) (freed : List (Task A))
        → IsSched tasks current
        → current me ≡ o
        → set_free o tasks ≡ some freed
        → (length freed ≡ length tasks)
          × ((k : ℕ) → (o ≡ some k) ⊎ (runs_at me tasks k ≡ true) → runs_at me freed k ≡ true)
    unfolding set_free
    set_free-runs none freed sched e ef =
        let same : tasks ≡ freed = some-inj ef in
        (ap length (sym same), λ k r. elim r [ inl q ↦ absurd (cc) | inr q ↦ rw (sym same) q ])
    set_free-runs (some k0) freed sched e ef =
        let (t0, e0, w0, c0) = sched.currents me k0 e in
        let v : Task A = record t0 { state = free } in
        let same : set tasks k0 v ≡ freed = some-inj (sym (rw (set_free, e0, w0) refl) ∙ ef) in
        let own : runs_at me (set tasks k0 v) k0 ≡ true =
          rw (runs_at, get_task-set_self tasks k0 t0 v e0, c0) (==-refl me) in
        (
          ap length (sym same) ∙ length-set tasks k0 v,
          λ k r. rw (sym same) (elim (Bool-cases (k0 == k)) [
            | inl q ↦ let at : k0 ≡ k = ==→≡ k0 k q in rw (sym at) own
            | inr q ↦ elim r [
              | inl cur ↦
                  let at : k0 ≡ k = some-inj cur in
                  let k0_k : (k0 == k) ≡ true = rw at (==-refl k) in absurd (cc)
              | inr runs ↦ rw (runs_at, get_task-set_ne tasks k0 k v q) runs
            ]
          ]),
        )

    pub start_task-IsSched :
        (j : ℕ) (t : Task A)
        → Between me tasks current
        → get_task j tasks ≡ some t
        → is_free t.state ≡ true
        → IsSched (set tasks j (record t { state = working; cpu = me })) (set_current me j current)
    start_task-IsSched j t b et idle = record {
      currents = λ c k ec. elim (Bool-cases (me == c)) [
        | inl q ↦
            let jk : j ≡ k = some-inj (rw q at ec) in
            (
              record t { state = working; cpu = me },
              rw (sym jk) (get_task-set_self tasks j t _ et),
              refl,
              ==→≡ me c q,
            )
        | inr q ↦
            let (t1, e1, w1, c1) = b.currents c k q (rw q at ec) in
            elim (Bool-cases (j == k)) [
              | inl jk ↦
                  let same : get_task j tasks ≡ get_task k tasks =
                    ap (λ x. get_task x tasks) (==→≡ j k jk) in
                  let one : t ≡ t1 = some-inj (sym et ∙ same ∙ e1) in
                  let idle1 : is_free t1.state ≡ true = rw (sym one) idle in absurd (cc)
              | inr ne ↦ (t1, get_task-set_ne tasks j k _ ne ∙ e1, w1, c1)
            ]
      ];
      workers = λ k t' e w. elim (get_task-set_cases tasks j k t _ t' et e) [
        | inl (q, same, tv) ↦
            let at : me ≡ t'.cpu = sym (ap (λ x. x.cpu) tv) in
            let own : (me == t'.cpu) ≡ true = rw (sym at) (==-refl me) in rw own (ap some same)
        | inr (q, e') ↦ let (here, other) = b.workers k t' e' w in rw other here
      ];
    }
