-- ===== src/Vfs/Descriptors.antt =====
-- kernel/src/vfs/vfs.c: `open` and `close`, and the table of descriptors.
use nju_os_lab.Prelude.{
  ℕ, suc, ◌≡◌, refl, true, false, Option, none, some, List, [], ◌∷◌, ℤ, pos, minus_one, is_zero,
  get_elem?, set, arith, Bool-cases, Option-cases, inl, inr, ◌⊎◌, ap,
}
use nju_os_lab.Klib.Strings.{Bytes}
use nju_os_lab.Vfs.{Inode, Mount, FsOps, Shared, State, pure, ◌>>◌, gets, unlock}
use nju_os_lab.Vfs.Files.{find_filde_index}
use nju_os_lab.Vfs.Calls.{
  resolve, file_at, set_object, file_list_append, drop_file, release, open_result, open_node,
  open_mount, open_slot, open_file, close_result, close_file,
}
use nju_os_lab.Vfs.Rules.{
  Returns, Holds, IsSound, bind, done, lock_rule, unlock_rule, gets_rule, modify_rule, call_rule,
  call_file_rule, get_file_rule, set_filde_rule, new_file_rule, close_inode_rule,
}

-- `find_filde_index(tk, NULL)` is the first empty descriptor; filling it and emptying it again
-- gives the table back.
pub find_filde_index-empty :
    (t : List (Option ℕ)) (fd : ℕ)
    → find_filde_index t none ≡ some fd
    → (f : ℕ)
    → (get_elem? (set t fd (some f)) fd ≡ some (some f)) × (set (set t fd (some f)) fd none ≡ t)
unfolding find_filde_index
find_filde_index-empty [] fd e f = cc
find_filde_index-empty (none ∷ t) fd e f = let here : fd ≡ 0 = ground arith in rw here (refl, refl)
find_filde_index-empty (some x ∷ t) fd e f = elim (Option-cases (find_filde_index t none)) [
  | inl q ↦ absurd (ground arith)
  | inr (i, q) ↦
      let next : fd ≡ suc i = ground arith in
      let (filled, emptied) = find_filde_index-empty t i q f in
      rw next (filled, ap (λ l. some x ∷ l) emptied)
]

-- What `open` leaves: -1 and the table as it was, or the first empty descriptor, filled.
abbrev pub Opened : {W : Type 0} → List (Option ℕ) → ℤ → State W → Type 0
Opened t r s =
    ((r ≡ minus_one) × Holds false t s)
    ⊎ ((fd : ℕ) × (tf : ℕ) × (find_filde_index t none ≡ some fd)
        × (r ≡ pos fd)
        × Holds false (set t fd (some tf)) s)

module _ {W : Type 0} (ops : FsOps W) (others : Shared W → Shared W) (sound : IsSound ops)
    (t : List (Option ℕ)) where
  fail : Returns (Holds {W = W} true t) (unlock >> pure minus_one) (Opened t)
  fail = bind _ _ (unlock_rule t) (λ u. done (Opened t) minus_one (λ s p. inl (refl, p)))

  module _ (fd : ℕ) (empty : find_filde_index t none ≡ some fd) where
    open_result-Opened :
        (tf : ℕ) (node : Inode) (res : ℤ)
        → Returns (Holds true t) (open_result ops others fd tf node res) (Opened t)
    unfolding open_result file_list_append release
    open_result-Opened tf node res = elim (Bool-cases (is_zero res)) [
      | inl ok ↦ rw ok (
          bind _ _ (modify_rule t true _) (λ u. bind _ _ (set_filde_rule t true fd (some tf)) (λ v.
            bind _ _ (unlock_rule (set t fd (some tf)))
              (λ w. done (Opened t) (pos fd) (λ s p. inr (fd, tf, empty, refl, p))))))
      | inr bad ↦ rw bad (
          bind _ _ (unlock_rule t) (λ u.
            bind _ _ (close_inode_rule ops others sound t false node.fs node)
              (λ v. bind _ _ (lock_rule t) (λ w. bind _ _ (modify_rule t true _) (λ x. fail)))))
    ]

    open_node-Opened :
        (node : Option Inode) (flags : ℕ)
        → Returns (Holds true t) (open_node ops others fd node flags) (Opened t)
    unfolding open_node file_at set_object
    open_node-Opened none flags = fail
    open_node-Opened (some node) flags =
        bind _ _ (new_file_rule ops others sound t true node) (λ tf. bind _ _ (unlock_rule t) (λ u.
          bind _ _ (call_file_rule t false others tf _ (sound.opens flags)) (λ res.
            bind _ _ (lock_rule t) (λ v.
              bind _ _ (gets_rule t true _)
                (λ f. bind _ _ (modify_rule t true _) (λ w. open_result-Opened tf node res))))))

    open_mount-Opened :
        (m : Option (Mount × Bytes)) (flags : ℕ)
        → Returns (Holds true t) (open_mount ops others fd m flags) (Opened t)
    unfolding open_mount
    open_mount-Opened none flags = fail
    open_mount-Opened (some (mn, subpath)) flags = bind _ _ (unlock_rule t) (λ u.
        bind _ _ (call_rule t false others _ (sound.lookups mn.fs subpath flags))
          (λ node. bind _ _ (lock_rule t) (λ v. open_node-Opened node flags)))

  open_slot-Opened :
      (slot : Option ℕ) (path : Bytes) (flags : ℕ)
      → find_filde_index t none ≡ slot
      → Returns (Holds true t) (open_slot ops others slot path flags) (Opened t)
  unfolding open_slot resolve
  open_slot-Opened none path flags e = fail
  open_slot-Opened (some fd) path flags e =
      bind _ _ (gets_rule t true _) (λ m. open_mount-Opened fd e m flags)

  -- If memory does not run out, and file systems close their inodes with 0 and do not halt, then, started with the lock free, `open` ends with the lock free: it returns -1 and leaves the
  -- descriptors as they were, or it returns the first empty descriptor, puts a file there, and leaves
  -- the others as they were. It does not halt.
  pub open_file-Opened :
      (path : Bytes) (flags : ℕ)
      → Returns (Holds false t) (open_file ops others path flags) (Opened t)
  unfolding open_file gets
  open_file-Opened path flags =
      bind _ _ (lock_rule t)
        (λ u s p. open_slot-Opened (find_filde_index s.fildes none) path flags (rw p.1 refl) s p)

  -- What `close` of the descriptor `fd` leaves.
  abbrev pub Closed : ℕ → ℤ → State W → Type 0
  Closed fd r s =
      ((is_zero r ≡ true) × Holds false (set t fd none) s) ⊎ ((is_zero r ≡ false) × Holds false t s)

  close_result-Closed :
      (fd tf fs : ℕ) (res : ℤ)
      → Returns (Holds true t) (close_result ops others fd tf fs res) (Closed fd)
  unfolding close_result drop_file file_at
  close_result-Closed fd tf fs res = elim (Bool-cases (is_zero res)) [
    | inl ok ↦ rw ok (
        bind _ _ (unlock_rule t) (λ u. bind _ _ (gets_rule t false _) (λ f.
          bind _ _ (close_inode_rule ops others sound t false fs _) (λ c.
            bind _ _ (lock_rule t) (λ v. bind _ _ (modify_rule t true _) (λ w.
              bind _ _ (set_filde_rule t true fd none) (λ x.
                bind _ _ (unlock_rule (set t fd none))
                  (λ y. done (Closed fd) res (λ s p. inl (ok, p))))))))))
    | inr bad ↦ rw bad (bind _ _ (unlock_rule t) (λ u. done (Closed fd) res (λ s p. inr (bad, p))))
  ]

  -- If memory does not run out, and file systems close their inodes with 0 and do not halt, then, started with the lock free on an open descriptor, `close` ends with the lock free, without
  -- halting: with result 0 it has emptied that descriptor, with another result the table is as it was.
  pub close_file-Closed :
      (fd tf : ℕ)
      → get_elem? t fd ≡ some (some tf)
      → Returns (Holds false t) (close_file ops others fd) (Closed fd)
  unfolding close_file file_at
  close_file-Closed fd tf e = bind _ _ (lock_rule t) (λ u.
      bind _ _ (get_file_rule t true fd tf e) (λ f.
        bind _ _ (λ s p. gets_rule t true _ s p.1)
          (λ file. bind _ _ (unlock_rule t) (λ v.
            bind _ _ (call_file_rule t false others f _ sound.file_closes)
              (λ res. bind _ _ (lock_rule t) (λ w. close_result-Closed fd f file.inode.fs res))))))
