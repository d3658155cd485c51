-- ===== src/Vfs/MountTable.antt =====
-- kernel/src/vfs/vfs.c: `mount` and `unmount`.
use nju_os_lab.Prelude.{ℕ, ◌≡◌, refl, true, false, none, some, [], ◌∷◌, pos, minus_one, ==-refl}
use nju_os_lab.Klib.Strings.{Bytes, strcmp, streq}
use nju_os_lab.Vfs.{Mount, FsOps, Shared, State, ◌>>=◌, ◌>>◌, require, gets, modify, lock, unlock}
use nju_os_lab.Vfs.Mounts.{mount_list_find, mount_list_remove}
use nju_os_lab.Vfs.Calls.{find_mount, allocate, mount_list_append, mount_found, mount, unmount}
use nju_os_lab.Vfs.Rules.{IsSound}

streq_same : (s : Bytes) → streq s s ≡ true
unfolding streq strcmp
streq_same [] = refl
streq_same (c ∷ s) = rw (==-refl c) (streq_same s)

-- The state that a call leaves, with the lock free and the descriptors of the task as they were.
abbrev pub Quiet : {W : Type 0} → State W → State W → Type 0
Quiet s s' = (s'.vfs_lock ≡ false) × (s'.fildes ≡ s.fildes)

module _ {W : Type 0} (ops : FsOps W) (others : Shared W → Shared W) (sound : IsSound ops) where
  append_run :
      (path : Bytes) (fs : ℕ) (s : State W) (fn : ℕ) (w : W)
      → mount_list_find path s.shared.mounts ≡ none
      → ops.alloc s.shared.world ≡ some (fn, w)
      → mount_list_append ops others path fs s
        ≡ some (
          tt,
          record s {
            shared = record s.shared {
              world = w;
              mounts = record { addr = fn; path = path; fs = fs } ∷ s.shared.mounts;
            };
          },
        )
  unfolding mount_list_append find_mount gets modify require allocate
  append_run path fs s fn w missing e =
      rw (mount_list_append, ◌>>=◌, ◌>>◌, require, missing, allocate, e) refl

  -- What `mount` leaves on a path that is not mounted.
  pub record Mounted (path : Bytes) (fs : ℕ) (s : State W) : Type 0 where
    pub s1 : State W
    pub node : Mount
    pub returned : mount ops others path fs s ≡ some (pos 0, s1)
    pub quiet : Quiet s s1
    pub path_of : node.path ≡ path
    pub fs_of : node.fs ≡ fs
    pub listed : s1.shared.mounts ≡ node ∷ s.shared.mounts
    pub found : mount_list_find path s1.shared.mounts ≡ some node
    pub s2 : State W
    pub unmounted : unmount ops others path s1 ≡ some (pos 0, s2)
    pub quiet_again : Quiet s s2
    pub restored : s2.shared.mounts ≡ s.shared.mounts

  pub mount_lem :
      (path : Bytes) (fs : ℕ) (s : State W)
      → s.vfs_lock ≡ false
      → (mount_list_find path s.shared.mounts ≡ none → Mounted path fs s)
        × ((mn : Mount)
            → mount_list_find path s.shared.mounts ≡ some mn
            → (s' : State W) × (mount ops others path fs s ≡ some (minus_one, s'))
              × Quiet s s'
              × (s'.shared ≡ s.shared))
  unfolding mount mount_found mount_list_append find_mount unmount mount_list_find mount_list_remove
      lock unlock gets modify require allocate
  mount_lem path fs s unlocked = (
    λ missing.
        let (fn, w, e) = sound.has_memory s.shared.world in
        let same = streq_same path in
        let node : Mount = record { addr = fn; path = path; fs = fs } in
        let sh1 : Shared W = record s.shared { world = w; mounts = node ∷ s.shared.mounts } in
        record {
          s1 = record s { shared = sh1; vfs_lock = false };
          node = node;
          returned =
              rw
                (
                  mount,
                  unlocked,
                  missing,
                  mount_found,
                  ◌>>◌,
                  ◌>>=◌,
                  append_run path fs (record s { vfs_lock = true }) fn w missing e,
                )
                refl;
          quiet = (refl, refl);
          path_of = refl;
          fs_of = refl;
          listed = refl;
          found = rw same refl;
          s2 = record s { shared = record sh1 { mounts = s.shared.mounts }; vfs_lock = false };
          unmounted = rw same refl;
          quiet_again = (refl, refl);
          restored = refl;
        },
    λ mn there.
        (record s { vfs_lock = false }, rw (mount, unlocked, there) refl, (refl, refl), refl),
  )
