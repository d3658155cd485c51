-- ===== src/Devfs/Saved.antt =====
-- kernel/src/vfs/vfs.c in front of kernel/src/vfs/devfs.c: a task that stores bytes on a device, and opens it again to load them.
use nju_os_lab.Prelude.{ℕ, ◌≡◌, refl, ◌∙◌, false, some, length, take, ℤ, pos}
use nju_os_lab.Klib.Strings.{Bytes}
use nju_os_lab.Vfs.{Mount, State, M, pure, ◌>>=◌}
use nju_os_lab.Vfs.Calls.{open_file, lseek, write, read, close_file}
use nju_os_lab.Devfs.{DevOps}
use nju_os_lab.Devfs.Table.{DevWorld, devfs_create}
use nju_os_lab.Devfs.Through.{alone, CanOpen, for_reading, for_writing, open_device}
use nju_os_lab.Devfs.Session.{read_device, write_device, seek_device, close_device}

-- Four calls in turn, with what they return.
module _ {W A B C E : Type 0} (m1 : M W A) (m2 : M W B) (m3 : M W C) (m4 : M W E) where
  unfoldable pub in_turn : M W (A × B × C × E)
  in_turn = do a ← m1; b ← m2; c ← m3; e ← m4; pure (a, b, c, e)

  in_turn_lem :
      (s s1 s2 s3 s4 : State W) (a : A) (b : B) (c : C) (e : E)
      → m1 s ≡ some (a, s1)
      → m2 s1 ≡ some (b, s2)
      → m3 s2 ≡ some (c, s3)
      → m4 s3 ≡ some (e, s4)
      → in_turn s ≡ some ((a, b, c, e), s4)
  unfolding in_turn
  in_turn_lem s s1 s2 s3 s4 a b c e e1 e2 e3 e4 =
      rw (◌>>=◌, e1) (rw (◌>>=◌, e2) (rw (◌>>=◌, e3) (rw (◌>>=◌, e4) refl)))

module _ {D : Type 0} (ops : DevOps D) (path : Bytes) (fd o n : ℕ) where
  -- `open` for writing, `lseek`, `write`, `close`.
  abbrev pub store : Bytes → M (DevWorld D) (ℤ × ℤ × ℤ × ℤ)
  store buf =
      in_turn (open_file (devfs_create ops) alone path 3)
        (lseek (devfs_create ops) alone fd (pos o) 0) (write (devfs_create ops) alone fd buf n)
        (close_file (devfs_create ops) alone fd)

  -- `open` for reading, `lseek`, `read`, `close`.
  abbrev pub load : M (DevWorld D) (ℤ × ℤ × (ℤ × Bytes) × ℤ)
  load =
      in_turn (open_file (devfs_create ops) alone path 2)
        (lseek (devfs_create ops) alone fd (pos o) 0) (read (devfs_create ops) alone fd n)
        (close_file (devfs_create ops) alone fd)

-- What a task leaves that has closed its files: all but the devices is as it was.
pub record IsLeft {D : Type 0} (s s1 : State (DevWorld D)) (d : D) : Type 0 where
  pub free : s1.vfs_lock ≡ false
  pub mounts : s1.shared.mounts ≡ s.shared.mounts
  pub fildes : s1.fildes ≡ s.fildes
  pub devices : s1.shared.world.devices ≡ d

module _ {D : Type 0} (ops : DevOps D) (s : State (DevWorld D)) (path : Bytes) (mn : Mount)
    (name : Bytes) (dev fd : ℕ) (h : CanOpen s path mn name dev fd) where
  store_lem :
      (o n res : ℕ) (buf : Bytes) (d : D)
      → ops.write dev o (take n buf) s.shared.world.devices ≡ (res, d)
      → (s1 : State (DevWorld D)) × (store ops path fd o n buf s
          ≡ some ((pos fd, pos o, pos res, pos 0), s1))
        × IsLeft s s1 d
  store_lem o n res buf d e =
      let (s1, tf, e1, h1, d1) = open_device ops s path mn name dev fd 3 (for_writing dev) h in
      let (s2, e2, h2, d2) =
        seek_device ops s1 s.shared.mounts s.fildes fd tf dev 3 0 o 0 refl refl h1 in
      let (s3, e3, h3, d3) =
        write_device ops s2 s.shared.mounts s.fildes fd tf dev o n res buf d h2 (rw (d2, d1) e) in
      let (s4, e4, free, mounts, fildes, d4) =
        close_device ops s3 s.shared.mounts s.fildes fd tf dev 3 _ h3 in
      (
        s4,
        in_turn_lem _ _ _ _ s s1 s2 s3 s4 _ _ _ _ e1 e2 e3 e4,
        record { free = free; mounts = mounts; fildes = fildes; devices = d4 ∙ d3 },
      )

  load_lem :
      (o n : ℕ) (s0 : Bytes) (d : D)
      → ops.read dev o n s.shared.world.devices ≡ (s0, d)
      → (s1 : State (DevWorld D)) × (load ops path fd o n s
          ≡ some ((pos fd, pos o, (pos (length s0), s0), pos 0), s1))
        × IsLeft s s1 d
  load_lem o n s0 d e =
      let (s1, tf, e1, h1, d1) = open_device ops s path mn name dev fd 2 (for_reading dev) h in
      let (s2, e2, h2, d2) =
        seek_device ops s1 s.shared.mounts s.fildes fd tf dev 2 0 o 0 refl refl h1 in
      let (s3, e3, h3, d3) =
        read_device ops s2 s.shared.mounts s.fildes fd tf dev o n s0 d h2 (rw (d2, d1) e) in
      let (s4, e4, free, mounts, fildes, d4) =
        close_device ops s3 s.shared.mounts s.fildes fd tf dev 2 _ h3 in
      (
        s4,
        in_turn_lem _ _ _ _ s s1 s2 s3 s4 _ _ _ _ e1 e2 e3 e4,
        record { free = free; mounts = mounts; fildes = fildes; devices = d4 ∙ d3 },
      )

module _ {D : Type 0} (ops : DevOps D) (s : State (DevWorld D)) (path : Bytes) (mn : Mount)
    (name : Bytes) (dev fd : ℕ) (h : CanOpen s path mn name dev fd) where
  -- What a task left that closed its files can be opened again.
  open_again : (s1 : State (DevWorld D)) (d : D) → IsLeft s s1 d → CanOpen s1 path mn name dev fd
  open_again s1 d left = record {
    free = left.free;
    mounted = rw left.mounts h.mounted;
    named = h.named;
    device = h.device;
    empty = rw left.fildes h.empty;
  }

  -- A task alone, on a path below a mount of devfs that names a device, with the lock free and an empty descriptor: it opens the path for writing, seeks,
  -- writes and closes, and then opens it for reading, seeks, reads and closes. Both times `open` returns the first empty descriptor. The devices see a write
  -- at the one offset and then a read at the other, and no more, and `write` and `read` return what the device does. At the end the lock is free, and
  -- the mounts and the descriptors are as they were.
  pub load-store :
      (o n o' n' res : ℕ) (buf s0 : Bytes) (d d' : D)
      → ops.write dev o (take n buf) s.shared.world.devices ≡ (res, d)
      → ops.read dev o' n' d ≡ (s0, d')
      → (s1 s2 : State (DevWorld D)) × (store ops path fd o n buf s
          ≡ some ((pos fd, pos o, pos res, pos 0), s1))
        × (load ops path fd o' n' s1 ≡ some ((pos fd, pos o', (pos (length s0), s0), pos 0), s2))
        × IsLeft s s2 d'
  load-store o n o' n' res buf s0 d d' e e' =
      let (s1, stored, left) = store_lem ops s path mn name dev fd h o n res buf d e in
      let (s2, loaded, left') =
        load_lem ops s1 path mn name dev fd (open_again s1 d left) o' n' s0 d'
          (rw left.devices e') in
      (
        s1,
        s2,
        stored,
        loaded,
        record {
          free = left'.free;
          mounts = left'.mounts ∙ left.mounts;
          fildes = left'.fildes ∙ left.fildes;
          devices = left'.devices;
        },
      )
