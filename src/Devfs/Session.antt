-- ===== src/Devfs/Session.antt =====
-- kernel/src/vfs/vfs.c in front of kernel/src/vfs/devfs.c: the calls on an open device.
use nju_os_lab.Prelude.{
  ℕ, ◌+◌, ◌%◌, ◌^◌, ◌≡◌, refl, true, false, Option, none, some, List, ◌==◌, if◌then◌else◌, length,
  take, set, pos,
}
use nju_os_lab.Klib.Strings.{Bytes}
use nju_os_lab.Vfs.{File, Mount, State, lock, unlock, gets, require, modify, call, call_file}
use nju_os_lab.Vfs.Files.{set_filde, file_list_remove}
use nju_os_lab.Vfs.Calls.{
  file_at, drop_file, close_inode, close_result, close_file, read, write, lseek,
}
use nju_os_lab.Devfs.{DevOps, is_seekable, inode_read, inode_write, inode_lseek}
use nju_os_lab.Devfs.Table.{DevWorld, flag_of, number_of, devfs_create}
use nju_os_lab.Devfs.Through.{
  alone, IsOpen, same_place, take_lock, with_file, after_file, on_file-after_file,
}

module _ {D : Type 0} (ops : DevOps D) (s : State (DevWorld D)) (mounts : List Mount)
    (table : List (Option ℕ)) (fd tf dev : ℕ) where
  -- The descriptor after its offset was changed.
  moved :
      (f : File) (w : DevWorld D) (flags o o' : ℕ)
      → IsOpen s mounts table fd tf dev flags o
      → f.inode ≡ (s.shared.objects tf).inode
      → f.flags ≡ flags
      → f.offset ≡ o'
      → w.nodes ≡ s.shared.world.nodes
      → IsOpen (after_file ops s tf f w) mounts table fd tf dev flags o'
  moved f w flags o o' h inode flagged at nodes =
      let same = same_place tf in
      record {
        free = refl;
        mounted = h.mounted;
        filled = h.filled;
        without = h.without;
        node = rw (same, nodes, inode) h.node;
        flagged = rw same flagged;
        at = rw same at;
      }

  pub read_device :
      (o n : ℕ) (s0 : Bytes) (d : D)
      → IsOpen s mounts table fd tf dev 2 o
      → ops.read dev o n s.shared.world.devices ≡ (s0, d)
      → (s1 : State (DevWorld D)) × (read (devfs_create ops) alone fd n s
          ≡ some ((pos (length s0), s0), s1))
        × IsOpen s1 mounts table fd tf dev 2 ((o + length s0) % 2 ^ 64)
        × (s1.shared.world.devices ≡ d)
  unfolding read devfs_create inode_read
  read_device o n s0 d h e =
      let f0 = s.shared.objects tf in
      let f : File = record f0 { flags = 2; offset = (o + length s0) % 2 ^ 64 } in
      let w : DevWorld D = record s.shared.world { devices = d } in
      (
        after_file ops s tf f w,
        on_file-after_file ops s fd tf _ _ f w h.free h.filled
            (rw (h.flagged, h.node, h.at) (rw e refl)),
        moved f w 2 o _ h refl refl refl refl,
        refl,
      )

  pub write_device :
      (o n res : ℕ) (buf : Bytes) (d : D)
      → IsOpen s mounts table fd tf dev 3 o
      → ops.write dev o (take n buf) s.shared.world.devices ≡ (res, d)
      → (s1 : State (DevWorld D)) × (write (devfs_create ops) alone fd buf n s ≡ some (pos res, s1))
        × IsOpen s1 mounts table fd tf dev 3 ((o + res) % 2 ^ 64)
        × (s1.shared.world.devices ≡ d)
  unfolding write devfs_create inode_write
  write_device o n res buf d h e =
      let f0 = s.shared.objects tf in
      let f : File = record f0 { flags = 3; offset = (o + res) % 2 ^ 64 } in
      let w : DevWorld D = record s.shared.world { devices = d } in
      (
        after_file ops s tf f w,
        on_file-after_file ops s fd tf _ _ f w h.free h.filled
            (rw (h.flagged, h.node, h.at) (rw e refl)),
        moved f w 3 o _ h refl refl refl refl,
        refl,
      )

  pub seek_device :
      (flags o o' whence : ℕ)
      → is_seekable (some (flag_of flags)) ≡ true
      → number_of (some (flag_of flags)) ≡ flags
      → IsOpen s mounts table fd tf dev flags o
      → (s1 : State (DevWorld D)) × (lseek (devfs_create ops) alone fd (pos o') whence s
          ≡ some (pos o', s1))
        × IsOpen s1 mounts table fd tf dev flags o'
        × (s1.shared.world.devices ≡ s.shared.world.devices)
  unfolding lseek devfs_create inode_lseek
  seek_device flags o o' whence seekable numbered h =
      let f0 = s.shared.objects tf in
      let f : File = record f0 { flags = flags; offset = o' } in
      (
        after_file ops s tf f s.shared.world,
        on_file-after_file ops s fd tf _ _ f _ h.free h.filled
            (rw h.flagged (rw seekable (rw numbered refl))),
        moved f _ flags o o' h refl refl refl refl,
        refl,
      )

  -- `close` of a device: the descriptor is empty again.
  pub close_device :
      (flags o : ℕ)
      → IsOpen s mounts table fd tf dev flags o
      → (s1 : State (DevWorld D)) × (close_file (devfs_create ops) alone fd s ≡ some (pos 0, s1))
        × (s1.vfs_lock ≡ false)
        × (s1.shared.mounts ≡ mounts)
        × (s1.fildes ≡ table)
        × (s1.shared.world.devices ≡ s.shared.world.devices)
  unfolding close_file close_result close_inode file_at drop_file set_filde lock unlock gets require
      modify call call_file devfs_create
  close_device flags o h =
      let closed : State (DevWorld D) = record s {
        shared = record s.shared {
          files = file_list_remove tf s.shared.files;
          objects = λ p. if tf == p then s.shared.objects tf else s.shared.objects p;
        };
        fildes = set s.fildes fd none;
        vfs_lock = false;
      } in
      (
        closed,
        take_lock _ s _ h.free (with_file _ fd tf _ _ h.filled refl),
        refl,
        h.mounted,
        h.without,
        refl,
      )
