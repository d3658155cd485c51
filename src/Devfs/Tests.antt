-- ===== src/Devfs/Tests.antt =====
-- The device file system behind vfs, at the second ramdisk.
use nju_os_lab.Prelude.{◌==◌, if◌then◌else◌, ◌≡◌, refl, some, none, [], ◌∷◌, false, pos}
use nju_os_lab.Klib.Strings.{Bytes, streq, strneq, strncmp, strcmp}
use nju_os_lab.Vfs.{Mount, State}
use nju_os_lab.Vfs.Mounts.{get_mount_fs}
use nju_os_lab.Vfs.Files.{find_filde_index}
use nju_os_lab.Devfs.{dev_lookup, lookup_from, RamDisks, stored, rd_read, rd_write, rd_ops}
use nju_os_lab.Devfs.Table.{DevWorld}
use nju_os_lab.Devfs.Through.{CanOpen}
use nju_os_lab.Devfs.Saved.{store, load, load-store, IsLeft}

abbrev disks : RamDisks
disks = record { mem = λ a. 0; start = λ dev. if dev == 0 then 500 else 1000 }

abbrev dev_mount : Mount
dev_mount = record { addr = 9; path = b'/' ∷ b'd' ∷ b'e' ∷ b'v' ∷ []; fs = 4 }

abbrev ramdisk1 : Bytes
ramdisk1 = b'r' ∷ b'a' ∷ b'm' ∷ b'd' ∷ b'i' ∷ b's' ∷ b'k' ∷ b'1' ∷ []

abbrev dev_path : Bytes
dev_path = b'/' ∷ b'd' ∷ b'e' ∷ b'v' ∷ b'/' ∷ ramdisk1

abbrev started : {D : Type 0} → D → State (DevWorld D)
started d = record {
  shared = record {
    world = record { devices = d; nodes = λ p. none; next = 100 };
    mounts = dev_mount ∷ [];
    files = 7 ∷ [];
    objects =
        λ p. record { refcnt = 0; flags = 2; inode = record { addr = 8; fs = 4 }; offset = 0 };
  };
  fildes = some 7 ∷ none ∷ none ∷ [];
  vfs_lock = false;
}

can_open : {D : Type 0} (d : D) → CanOpen (started d) dev_path dev_mount ramdisk1 1 1
unfolding get_mount_fs streq strneq strncmp strcmp dev_lookup lookup_from find_filde_index
can_open d = record { free = refl; mounted = refl; named = λ e. cc; device = refl; empty = refl }

abbrev two_bytes : Bytes
two_bytes = b'a' ∷ b'b' ∷ []

load-store_example :
    (s1 s2 : State (DevWorld RamDisks)) × (store rd_ops dev_path 1 4 2 two_bytes (started disks)
      ≡ some ((pos 1, pos 4, pos 2, pos 0), s1))
    × (load rd_ops dev_path 1 5 3 s1 ≡ some ((pos 1, pos 5, (pos 3, b'b' ∷ 0 ∷ 0 ∷ []), pos 0), s2))
    × IsLeft (started disks) s2 (rd_write 1 4 two_bytes disks).1
unfolding rd_write rd_read stored
load-store_example =
    load-store rd_ops (started disks) dev_path dev_mount ramdisk1 1 1 (can_open disks) 4 2 5 3 2
      two_bytes (b'b' ∷ 0 ∷ 0 ∷ []) (rd_write 1 4 two_bytes disks).1
      (rd_write 1 4 two_bytes disks).1 refl refl
