-- ===== src/Vfs/Tests.antt =====
-- kernel/src/vfs/vfs.c: runs on two mounts, "/" and "/dev", of a file system that has one file.
use nju_os_lab.Prelude.{
  ℕ, suc, ◌≡◌, refl, false, none, some, [], ◌∷◌, ◌==◌, pos, minus_one, if◌then◌else◌,
}
use nju_os_lab.Klib.Strings.{Bytes, strlen, strneq, strncmp, streq, strcmp}
use nju_os_lab.Vfs.{File, item_file, FsOps, Shared, State}
use nju_os_lab.Vfs.Mounts.{get_mount_fs, best_mount, subpath_of}
use nju_os_lab.Vfs.Calls.{link, mkdir, rm, readdir, open_file}
use nju_os_lab.Klib.Strings.Compare.{IsString}
use nju_os_lab.Vfs.Resolve.{IsMount, Resolved, get_mount_fs_lem}
use nju_os_lab.Prelude.{All, arith}
use nju_os_lab.Vfs.MountTable.{Mounted, mount_lem}
use nju_os_lab.Vfs.Mounts.{mount_list_find}
use nju_os_lab.Vfs.Rules.{IsSound}

-- The file system's state is the next address to allocate.
abbrev one_file : FsOps ℕ
one_file = record {
  alloc = λ w. some (w, suc w);
  free = λ p w. w;
  lookup = λ fs path flags w.
      some (if strlen path == 1 then none else some (record { addr = 7; fs = fs }), w);
  close = λ fs node w. some (pos 0, w);
  mkdir = λ fs path w. some (minus_one, w);
  rm = λ fs path w. some (minus_one, w);
  link = λ fs old new w. some (minus_one, w);
  readdir = λ fs path w. some (record { name = (b'a' ∷ []); type = item_file } ∷ [], w);
  file_access = λ flags file w. some (pos 0, file, w);
  file_open = λ flags file w. some (pos 0, file, w);
  file_close = λ file w. some (pos 0, file, w);
  file_read = λ n file w. some ((pos 0, []), file, w);
  file_write = λ buf n file w. some (pos n, file, w);
  file_lseek = λ offset whence file w. some (offset, file, w);
}

one_file-IsSound : IsSound one_file
one_file-IsSound = record {
  has_memory = λ w. (w, suc w, refl);
  closes = λ fs node w. (pos 0, w, refl, refl);
  lookups = λ fs path flags w. (_, w, refl);
  mkdirs = λ fs path w. (_, w, refl);
  rms = λ fs path w. (_, w, refl);
  links = λ fs old new w. (_, w, refl);
  readdirs = λ fs path w. (_, w, refl);
  accesses = λ flags file w. (_, file, w, refl);
  opens = λ flags file w. (_, file, w, refl);
  file_closes = λ file w. (_, file, w, refl);
  reads = λ n file w. (_, file, w, refl);
  writes = λ buf n file w. (_, file, w, refl);
  seeks = λ offset whence file w. (_, file, w, refl);
}

abbrev undisturbed : Shared ℕ → Shared ℕ
undisturbed shared = shared

abbrev blank : File
blank = record { refcnt = 0; flags = 0; inode = record { addr = 0; fs = 0 }; offset = 0 }

-- Descriptor 0 is open, 1 and 2 are empty.
abbrev started : State ℕ
started = record {
  shared = record {
    world = 100;
    mounts =
        record { addr = 12; path = (b'/' ∷ b'd' ∷ b'e' ∷ b'v' ∷ []); fs = 2 }
        ∷ record { addr = 11; path = (b'/' ∷ []); fs = 1 }
        ∷ [];
    files = 90 ∷ [];
    objects = λ p. blank;
  };
  fildes = some 90 ∷ none ∷ none ∷ [];
  vfs_lock = false;
}

-- The state after `open("/a")`.
abbrev opened : State ℕ
unfolding open_file
opened = elim (open_file one_file undisturbed (b'/' ∷ b'a' ∷ []) 1 started) [
  | none ↦ started
  | some (r, s) ↦ s
]

-- "/device" is resolved in the mount of "/dev".
abbrev device : Bytes
device = b'/' ∷ b'd' ∷ b'e' ∷ b'v' ∷ b'i' ∷ b'c' ∷ b'e' ∷ []

device_in_dev :
    get_mount_fs device started.shared.mounts
    ≡ some (
      record { addr = 12; path = b'/' ∷ b'd' ∷ b'e' ∷ b'v' ∷ []; fs = 2 },
      b'v' ∷ b'i' ∷ b'c' ∷ b'e' ∷ [],
    )
unfolding get_mount_fs best_mount strneq strncmp subpath_of
device_in_dev = refl

device-IsString : IsString device
device-IsString = ground arith

mounts-IsMount : All IsMount started.shared.mounts
mounts-IsMount = ground arith

get_mount_fs_lem_example :
    Resolved device started.shared.mounts (get_mount_fs device started.shared.mounts)
get_mount_fs_lem_example =
    get_mount_fs_lem device started.shared.mounts device-IsString mounts-IsMount

abbrev home : Bytes
home = b'/' ∷ b'h' ∷ []

home_missing : mount_list_find home started.shared.mounts ≡ none
unfolding mount_list_find streq strcmp
home_missing = refl

-- It is not in the list, so it can be mounted.
home-Mounted : Mounted one_file undisturbed one_file-IsSound home 3 started
home-Mounted = (mount_lem one_file undisturbed one_file-IsSound home 3 started refl).0 home_missing
