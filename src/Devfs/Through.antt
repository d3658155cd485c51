-- ===== src/Devfs/Through.antt =====
-- kernel/src/vfs/vfs.c in front of kernel/src/vfs/devfs.c: a task that opens a device, reads and writes it.
use nju_os_lab.Prelude.{
  ℕ, ◌+◌, ◌≡◌, ◌≢◌, refl, true, false, Option, none, some, List, [], ◌∷◌, ◌==◌, if◌then◌else◌,
  length, get_elem?, set, arith, pos,
}
use nju_os_lab.Klib.Strings.{Bytes}
use nju_os_lab.Vfs.{
  Inode, File, Mount, Shared, State, lock, unlock, M, ◌>>=◌, ◌>>◌, gets, modify, call, call_file,
}
use nju_os_lab.Vfs.Mounts.{get_mount_fs}
use nju_os_lab.Vfs.Files.{find_filde_index, get_file, set_filde}
use nju_os_lab.Vfs.Calls.{
  resolve, file_at, set_object, file_list_append, new_file, allocate, open_result, open_node,
  open_mount, open_slot, open_file, on_file,
}
use nju_os_lab.Devfs.{dir_exist, DevOps, dev_lookup, fs_lookup, inode_access, inode_open}
use nju_os_lab.Devfs.Table.{DevWorld, devfs_create, flag_of, number_of}
use nju_os_lab.Vfs.Descriptors.{find_filde_index-empty}

-- No other task runs.
abbrev pub alone : {W : Type 0} → Shared W → Shared W
alone shared = shared

-- The path belongs to a mount of devfs and names a device; the lock is free, and a descriptor is empty.
pub record CanOpen {D : Type 0} (s : State (DevWorld D)) (path : Bytes) (mn : Mount) (name : Bytes)
    (dev fd : ℕ) : Type 0 where
  pub free : s.vfs_lock ≡ false
  pub mounted : get_mount_fs path s.shared.mounts ≡ some (mn, b'/' ∷ name)
  pub named : name ≢ []
  pub device : dev_lookup name ≡ some dev
  pub empty : find_filde_index s.fildes none ≡ some fd

-- A descriptor of an open device, at an offset, with the mounts and the table of descriptors that there are without it.
pub record IsOpen {D : Type 0} (s : State (DevWorld D)) (mounts : List Mount)
    (table : List (Option ℕ)) (fd tf dev flags offset : ℕ) : Type 0 where
  pub free : s.vfs_lock ≡ false
  pub mounted : s.shared.mounts ≡ mounts
  pub filled : get_elem? s.fildes fd ≡ some (some tf)
  pub without : set s.fildes fd none ≡ table
  pub node : s.shared.world.nodes (s.shared.objects tf).inode.addr ≡ some dev
  pub flagged : (s.shared.objects tf).flags ≡ flags
  pub at : (s.shared.objects tf).offset ≡ offset

fs_lookup_device :
    (name : Bytes) (dev : ℕ)
    → name ≢ []
    → dev_lookup name ≡ some dev
    → fs_lookup (b'/' ∷ name) ≡ some (some (some dev))
unfolding fs_lookup
fs_lookup_device [] dev ne e = absurd (ne refl)
fs_lookup_device (c ∷ name) dev ne e =
    let longer : (length (b'/' ∷ c ∷ name) == 1) ≡ false = ground arith in rw (longer, e) refl

-- What `open` with these flags does to a new file of a device.
pub record Opens (dev flags : ℕ) : Type 0 where
  pub opened :
      inode_open (flag_of flags) (record { node = some dev; flags = some dir_exist; offset = 0 })
      ≡ (pos 0, record { node = some dev; flags = some (flag_of flags); offset = 0 })
  pub numbered : number_of (some (flag_of flags)) ≡ flags

pub for_reading : (dev : ℕ) → Opens dev 2
unfolding inode_open inode_access
for_reading dev = record { opened = refl; numbered = refl }

pub for_writing : (dev : ℕ) → Opens dev 3
unfolding inode_open inode_access
for_writing dev = record { opened = refl; numbered = refl }

pub same_place : (p : ℕ) → (p == p) ≡ true
same_place p = ground arith

-- The steps of a call, one at a time.
module _ {W A : Type 0} where
  pub bind :
      {B : Type 0} (m : M W B) (f : B → M W A) (s s' : State W) (a : B) (r : Option (A × State W))
      → m s ≡ some (a, s')
      → f a s' ≡ r
      → (m >>= f) s ≡ r
  bind m f s s' a r e rest = rw (◌>>=◌, e) rest

  pub take_lock :
      (k : M W A) (s : State W) (r : Option (A × State W))
      → s.vfs_lock ≡ false
      → k (record s { vfs_lock = true }) ≡ r
      → (lock >> k) s ≡ r
  unfolding lock
  take_lock k s r free rest = rw free rest

  pub with_file :
      (f : ℕ → M W A) (fd tf : ℕ) (s : State W) (r : Option (A × State W))
      → get_elem? s.fildes fd ≡ some (some tf)
      → f tf s ≡ r
      → (get_file fd >>= f) s ≡ r
  unfolding get_file
  with_file f fd tf s r filled rest =
      bind (get_file fd) f s s tf r (rw (get_file, filled) refl) rest

module _ {D : Type 0} (ops : DevOps D) where
  -- `open_node` of a device.
  node_opened :
      (s : State (DevWorld D)) (fd dev flags : ℕ) (node : Inode)
      → Opens dev flags
      → s.vfs_lock ≡ true
      → s.shared.world.nodes node.addr ≡ some dev
      → find_filde_index s.fildes none ≡ some fd
      → (s1 : State (DevWorld D)) × (tf : ℕ) × (open_node
            (devfs_create ops)
            alone
            fd
            (some node)
            flags
            s
          ≡ some (pos fd, s1))
        × IsOpen s1 s.shared.mounts s.fildes fd tf dev flags 0
        × (s1.shared.world.devices ≡ s.shared.world.devices)
  unfolding open_node open_result lock unlock gets modify call_file new_file allocate set_object
      file_at file_list_append set_filde devfs_create
  node_opened s fd dev flags node opens held at slot =
      let tf = s.shared.world.next in
      let same = same_place tf in
      let slots = find_filde_index-empty s.fildes fd slot tf in
      let f0 : File = record { refcnt = 0; flags = 0; inode = node; offset = 0 } in
      let f2 : File = record { refcnt = 0; flags = flags; inode = node; offset = 0 } in
      (
        record s {
          shared = record s.shared {
            world = record s.shared.world { next = tf + 1 };
            files = tf ∷ s.shared.files;
            objects = λ p.
                if tf == p
                then f2
                else if tf == p
                then f2
                else if tf == p
                then f0
                else s.shared.objects p;
          };
          fildes = set s.fildes fd (some tf);
          vfs_lock = false;
        },
        tf,
        rw (open_node, held) (rw (same) (rw (at, opens.opened, opens.numbered) refl)),
        record {
          free = refl;
          mounted = refl;
          filled = slots.0;
          without = slots.1;
          node = rw same at;
          flagged = rw same refl;
          at = rw same refl;
        },
        refl,
      )

  -- `open` of a device.
  pub open_device :
      (s : State (DevWorld D)) (path : Bytes) (mn : Mount) (name : Bytes) (dev fd flags : ℕ)
      → Opens dev flags
      → CanOpen s path mn name dev fd
      → (s1 : State (DevWorld D)) × (tf : ℕ) × (open_file (devfs_create ops) alone path flags s
          ≡ some (pos fd, s1))
        × IsOpen s1 s.shared.mounts s.fildes fd tf dev flags 0
        × (s1.shared.world.devices ≡ s.shared.world.devices)
  unfolding open_file open_slot open_mount lock unlock gets call resolve devfs_create
  open_device s path mn name dev fd flags opens h =
      let same = same_place s.shared.world.next in
      let w = s.shared.world in
      let found : State (DevWorld D) = record s {
        shared = record s.shared {
          world = record w {
            nodes = λ p. if p == w.next then some dev else w.nodes p;
            next = w.next + 1;
          };
        };
        vfs_lock = true;
      } in
      let (s1, tf, e, now, kept) =
        node_opened found fd dev flags (record { addr = w.next; fs = mn.fs }) opens refl
          (rw same refl) h.empty in
      (
        s1,
        tf,
        rw (open_file, h.free)
            (rw (h.empty, h.mounted)
              (rw (◌>>=◌, call, fs_lookup_device name dev h.named h.device) e)),
        now,
        kept,
      )

  -- The state after a call on an open file that left this file and this world.
  abbrev pub after_file : State (DevWorld D) → ℕ → File → DevWorld D → State (DevWorld D)
  after_file s tf f w = record s {
    shared = record s.shared {
      world = w;
      objects = λ p. if tf == p then f else s.shared.objects p;
    };
    vfs_lock = false;
  }

  pub on_file-after_file :
      {A : Type 0} (s : State (DevWorld D)) (fd tf : ℕ)
      (op : File → DevWorld D → Option (A × File × DevWorld D)) (a : A) (f : File) (w : DevWorld D)
      → s.vfs_lock ≡ false
      → get_elem? s.fildes fd ≡ some (some tf)
      → op (s.shared.objects tf) s.shared.world ≡ some (a, f, w)
      → on_file (devfs_create ops) alone fd op s ≡ some (a, after_file s tf f w)
  unfolding on_file lock unlock call_file
  on_file-after_file s fd tf op a f w free filled e =
      take_lock _ s _ free (with_file _ fd tf _ _ filled (rw (◌>>=◌, call_file, e) refl))
