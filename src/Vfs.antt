-- ===== src/Vfs.antt =====
-- kernel/src/vfs/vfs.c, the virtual file system, with the types of kernel/include/common.h: the state
-- that its calls share, its lock, and the file systems behind it as an interface.
pub mod Mounts
pub mod Files
pub mod Calls
pub mod Resolve
pub mod MountTable
pub mod Rules
pub mod Simple
pub mod Descriptors
mod Tests
use nju_os_lab.Prelude.{
  ℕ, zero, suc, ◌≡◌, Bool, true, false, Option, none, some, List, ◌==◌, if◌then◌else◌, ℤ, is_zero,
}
use nju_os_lab.Klib.Strings.{Bytes}

-- `struct _inode`: its address, and the file system that made it.
pub record Inode : Type 0 where
  pub addr : ℕ
  pub fs : ℕ

-- `struct _file`.
pub record File : Type 0 where
  pub refcnt : ℕ
  pub flags : ℕ
  pub inode : Inode
  pub offset : ℕ

-- `mount_node`: its address, path and file system.
pub record Mount : Type 0 where
  pub addr : ℕ
  pub path : Bytes
  pub fs : ℕ

pub data EntryType : Type 0 where
  item_dir item_file item_link : EntryType

-- An element of an `fslist`.
pub record Entry : Type 0 where
  pub name : Bytes
  pub type : EntryType

-- `fsops` and `inodeops`, which a call reaches through `fs->ops` and `inode->ops`, and `pmm->alloc`
-- and `pmm->free` for the file objects and the addresses of mount nodes. `W` is what the file systems and the
-- allocator keep. `none`: an assertion of the file system halts the machine. The memory of the nodes of the two lists and of their strings is left out.
pub record FsOps (W : Type 0) : Type 0 where
  pub alloc : W → Option (ℕ × W)
  pub free : ℕ → W → W
  pub lookup : ℕ → Bytes → ℕ → W → Option (Option Inode × W)
  pub close : ℕ → Inode → W → Option (ℤ × W)
  pub mkdir : ℕ → Bytes → W → Option (ℤ × W)
  pub rm : ℕ → Bytes → W → Option (ℤ × W)
  pub link : ℕ → Bytes → Bytes → W → Option (ℤ × W)
  pub readdir : ℕ → Bytes → W → Option (List Entry × W)
  pub file_access : ℕ → File → W → Option (ℤ × File × W)
  pub file_open : ℕ → File → W → Option (ℤ × File × W)
  pub file_close : File → W → Option (ℤ × File × W)
  pub file_read : ℕ → File → W → Option ((ℤ × Bytes) × File × W)
  pub file_write : Bytes → ℕ → File → W → Option (ℤ × File × W)
  pub file_lseek : ℤ → ℕ → File → W → Option (ℤ × File × W)

-- What all tasks share: `mountlist_head`, `filelist_head`, and the `file` objects by address.
pub record Shared (W : Type 0) : Type 0 where
  pub world : W
  pub mounts : List Mount
  pub files : List ℕ
  pub objects : ℕ → File

-- The shared state, the table `fildes` of the current task, and whether it holds `vfs_lock`. The
-- locks of the two lists are held inside single list functions only, and are left out.
pub record State (W : Type 0) : Type 0 where
  pub shared : Shared W
  pub fildes : List (Option ℕ)
  pub vfs_lock : Bool

-- `none`: an assertion has halted the machine.
abbrev pub M : Type 0 → Type 0 → Type 0
M W A = State W → Option (A × State W)

module _ {W : Type 0} where
  abbrev pub pure : {A : Type 0} → A → M W A
  pure a s = some (a, s)

  infixl 5 ◌>>=◌ ◌>>◌
  abbrev pub ◌>>=◌ : {A B : Type 0} → M W A → (A → M W B) → M W B
  ◌>>=◌ m f s = elim (m s) [ none ↦ none | some (a, s') ↦ f a s' ]

  abbrev pub ◌>>◌ : {B : Type 0} → M W (Unit {0}) → M W B → M W B
  m >> k = m >>= λ _. k

  -- `Assert`.
  unfoldable pub require : Bool → M W (Unit {0})
  require b s = if b then some (tt, s) else none

  unfoldable pub gets : {A : Type 0} → (State W → A) → M W A
  gets f s = some (f s, s)

  unfoldable pub modify : (Shared W → Shared W) → M W (Unit {0})
  modify f s = some (tt, record s { shared = f s.shared })

  -- `kmt->spin_lock` halts when this processor holds the lock. It waits for other holders; the step
  -- is the moment at which it succeeds.
  unfoldable pub lock : M W (Unit {0})
  lock s = if s.vfs_lock then none else some (tt, record s { vfs_lock = true })

  -- `kmt->spin_unlock` halts when the lock is not held.
  unfoldable pub unlock : M W (Unit {0})
  unlock s = if s.vfs_lock then some (tt, record s { vfs_lock = false }) else none

  -- A call into a file system. The lock is free meanwhile, so other tasks run too: what they do to
  -- the shared state is a function `others` of it.
  module _ (others : Shared W → Shared W) where
    unfoldable pub call : {A : Type 0} → (W → Option (A × W)) → M W A
    call f s = elim (f s.shared.world) [
      | none ↦ none
      | some (a, w) ↦ some (a, record s { shared = others (record s.shared { world = w }) })
    ]

    -- A call on a file object, which it may change.
    unfoldable pub call_file : {A : Type 0} → ℕ → (File → W → Option (A × File × W)) → M W A
    call_file tf f s = elim (f (s.shared.objects tf) s.shared.world) [
      | none ↦ none
      | some (a, file, w) ↦ some (
        a,
        record s {
          shared = others (record s.shared {
            world = w;
            objects = λ p. if tf == p then file else s.shared.objects p;
          });
        },
      )
    ]
