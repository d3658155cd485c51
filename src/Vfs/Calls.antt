-- ===== src/Vfs/Calls.antt =====
-- kernel/src/vfs/vfs.c: the calls of the module `vfs`. Each takes `vfs_lock` for its own work, and
-- gives it up around every call into a file system. That there is a current task is assumed.
use nju_os_lab.Prelude.{
  ℕ, true, false, Option, none, some, List, [], ◌∷◌, ◌++◌, ◌==◌, if◌then◌else◌, ℤ, pos, minus_one,
  is_zero,
}
use nju_os_lab.Klib.Strings.{Bytes}
use nju_os_lab.Vfs.{
  Inode, File, Mount, Entry, FsOps, Shared, M, pure, ◌>>=◌, ◌>>◌, require, gets, modify, lock,
  unlock, call, call_file,
}
use nju_os_lab.Vfs.Mounts.{mount_list_find, mount_list_remove, mount_list_readdir, get_mount_fs}
use nju_os_lab.Vfs.Files.{file_list_remove, find_filde_index, get_file, set_filde, same_pointer}

module _ {W : Type 0} where
  unfoldable pub resolve : Bytes → M W (Option (Mount × Bytes))
  resolve path = gets (λ s. get_mount_fs path s.shared.mounts)

  -- The two calls of `mount_list_find` on a path that is not mounted.
  unfoldable pub find_mount : Bytes → M W (Option Mount)
  find_mount path = gets (λ s. mount_list_find path s.shared.mounts)

  unfoldable pub file_at : ℕ → M W File
  file_at tf = gets (λ s. s.shared.objects tf)

  unfoldable pub set_object : ℕ → File → M W (Unit {0})
  set_object tf f = modify (λ sh. record sh { objects = λ p. if tf == p then f else sh.objects p })

  unfoldable pub file_list_append : ℕ → M W (Unit {0})
  file_list_append tf = modify (λ sh. record sh { files = tf ∷ sh.files })

  unfoldable pub drop_file : ℕ → M W (Unit {0})
  drop_file tf = modify (λ sh. record sh { files = file_list_remove tf sh.files })

module _ {W : Type 0} (ops : FsOps W) (others : Shared W → Shared W) where
  -- `pmm->alloc`; without memory the assertions behind it halt.
  unfoldable pub allocate : M W ℕ
  allocate s = elim (ops.alloc s.shared.world) [
    | none ↦ none
    | some (p, w) ↦ some (p, record s { shared = record s.shared { world = w } })
  ]

  -- A file object, zero but for its inode.
  unfoldable pub new_file : Inode → M W ℕ
  new_file node = do
    tf ← allocate
    set_object tf (record { refcnt = 0; flags = 0; inode = node; offset = 0 })
    pure tf

  unfoldable pub release : ℕ → M W (Unit {0})
  release tf = modify (λ sh. record sh { world = ops.free tf sh.world })

  -- The assertion that `fs->ops->close` of an inode returns 0.
  unfoldable pub close_inode : ℕ → Inode → M W (Unit {0})
  close_inode fs node = do c ← call others (ops.close fs node); require (is_zero c)

  unfoldable pub access_node : Option Inode → ℕ → M W ℤ
  access_node none flags = do unlock; pure minus_one
  access_node (some node) flags = do
    tf ← new_file node
    unlock
    res ← call_file others tf (ops.file_access flags)
    close_inode node.fs node
    lock
    release tf
    unlock
    pure res

  unfoldable pub access_mount : Option (Mount × Bytes) → ℕ → M W ℤ
  access_mount none flags = do unlock; pure minus_one
  access_mount (some (mn, subpath)) flags = do
    unlock
    node ← call others (ops.lookup mn.fs subpath flags)
    lock
    access_node node flags

  unfoldable pub access : Bytes → ℕ → M W ℤ
  access path flags = do lock; found ← resolve path; access_mount found flags

  -- `mount_list_append`.
  unfoldable pub mount_list_append : Bytes → ℕ → M W (Unit {0})
  mount_list_append path fs = do
    cur ← find_mount path
    require (elim cur [ none ↦ true | some _ ↦ false ])
    fn ← allocate
    modify (λ sh. record sh { mounts = record { addr = fn; path = path; fs = fs } ∷ sh.mounts })

  unfoldable pub mount_found : Option Mount → Bytes → ℕ → M W ℤ
  mount_found none path fs = do mount_list_append path fs; unlock; pure (pos 0)
  mount_found (some _) path fs = do unlock; pure minus_one

  unfoldable pub mount : Bytes → ℕ → M W ℤ
  mount path fs = do lock; cur ← find_mount path; mount_found cur path fs

  unfoldable pub unmount : Bytes → M W ℤ
  unmount path = do
    lock
    modify (λ sh. record sh { mounts = mount_list_remove path sh.mounts })
    unlock
    pure (pos 0)

  -- The common form of `mkdir` and `rm`.
  unfoldable pub on_mount : Option (Mount × Bytes) → (ℕ → Bytes → W → Option (ℤ × W)) → M W ℤ
  on_mount none op = do unlock; pure minus_one
  on_mount (some (mn, subpath)) op = do
    unlock
    res ← call others (op mn.fs subpath)
    lock
    unlock
    pure res

  unfoldable pub mkdir : Bytes → M W ℤ
  mkdir path = do lock; found ← resolve path; on_mount found ops.mkdir

  unfoldable pub rm : Bytes → M W ℤ
  rm path = do lock; found ← resolve path; on_mount found ops.rm

  abbrev pub node_of : Option (Mount × Bytes) → Option ℕ
  node_of none = none
  node_of (some (mn, _)) = some mn.addr

  unfoldable pub link_mount : Option (Mount × Bytes) → Option (Mount × Bytes) → M W ℤ
  link_mount (some (mn, old_subpath)) (some (_, new_subpath)) = do
    unlock
    res ← call others (ops.link mn.fs old_subpath new_subpath)
    lock
    unlock
    pure res
  link_mount _ _ = do unlock; pure minus_one

  -- The warning about two mounts, which reads the path of both: with one of them `NULL` it halts.
  unfoldable pub warn_mounts : Option (Mount × Bytes) → Option (Mount × Bytes) → M W ℤ
  warn_mounts (some mn) (some tmn) s = some (minus_one, s)
  warn_mounts _ _ s = none

  -- On different mounts the call returns with the lock held.
  unfoldable pub link : Bytes → Bytes → M W ℤ
  link oldpath newpath = do
    lock
    mn ← resolve oldpath
    tmn ← resolve newpath
    let together = link_mount mn tmn
    if same_pointer (node_of mn) (node_of tmn) then together else warn_mounts mn tmn

  unfoldable pub open_result : ℕ → ℕ → Inode → ℤ → M W ℤ
  open_result fd tf node res =
      if is_zero res
      then (do file_list_append tf; set_filde fd (some tf); unlock; pure (pos fd))
      else (do unlock; close_inode node.fs node; lock; release tf; unlock; pure minus_one)

  unfoldable pub open_node : ℕ → Option Inode → ℕ → M W ℤ
  open_node fd none flags = do unlock; pure minus_one
  open_node fd (some node) flags = do
    tf ← new_file node
    unlock
    res ← call_file others tf (ops.file_open flags)
    lock
    f ← file_at tf
    set_object tf (record f { refcnt = 0 })
    open_result fd tf node res

  unfoldable pub open_mount : ℕ → Option (Mount × Bytes) → ℕ → M W ℤ
  open_mount fd none flags = do unlock; pure minus_one
  open_mount fd (some (mn, subpath)) flags = do
    unlock
    node ← call others (ops.lookup mn.fs subpath flags)
    lock
    open_node fd node flags

  unfoldable pub open_slot : Option ℕ → Bytes → ℕ → M W ℤ
  open_slot none path flags = do unlock; pure minus_one
  open_slot (some fd) path flags = do found ← resolve path; open_mount fd found flags

  unfoldable pub open_file : Bytes → ℕ → M W ℤ
  open_file path flags = do
    lock
    empty_fd ← gets (λ s. find_filde_index s.fildes none)
    open_slot empty_fd path flags

  -- The common form of `read`, `write` and `lseek`.
  unfoldable pub on_file : {A : Type 0} → ℕ → (File → W → Option (A × File × W)) → M W A
  on_file fd op = do
    lock
    tf ← get_file fd
    unlock
    res ← call_file others tf op
    lock
    unlock
    pure res

  -- The bytes are what goes into `buf`.
  unfoldable pub read : ℕ → ℕ → M W (ℤ × Bytes)
  read fd nbyte = on_file fd (ops.file_read nbyte)

  unfoldable pub write : ℕ → Bytes → ℕ → M W ℤ
  write fd buf nbyte = on_file fd (ops.file_write buf nbyte)

  unfoldable pub lseek : ℕ → ℤ → ℕ → M W ℤ
  lseek fd offset whence = on_file fd (ops.file_lseek offset whence)

  unfoldable pub readdir_mount : List Entry → Option (Mount × Bytes) → M W (List Entry)
  readdir_mount res none = do unlock; pure res
  readdir_mount res (some (mn, subpath)) = do
    unlock
    subfs ← call others (ops.readdir mn.fs subpath)
    lock
    unlock
    pure (res ++ subfs)

  unfoldable pub readdir : Bytes → M W (List Entry)
  readdir path = do
    lock
    res ← gets (λ s. mount_list_readdir path s.shared.mounts [])
    found ← resolve path
    readdir_mount res found

  unfoldable pub close_result : ℕ → ℕ → ℕ → ℤ → M W ℤ
  close_result fd tf fs res =
      if is_zero res
      then (do
        unlock
        f ← file_at tf
        close_inode fs f.inode
        lock
        drop_file tf
        set_filde fd none
        unlock
        pure res)
      else (do unlock; pure res)

  unfoldable pub close_file : ℕ → M W ℤ
  close_file fd = do
    lock
    tf ← get_file fd
    f ← file_at tf
    unlock
    res ← call_file others tf ops.file_close
    lock
    close_result fd tf f.inode.fs res
