-- ===== src/Vfs/Rules.antt =====
-- kernel/src/vfs/vfs.c: how runs of the calls are proved. A run is followed through the lock and the
-- descriptors of the task; the shared state is whatever the other tasks make of it.
use nju_os_lab.Prelude.{
  ℕ, ◌≡◌, refl, Bool, true, false, Option, some, List, is_zero, get_elem?, set, arith, ap, ◌==◌,
  if◌then◌else◌, ℤ,
}
use nju_os_lab.Klib.Strings.{Bytes}
use nju_os_lab.Vfs.{
  Inode, File, FsOps, Shared, State, M, pure, ◌>>=◌, require, gets, modify, lock, unlock, call,
  call_file,
}
use nju_os_lab.Vfs.Calls.{allocate, new_file, set_object, close_inode}
use nju_os_lab.Vfs.Files.{get_file, set_filde}

-- From every state with `P` the run ends, without halting, in a state with `Q` for its result.
abbrev pub Returns : {W A : Type 0} → (State W → Type 0) → M W A → (A → State W → Type 0) → Type 0
Returns {W} {A} P m Q =
    (s : State W) → P s → (a : A) × (s' : State W) × (m s ≡ some (a, s')) × Q a s'

-- Whether the lock is held, and the table of descriptors.
abbrev pub Holds : {W : Type 0} → Bool → List (Option ℕ) → State W → Type 0
Holds b t s = (s.vfs_lock ≡ b) × (s.fildes ≡ t)

-- A call into a file system does not halt.
abbrev pub Runs : {W A : Type 0} → (W → Option (A × W)) → Type 0
Runs {W} {A} f = (w : W) → (a : A) × (w' : W) × (f w ≡ some (a, w'))

abbrev pub RunsFile : {W A : Type 0} → (File → W → Option (A × File × W)) → Type 0
RunsFile {W} {A} f =
    (file : File) (w : W) → (a : A) × (file' : File) × (w' : W) × (f file w ≡ some (a, file', w'))

-- What the calls need of memory and of the file systems: `pmm->alloc` does not run out, `fs->ops->close` of an inode succeeds, and no
-- call into a file system halts.
pub record IsSound {W : Type 0} (ops : FsOps W) : Type 0 where
  pub has_memory : (w : W) → (p : ℕ) × (w' : W) × (ops.alloc w ≡ some (p, w'))
  pub closes :
      (fs : ℕ) (node : Inode) (w : W)
      → (r : ℤ) × (w' : W) × (ops.close fs node w ≡ some (r, w')) × (is_zero r ≡ true)
  pub lookups : (fs : ℕ) (path : Bytes) (flags : ℕ) → Runs (ops.lookup fs path flags)
  pub mkdirs : (fs : ℕ) (path : Bytes) → Runs (ops.mkdir fs path)
  pub rms : (fs : ℕ) (path : Bytes) → Runs (ops.rm fs path)
  pub links : (fs : ℕ) (oldpath newpath : Bytes) → Runs (ops.link fs oldpath newpath)
  pub readdirs : (fs : ℕ) (path : Bytes) → Runs (ops.readdir fs path)
  pub accesses : (flags : ℕ) → RunsFile (ops.file_access flags)
  pub opens : (flags : ℕ) → RunsFile (ops.file_open flags)
  pub file_closes : RunsFile ops.file_close
  pub reads : (size : ℕ) → RunsFile (ops.file_read size)
  pub writes : (buf : Bytes) (size : ℕ) → RunsFile (ops.file_write buf size)
  pub seeks : (offset : ℤ) (whence : ℕ) → RunsFile (ops.file_lseek offset whence)

module _ {W : Type 0} where
  pub bind :
      {A B : Type 0} {P : State W → Type 0} {Q : A → State W → Type 0} {R : B → State W → Type 0}
      (m : M W A) (f : A → M W B)
      → Returns P m Q
      → ((a : A) → Returns (Q a) (f a) R)
      → Returns P (m >>= f) R
  bind m f hm hf s p =
      let (a, s1, e, q) = hm s p in let (b, s2, e2, r) = hf a s1 q in (b, s2, rw (◌>>=◌, e) e2, r)

  pub done :
      {A : Type 0} {P : State W → Type 0} (Q : A → State W → Type 0) (a : A)
      → ((s : State W) → P s → Q a s)
      → Returns P (pure a) Q
  done Q a h s p = (a, s, refl, h s p)

  module _ (t : List (Option ℕ)) where
    pub lock_rule : Returns (Holds {W = W} false t) lock (λ _. Holds true t)
    unfolding lock
    lock_rule s p = (tt, record s { vfs_lock = true }, ground arith, ground arith)

    pub unlock_rule : Returns (Holds {W = W} true t) unlock (λ _. Holds false t)
    unfolding unlock
    unlock_rule s p = (tt, record s { vfs_lock = false }, ground arith, ground arith)

    pub gets_rule :
        {A : Type 0} (b : Bool) (f : State W → A) → Returns (Holds b t) (gets f) (λ _. Holds b t)
    unfolding gets
    gets_rule b f s p = (f s, s, refl, p)

    pub modify_rule :
        (b : Bool) (f : Shared W → Shared W) → Returns (Holds b t) (modify f) (λ _. Holds b t)
    unfolding modify
    modify_rule b f s p = (tt, record s { shared = f s.shared }, refl, p)

    pub call_rule :
        {A : Type 0} (b : Bool) (others : Shared W → Shared W) (f : W → Option (A × W))
        → Runs f
        → Returns (Holds b t) (call others f) (λ _. Holds b t)
    unfolding call
    call_rule b others f runs s p =
        let (a, w, e) = runs s.shared.world in
        (a, record s { shared = others (record s.shared { world = w }) }, rw (call, e) refl, p)

    pub call_file_rule :
        {A : Type 0} (b : Bool) (others : Shared W → Shared W) (tf : ℕ)
        (f : File → W → Option (A × File × W))
        → RunsFile f
        → Returns (Holds b t) (call_file others tf f) (λ _. Holds b t)
    unfolding call_file
    call_file_rule b others tf f runs s p =
        let (a, file, w, e) = runs (s.shared.objects tf) s.shared.world in
        let shared = record s.shared {
          world = w;
          objects = λ p. if tf == p then file else s.shared.objects p;
        } in
        (a, record s { shared = others shared }, rw (call_file, e) refl, p)

    pub get_file_rule :
        (b : Bool) (fd tf : ℕ)
        → get_elem? t fd ≡ some (some tf)
        → Returns (Holds {W = W} b t) (get_file fd) (λ f s. (f ≡ tf) × Holds b t s)
    unfolding get_file
    get_file_rule b fd tf e s p =
        let here : get_elem? s.fildes fd ≡ some (some tf) = rw p.1 e in
        (tf, s, rw (get_file, here), (refl, p))

    pub set_filde_rule :
        (b : Bool) (fd : ℕ) (f : Option ℕ)
        → Returns (Holds {W = W} b t) (set_filde fd f) (λ _. Holds b (set t fd f))
    unfolding set_filde
    set_filde_rule b fd f s p =
        (tt, record s { fildes = set s.fildes fd f }, refl, (p.0, ap (λ l. set l fd f) p.1))

module _ {W : Type 0} (ops : FsOps W) (others : Shared W → Shared W) (sound : IsSound ops)
    (t : List (Option ℕ)) where
  pub allocate_rule : (b : Bool) → Returns (Holds b t) (allocate ops others) (λ _. Holds b t)
  unfolding allocate
  allocate_rule b s p =
      let (a, w, e) = sound.has_memory s.shared.world in
      (a, record s { shared = record s.shared { world = w } }, rw (allocate, e), p)

  pub new_file_rule :
      (b : Bool) (node : Inode) → Returns (Holds b t) (new_file ops others node) (λ _. Holds b t)
  unfolding new_file set_object
  new_file_rule b node =
      bind _ _ (allocate_rule b)
        (λ tf. bind _ _ (modify_rule t b _) (λ u. done (λ a. Holds b t) tf (λ s p. p)))

  pub close_inode_rule :
      (b : Bool) (fs : ℕ) (node : Inode)
      → Returns (Holds b t) (close_inode ops others fs node) (λ _. Holds b t)
  unfolding close_inode call require
  close_inode_rule b fs node s p =
      let (r, w, e, zero) = sound.closes fs node s.shared.world in
      let s' : State W = record s { shared = others (record s.shared { world = w }) } in
      let called : call others (ops.close fs node) s ≡ some (r, s') = rw (call, e) refl in
      (tt, s', rw (close_inode, ◌>>=◌, called) (rw zero refl), p)
