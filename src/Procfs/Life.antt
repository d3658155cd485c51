-- ===== src/Procfs/Life.antt =====
-- kernel/src/vfs/procfs.c: calls on a file in any order.
use nju_os_lab.Prelude.{
  ℕ, ◌+◌, ◌<◌, ap, ◌≡◌, inl, inr, Bool-cases, refl, true, Option, none, some, List, [], ◌∷◌, ◌==◌,
  length, arith, ℤ, pos,
}
use nju_os_lab.Devfs.{Flag, dir_exist, file_write, file_append, other}
use nju_os_lab.Procfs.{
  Task, InfoType, Info, ProcFile, World, without, free_content, inode_access, inode_open,
  inode_close, inode_write, inode_lseek, is_reading, smaller, fs_close, new_info,
}
use nju_os_lab.Procfs.Contents.{text_of, HasTask, make_content_lem}

pub data FileCall : Type 0 where
  opens : Flag → FileCall
  closes : FileCall
  seeks : ℕ → FileCall
  writes : ℕ → ℕ → FileCall

abbrev pub left : Option (ℤ × ProcFile × World) → Option (ProcFile × World)
left none = none
left (some (r, f, w)) = some (f, w)

abbrev pub left_file : World → Option (ℤ × ProcFile) → Option (ProcFile × World)
left_file w none = none
left_file w (some (r, f)) = some (f, w)

abbrev pub file_call : FileCall → ProcFile → World → Option (ProcFile × World)
file_call (opens flag) f w = left (inode_open flag f w)
file_call closes f w = left (inode_close f w)
file_call (seeks offset) f w = left_file w (inode_lseek offset f)
file_call (writes buf size) f w = left (some (inode_write buf size f w))

-- `none` halts.
unfoldable pub file_calls : List FileCall → ProcFile → World → Option (ProcFile × World)
file_calls [] f w = some (f, w)
file_calls (c ∷ cs) f w = elim (file_call c f w) [
  | none ↦ none
  | some (f', w') ↦ file_calls cs f' w'
]

abbrev opened : InfoType → Option Task → ℕ → ℕ → Info
opened type obj a size = record {
  type = type;
  has_opened = true;
  obj = obj;
  content = some a;
  size = size;
}

module _ (ncpu : ℕ) (type : InfoType) (obj : Option Task) (live : List ℕ) (task : HasTask type obj)
    (short : length (text_of ncpu type obj) < 128) where
  -- A closed file has no content in use, an open file has one.
  data IsOwner : ProcFile → World → Type 0 where
    closed :
        (flags : Option Flag) (offset : ℕ) (w : World)
        → w.ncpu ≡ ncpu
        → w.live ≡ live
        → IsOwner (record { info = some (new_info type obj); flags = flags; offset = offset }) w
    open_at :
        (a size : ℕ) (flags : Option Flag) (offset : ℕ) (w : World)
        → w.ncpu ≡ ncpu
        → w.live ≡ a ∷ live
        → IsOwner
            (record { info = some (opened type obj a size); flags = flags; offset = offset })
            w

  abbrev Goes : FileCall → ProcFile → World → Type 0
  Goes c f w = (f' : ProcFile) × (w' : World) × (file_call c f w ≡ some (f', w')) × IsOwner f' w'

  opens_new :
      (flag : Flag) (flags : Option Flag) (offset : ℕ) (w : World)
      → w.ncpu ≡ ncpu
      → w.live ≡ live
      → Goes
          (opens flag)
          (record { info = some (new_info type obj); flags = flags; offset = offset })
          w
  unfolding inode_open inode_access
  opens_new dir_exist flags offset w n e = (_, w, refl, closed flags offset w n e)
  opens_new file_write flags offset w n e = (_, w, refl, closed flags offset w n e)
  opens_new file_append flags offset w n e = (_, w, refl, closed flags offset w n e)
  opens_new other flags offset w n e = (_, w, refl, closed flags offset w n e)
  opens_new flag flags offset w n e =
      let (m, made, _, _) = make_content_lem (new_info type obj) w task (rw n short) in
      let size = length (text_of w.ncpu type obj) in
      let w' : World = record w { mem = m; next = w.next + 128; live = w.next ∷ w.live } in
      (
        record { info = some (opened type obj w.next size); flags = some flag; offset = 0 },
        w',
        rw made refl,
        open_at w.next size (some flag) 0 w' n (ap (λ l. w.next ∷ l) e),
      )

  opens_again :
      (flag : Flag) (a size : ℕ) (flags : Option Flag) (offset : ℕ) (w : World)
      → w.ncpu ≡ ncpu
      → w.live ≡ a ∷ live
      → Goes
          (opens flag)
          (record { info = some (opened type obj a size); flags = flags; offset = offset })
          w
  unfolding inode_open inode_access
  opens_again dir_exist a size flags offset w n e = (_, w, refl, open_at a size flags offset w n e)
  opens_again file_write a size flags offset w n e = (_, w, refl, open_at a size flags offset w n e)
  opens_again file_append a size flags offset w n e =
      (_, w, refl, open_at a size flags offset w n e)
  opens_again other a size flags offset w n e = (_, w, refl, open_at a size flags offset w n e)
  opens_again flag a size flags offset w n e = (_, w, refl, open_at a size flags offset w n e)

  closes-IsOwner : (f : ProcFile) (w : World) → IsOwner f w → Goes closes f w
  unfolding inode_close free_content without
  closes-IsOwner _ _ (closed flags offset w n e) = (_, w, refl, closed flags offset w n e)
  closes-IsOwner _ _ (open_at a size flags offset w n e) =
      let same : (a == a) ≡ true = ground arith in
      let w' : World = record w { live = live } in
      (_, w', rw e (rw same refl), closed flags offset w' n refl)

  seeks-IsOwner : (to : ℕ) (f : ProcFile) (w : World) → IsOwner f w → Goes (seeks to) f w
  unfolding inode_lseek
  seeks-IsOwner to _ _ (closed flags offset w n e) = elim (Bool-cases (is_reading flags)) [
    | inl q ↦ (
      record { info = some (new_info type obj); flags = flags; offset = offset },
      w,
      rw q refl,
      closed flags offset w n e,
    )
    | inr q ↦ (
      record { info = some (new_info type obj); flags = flags; offset = offset },
      w,
      rw q refl,
      closed flags offset w n e,
    )
  ]
  seeks-IsOwner to _ _ (open_at a size flags offset w n e) = elim (Bool-cases (is_reading flags)) [
    | inl q ↦ (
      record { info = some (opened type obj a size); flags = flags; offset = smaller to size },
      w,
      rw q refl,
      open_at a size flags (smaller to size) w n e,
    )
    | inr q ↦ (
      record { info = some (opened type obj a size); flags = flags; offset = offset },
      w,
      rw q refl,
      open_at a size flags offset w n e,
    )
  ]

  file_call-IsOwner : (c : FileCall) (f : ProcFile) (w : World) → IsOwner f w → Goes c f w
  unfolding inode_write
  file_call-IsOwner (opens flag) _ _ (closed flags offset w n e) = opens_new flag flags offset w n e
  file_call-IsOwner (opens flag) _ _ (open_at a size flags offset w n e) =
      opens_again flag a size flags offset w n e
  file_call-IsOwner closes f w h = closes-IsOwner f w h
  file_call-IsOwner (seeks to) f w h = seeks-IsOwner to f w h
  file_call-IsOwner (writes buf size) f w h = (f, w, refl, h)

  file_calls-IsOwner :
      (cs : List FileCall) (f : ProcFile) (w : World)
      → IsOwner f w
      → (f' : ProcFile) × (w' : World) × (file_calls cs f w ≡ some (f', w')) × IsOwner f' w'
  unfolding file_calls
  file_calls-IsOwner [] f w h = (f, w, refl, h)
  file_calls-IsOwner (c ∷ cs) f w h =
      let (f1, w1, e, h1) = file_call-IsOwner c f w h in
      let (f2, w2, e2, h2) = file_calls-IsOwner cs f1 w1 h1 in (f2, w2, rw (file_calls, e) e2, h2)

  frees :
      (f : ProcFile) (w : World)
      → IsOwner f w
      → (w' : World) × (fs_close f.info w ≡ some (pos 0, w')) × (w'.live ≡ live)
  unfolding fs_close free_content without
  frees _ _ (closed flags offset w n e) = (w, refl, e)
  frees _ _ (open_at a size flags offset w n e) =
      let same : (a == a) ≡ true = ground arith in
      (record w { live = live }, rw e (rw same refl), refl)

-- A file that `fs_lookup` has made, whose text fits the 128 bytes there are for it, and whose task has a name of fewer than 400 bytes: after any sequence of `open`, with any flags, `close`,
-- `lseek` and `write` on it, `fs_close` returns 0, and in use is what was in use before. None of the calls halts, so nothing is freed twice.
pub calls_free_once :
    (type : InfoType) (obj : Option Task) (cs : List FileCall) (w : World)
    → HasTask type obj
    → length (text_of w.ncpu type obj) < 128
    → (f : ProcFile) × (w1 w2 : World) × (file_calls cs
          (record { info = some (new_info type obj); flags = none; offset = 0 })
          w
        ≡ some (f, w1))
      × (fs_close f.info w1 ≡ some (pos 0, w2))
      × (w2.live ≡ w.live)
calls_free_once type obj cs w task short =
    let (f, w1, e, h) =
      file_calls-IsOwner w.ncpu type obj w.live task short cs _ w (closed none 0 w refl refl) in
    let (w2, e2, same) = frees w.ncpu type obj w.live task short f w1 h in (f, w1, w2, e, e2, same)
