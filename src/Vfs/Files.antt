-- ===== src/Vfs/Files.antt =====
-- kernel/src/vfs/vfs.c: the file list and the table of descriptors.
use nju_os_lab.Prelude.{
  ℕ, suc, Bool, true, false, Option, none, some, List, [], ◌∷◌, ◌==◌, if◌then◌else◌, get_elem?, set,
}
use nju_os_lab.Vfs.{M}

-- The list without the first node of that file; the same list, and a warning, if there is none.
unfoldable pub file_list_remove : ℕ → List ℕ → List ℕ
file_list_remove file [] = []
file_list_remove file (cur ∷ rest) =
    let later = cur ∷ file_list_remove file rest in if cur == file then rest else later

-- Equality of pointers that may be `NULL`.
abbrev pub same_pointer : Option ℕ → Option ℕ → Bool
same_pointer none none = true
same_pointer (some a) (some b) = a == b
same_pointer _ _ = false

-- The first descriptor with that pointer, -1 as `none`.
unfoldable pub find_filde_index : List (Option ℕ) → Option ℕ → Option ℕ
find_filde_index [] f = none
find_filde_index (x ∷ rest) f =
    let later = find_filde_index rest f in
    if same_pointer x f then some 0 else elim later [ none ↦ none | some i ↦ some (suc i) ]

module _ {W : Type 0} where
  -- `get_file` and the assertion behind each of its calls: halts on an empty descriptor. A number
  -- outside the table would read past it, and counts as halting.
  unfoldable pub get_file : ℕ → M W ℕ
  get_file fd s = elim (get_elem? s.fildes fd) [
    | none ↦ none
    | some none ↦ none
    | some (some tf) ↦ some (tf, s)
  ]

  unfoldable pub set_filde : ℕ → Option ℕ → M W (Unit {0})
  set_filde fd f s = some (tt, record s { fildes = set s.fildes fd f })
