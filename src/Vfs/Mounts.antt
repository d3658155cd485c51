-- ===== src/Vfs/Mounts.antt =====
-- kernel/src/vfs/vfs.c: the mount list, newest first, and which mount a path belongs to.
use nju_os_lab.Prelude.{
  ℕ, ◌-◌, Bool, true, Option, none, some, List, [], ◌∷◌, ◌++◌, ◌==◌, ◌&&◌, ltb, if◌then◌else◌,
  length, drop,
}
use nju_os_lab.Klib.Strings.{Bytes, strlen, streq, strneq}
use nju_os_lab.Path.{slash, last_from, header_byte, path_get_directory, path_get_name}
use nju_os_lab.Vfs.{Mount, Entry, item_dir}

-- The node with exactly that path.
unfoldable pub mount_list_find : Bytes → List Mount → Option Mount
mount_list_find path [] = none
mount_list_find path (cur ∷ rest) =
    let later = mount_list_find path rest in if streq path cur.path then some cur else later

-- The list without the first node with that path; the same list, and a warning, if there is none.
unfoldable pub mount_list_remove : Bytes → List Mount → List Mount
mount_list_remove path [] = []
mount_list_remove path (cur ∷ rest) =
    let later = cur ∷ mount_list_remove path rest in if streq path cur.path then rest else later

abbrev pub with_slash : Bytes → Bytes
with_slash path = if last_from header_byte path == slash then path else path ++ (slash ∷ [])

-- The mount points directly below a directory, each put in front of those found before it.
unfoldable pub mount_list_readdir : Bytes → List Mount → List Entry → List Entry
mount_list_readdir path [] head = head
mount_list_readdir path (cur ∷ rest) head = mount_list_readdir path rest (
    if streq (with_slash path) (path_get_directory cur.path)
    then if strlen (path_get_name cur.path) == 0
      then head
      else record { name = path_get_name cur.path; type = item_dir } ∷ head
    else head)

-- `bestLen`, -1 while nothing is found, and `len > bestLen`.
abbrev pub longer : ℕ → Option Mount → Bool
longer len none = true
longer len (some res) = ltb (length res.path) len

-- The loop of `get_mount_fs`: the longest mount path that the path begins with.
unfoldable pub best_mount : Bytes → List Mount → Option Mount → Option Mount
best_mount path [] res = res
best_mount path (cur ∷ rest) res = best_mount path rest (
    if strneq path cur.path (length cur.path) && longer (length cur.path) res
    then some cur
    else res)

-- The path inside the mount: what follows the mount's path, from one byte earlier on if that is
-- not the end and no '/'. A mount's path is not empty.
unfoldable pub subpath_of : Bytes → ℕ → Bytes
subpath_of path len = elim (drop len path) [
  | [] ↦ slash ∷ []
  | c ∷ rest ↦ if c == slash then c ∷ rest else drop (len - 1) path
]

unfoldable pub get_mount_fs : Bytes → List Mount → Option (Mount × Bytes)
unfolding best_mount subpath_of
get_mount_fs path mounts = elim (best_mount path mounts none) [
  | none ↦ none
  | some mn ↦ some (mn, subpath_of path (length mn.path))
]
