-- ===== src/Path/Parts.antt =====
-- kernel/src/path.c: `path_get_directory`, `path_get_name` and `path_next_name`.
use nju_os_lab.Prelude.{
  ℕ, suc, ◌≡◌, refl, ◌≢◌, [], ◌∷◌, ◌++◌, ◌==◌, arith, if◌then◌else◌, true, false, drop, take,
  length, append_assoc, ap, some, none,
}
use nju_os_lab.Klib.Strings.{Bytes, strrchr, strchr}
use nju_os_lab.Klib.Strings.Search.{Lacks}
use nju_os_lab.Path.{
  slash, last_from, drop_last, header_byte, path_get_directory, path_get_name, path_next_name,
}

-- A name in a path: not empty, and with no '/'.
pub record IsName (n : Bytes) : Type 0 where
  pub some_byte : n ≢ []
  pub plain : Lacks slash n

strrchr-Lacks :
    (prev c : ℕ) (n : Bytes) → Lacks c n → strrchr prev n c ≡ (if prev == c then some 0 else none)
unfolding strrchr
strrchr-Lacks prev c [] h = refl
strrchr-Lacks prev c (x ∷ n) h = ground (arith, strrchr-Lacks x c n h.1)

strrchr_at :
    (prev c : ℕ) (d n : Bytes) → Lacks c n → strrchr prev (d ++ c ∷ n) c ≡ some (suc (length d))
unfolding strrchr
strrchr_at prev c [] n h = ground (arith, strrchr-Lacks c c n h)
strrchr_at prev c (x ∷ d) n h = ground (arith, strrchr_at x c d n h)

last_from-append : (prev c : ℕ) (s t : Bytes) → last_from prev (s ++ c ∷ t) ≡ last_from c t
last_from-append prev c [] t = refl
last_from-append prev c (x ∷ s) t = last_from-append x c s t

last_from-ne : (prev : ℕ) (n : Bytes) → n ≢ [] → Lacks slash n → (last_from prev n == slash) ≡ false
last_from-ne prev [] h k = absurd (h refl)
last_from-ne prev (x ∷ []) h k = ground arith
last_from-ne prev (x ∷ y ∷ n) h k = last_from-ne x (y ∷ n) (λ e. cc) k.1

drop_last-append : (s : Bytes) (c : ℕ) → drop_last (s ++ c ∷ []) ≡ s
drop_last-append [] c = refl
drop_last-append (x ∷ []) c = refl
drop_last-append (x ∷ y ∷ s) c = ap (λ l. x ∷ l) (drop_last-append (y ∷ s) c)

take-length : (d t : Bytes) (c : ℕ) → take (suc (length d)) (d ++ c ∷ t) ≡ d ++ c ∷ []
take-length [] t c = refl
take-length (x ∷ d) t c = ap (λ l. x ∷ l) (take-length d t c)

drop-length : (d t : Bytes) (c : ℕ) → drop (suc (length d)) (d ++ c ∷ t) ≡ t
drop-length [] t c = refl
drop-length (x ∷ d) t c = drop-length d t c

module _ (d n : Bytes) (name : IsName n) where
  path : Bytes
  path = d ++ (slash ∷ n)

  with_slash : path ++ (slash ∷ []) ≡ d ++ (slash ∷ (n ++ slash ∷ []))
  unfolding path
  with_slash = append_assoc d (slash ∷ n) (slash ∷ [])

  found : strrchr header_byte path slash ≡ some (suc (length d))
  unfolding path
  found = strrchr_at header_byte slash d n name.plain

  not_last : (last_from header_byte path == slash) ≡ false
  unfolding path
  not_last = rw last_from-append (last_from-ne slash n name.some_byte name.plain)

  is_last : (last_from header_byte (path ++ slash ∷ []) == slash) ≡ true
  is_last = rw last_from-append refl

  directory_plain : path_get_directory path ≡ d ++ slash ∷ []
  unfolding path_get_directory
  directory_plain = rw (path_get_directory, not_last, found) (unfold path in take-length d n slash)

  directory_slash : path_get_directory (path ++ slash ∷ []) ≡ d ++ slash ∷ []
  unfolding path_get_directory
  directory_slash =
      rw (path_get_directory, is_last, drop_last-append, found, with_slash)
        (take-length d (n ++ slash ∷ []) slash)

  name_plain : path_get_name path ≡ n
  unfolding path_get_name
  name_plain = rw (path_get_name, not_last, found, not_last) (unfold path in drop-length d n slash)

  name_slash : path_get_name (path ++ slash ∷ []) ≡ n
  unfolding path_get_name
  name_slash =
      rw (path_get_name, is_last, drop_last-append, found, is_last, drop_last-append)
        (unfold path in drop-length d n slash)

-- A path that consists of anything, a '/' and a name is split behind that '/': the directory keeps
-- the '/', the name is the rest. One more '/' at the end of the path changes neither.
pub path_parts :
    (d n : Bytes)
    → IsName n
    → (path_get_directory (d ++ slash ∷ n) ≡ d ++ slash ∷ [])
      × (path_get_name (d ++ slash ∷ n) ≡ n)
      × (path_get_directory ((d ++ slash ∷ n) ++ slash ∷ []) ≡ d ++ slash ∷ [])
      × (path_get_name ((d ++ slash ∷ n) ++ slash ∷ []) ≡ n)
unfolding path
path_parts d n name =
    (directory_plain d n name, name_plain d n name, directory_slash d n name, name_slash d n name)

strchr-Lacks : (c : ℕ) (n : Bytes) → Lacks c n → strchr n c ≡ none
unfolding strchr
strchr-Lacks c [] h = refl
strchr-Lacks c (x ∷ n) h = ground (arith, strchr-Lacks c n h.1)

strchr_at : (c : ℕ) (n t : Bytes) → Lacks c n → strchr (n ++ c ∷ t) c ≡ some (length n)
unfolding strchr
strchr_at c [] t h = ground arith
strchr_at c (x ∷ n) t h = ground (arith, strchr_at c n t h.1)

take-append : (n t : Bytes) → take (length n) (n ++ t) ≡ n
take-append [] t = refl
take-append (x ∷ n) t = ap (λ l. x ∷ l) (take-append n t)

drop-append : (n t : Bytes) → drop (length n) (n ++ t) ≡ t
drop-append [] t = refl
drop-append (x ∷ n) t = drop-append n t

-- From a path that begins with a '/' and a name, or with the name itself, `path_next_name` returns
-- that name. What follows it, from the next '/' on, is left to the next call; if nothing follows,
-- the walk ends there.
pub path_next_name_lem :
    (n t : Bytes)
    → IsName n
    → (path_next_name (slash ∷ n) ≡ (some n, none))
      × (path_next_name n ≡ (some n, none))
      × (path_next_name (slash ∷ n ++ slash ∷ t) ≡ (some n, some (slash ∷ t)))
      × (path_next_name (n ++ slash ∷ t) ≡ (some n, some (slash ∷ t)))
unfolding path_next_name
path_next_name_lem [] t name = absurd (name.some_byte refl)
path_next_name_lem (x ∷ n) t name =
    let plain = name.plain in
    let lacks = strchr-Lacks slash (x ∷ n) plain in
    let at = strchr_at slash (x ∷ n) t plain in
    let front = take-append (x ∷ n) (slash ∷ t) in
    let back = drop-append (x ∷ n) (slash ∷ t) in
    (
      ground (arith, lacks),
      ground (arith, lacks),
      ground (arith, at, front, back),
      ground (arith, at, front, back),
    )

-- The root and the empty path hold no name: the walk over a path ends at once.
pub path_next_name_end :
    (path_next_name [] ≡ (none, none)) × (path_next_name (slash ∷ []) ≡ (none, none))
unfolding path_next_name
path_next_name_end = (refl, refl)
