-- ===== src/Path/Join.antt =====
-- kernel/src/path.c: `path_join`.
use nju_os_lab.Prelude.{
  ℕ, ◌≡◌, refl, ◌≢◌, [], ◌∷◌, ◌++◌, ◌==◌, arith, if◌then◌else◌, drop, append_assoc, ap,
}
use nju_os_lab.Klib.Strings.{Bytes}
use nju_os_lab.Path.{slash, first, last_from, drop_last, path_join}

-- A path without the '/' that it may end in, and without the one that it may begin with.
abbrev pub trim_end : Bytes → Bytes
trim_end s = if last_from 0 s == slash then drop_last s else s

abbrev pub trim_start : Bytes → Bytes
trim_start s = if first s == slash then drop 1 s else s

pub drop_last-last :
    (prev c : ℕ) (s : Bytes) (e : ℕ)
    → last_from prev (c ∷ s) ≡ e
    → c ∷ s ≡ drop_last (c ∷ s) ++ e ∷ []
drop_last-last prev c [] e h = ground arith
drop_last-last prev c (d ∷ s) e h = ap (λ l. c ∷ l) (drop_last-last c d s e h)

-- `path_join` of two paths that are not empty puts exactly one '/' between them, whichever of them
-- brings one.
pub path_join_lem :
    (base child : Bytes)
    → base ≢ []
    → child ≢ []
    → path_join base child ≡ trim_end base ++ slash ∷ trim_start child
unfolding path_join
path_join_lem [] child hb hc = absurd (hb refl)
path_join_lem (b ∷ base) [] hb hc = absurd (hc refl)
path_join_lem (b ∷ base) (c ∷ child) hb hc = ground (
  arith,
  drop_last-last 0 b base slash,
  append_assoc (drop_last (b ∷ base)) (slash ∷ []) (c ∷ child),
  append_assoc (drop_last (b ∷ base)) (slash ∷ []) child,
)

-- With one path empty the result is the empty path, whatever the other one is.
pub path_join_empty : (s : Bytes) → (path_join [] s ≡ []) × (path_join s [] ≡ [])
unfolding path_join
path_join_empty [] = (refl, refl)
path_join_empty (c ∷ s) = (refl, ground arith)
