-- ===== src/Numbers/Tests.antt =====
-- kernel/src/string.c: runs of `atoi`.
use nju_os_lab.Prelude.{ℕ, ◌≡◌, refl, some, List, [], ◌∷◌, pos, negsuc}
use nju_os_lab.Numbers.{atoi, atoi_loop}

abbrev one_two : List ℕ
one_two = 1 ∷ 2 ∷ []

-- "1-2" is read as -12.
atoi_runs : atoi (b'1' ∷ b'-' ∷ b'2' ∷ []) ≡ some (pos 0, negsuc 11)
unfolding atoi atoi_loop
atoi_runs = refl
