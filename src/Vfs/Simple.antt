-- ===== src/Vfs/Simple.antt =====
-- kernel/src/vfs/vfs.c: the calls that leave the descriptors alone.
use nju_os_lab.Prelude.{ℕ, Bool, false, Option, List}
use nju_os_lab.Vfs.{M, ◌>>=◌}
use nju_os_lab.Vfs.Rules.{Returns, Holds}

-- The run ends with the lock free and the table as it was.
abbrev pub Clean : (W : Type 0) {A : Type 0} → List (Option ℕ) → Bool → M W A → Type 0
Clean W {A} t b m = Returns {W = W} {A = A} (Holds b t) m (λ _. Holds false t)
