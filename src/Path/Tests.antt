-- ===== src/Path/Tests.antt =====
-- Runs of the path functions, and each theorem at an input.
use nju_os_lab.Prelude.{◌≡◌, [], ◌∷◌, arith}
use nju_os_lab.Klib.Strings.{Bytes}
use nju_os_lab.Path.{slash, path_join}
use nju_os_lab.Path.Join.{path_join_empty}
use nju_os_lab.Path.Parts.{IsName}

abbrev bin : Bytes
bin = 98 ∷ 105 ∷ 110 ∷ []

abbrev home : Bytes
home = slash ∷ 104 ∷ []

bin-IsName : IsName bin
bin-IsName = record { some_byte = λ e. cc; plain = omega arith }

path_join_empty_example : (path_join [] bin ≡ []) × (path_join bin [] ≡ [])
path_join_empty_example = path_join_empty bin
