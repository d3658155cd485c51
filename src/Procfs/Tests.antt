-- ===== src/Procfs/Tests.antt =====
-- Files of procfs with two tasks, and a text that is read in parts.
use nju_os_lab.Prelude.{◌≡◌, refl, some, none, [], ◌∷◌, ◌==◌, if◌then◌else◌, arith, pos, inr}
use nju_os_lab.Klib.Strings.{Bytes, streq, strcmp}
use nju_os_lab.Klib.Memory.{Mem}
use nju_os_lab.Klib.Memory.Copy.{Holds}
use nju_os_lab.Klib.Format.{push_digits}
use nju_os_lab.Devfs.{file_read, file_write}
use nju_os_lab.Procfs.{
  Task, mem_info, task_info, ProcFile, World, inode_read, fs_lookup, lookup_name, task_lookup,
  fs_close, new_info,
}
use nju_os_lab.Procfs.Contents.{text_of}
use nju_os_lab.Procfs.Reads.{reading}
use nju_os_lab.Procfs.Files.{ReadWhole, read_text}
use nju_os_lab.Procfs.Parts.{third_read_halts}
use nju_os_lab.Procfs.Life.{opens, closes, seeks, file_calls, calls_free_once}

abbrev sh : Task
sh = record { tid = 3; name = b's' ∷ b'h' ∷ []; cpu = 1 }

abbrev idle : Task
idle = record { tid = 4; name = b'i' ∷ b'd' ∷ b'l' ∷ b'e' ∷ []; cpu = 0 }

abbrev world : World
world = record { tasks = idle ∷ sh ∷ []; ncpu = 2; mem = λ a. 0; next = 1000; live = 500 ∷ [] }

-- "Tid: 3", "Name: sh" and "CPU: 1", each on its line.
sh_text :
    text_of 2 task_info (some sh)
    ≡ b'T' ∷ b'i' ∷ b'd' ∷ b':' ∷ b' ' ∷ b'3' ∷ b'\n' ∷ b'N' ∷ b'a' ∷ b'm' ∷ b'e' ∷ b':' ∷ b' '
      ∷ b's' ∷ b'h' ∷ b'\n' ∷ b'C' ∷ b'P' ∷ b'U' ∷ b':' ∷ b' ' ∷ b'1' ∷ b'\n' ∷ []
unfolding push_digits
sh_text = refl

sh_found :
    fs_lookup (b'/' ∷ b's' ∷ b'h' ∷ []) (idle ∷ sh ∷ [])
    ≡ some (some (some (new_info task_info (some sh))))
unfolding fs_lookup lookup_name task_lookup streq strcmp
sh_found = refl

read_text_example : ReadWhole world task_info (some sh) (new_info task_info (some sh)) 600 64
unfolding push_digits
read_text_example =
    read_text world (b'/' ∷ b's' ∷ b'h' ∷ []) (new_info task_info (some sh)) 600 64 (omega arith)
      sh_found (omega arith) (omega arith) (omega arith) refl

abbrev abc : Bytes
abc = b'a' ∷ b'b' ∷ b'c' ∷ []

abbrev with_abc : Mem
with_abc a = if a == 10 then b'a' else if a == 11 then b'b' else if a == 12 then b'c' else 0

third_read_halts_example :
    (w1 w2 : World) × (inode_read 20 2
        (reading mem_info none 10 3 0)
        (record world { mem = with_abc })
      ≡ some (pos 2, reading mem_info none 10 3 2, w1))
    × Holds w1.mem 20 (b'a' ∷ b'b' ∷ [])
    × (inode_read 20 2 (reading mem_info none 10 3 2) w1
        ≡ some (pos 2, reading mem_info none 10 3 4, w2))
    × Holds w2.mem 20 (b'c' ∷ b'b' ∷ [])
    × (inode_read 20 2 (reading mem_info none 10 3 4) w2 ≡ none)
third_read_halts_example =
    third_read_halts (record world { mem = with_abc }) mem_info none 10 20 2 abc (omega arith)
      (inr (omega arith)) (omega arith) (omega arith) (omega arith) refl

calls_free_once_example :
    (f : ProcFile) × (w1 w2 : World) × (file_calls
        (opens file_read
          ∷ opens file_read
          ∷ closes
          ∷ closes
          ∷ opens file_write
          ∷ opens file_read
          ∷ seeks 99
          ∷ [])
        (record { info = some (new_info task_info (some sh)); flags = none; offset = 0 })
        world
      ≡ some (f, w1))
    × (fs_close f.info w1 ≡ some (pos 0, w2))
    × (w2.live ≡ 500 ∷ [])
unfolding push_digits
calls_free_once_example =
    calls_free_once task_info (some sh)
      (opens file_read
        ∷ opens file_read
        ∷ closes
        ∷ closes
        ∷ opens file_write
        ∷ opens file_read
        ∷ seeks 99
        ∷ [])
      world (omega arith) (omega arith)
