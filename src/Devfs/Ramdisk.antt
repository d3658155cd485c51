-- ===== src/Devfs/Ramdisk.antt =====
-- kernel/src/devices/ramdisk/ramdisk.c behind kernel/src/vfs/vfs.c and kernel/src/vfs/devfs.c: a ramdisk that is written and read.
use nju_os_lab.Prelude.{ℕ, if◌then◌else◌, ltb}
use nju_os_lab.Klib.Strings.{Bytes}
use nju_os_lab.Devfs.{DevOps, RamDisks, rd_read, rd_write}

-- The operations of `DEVICES`: of the two ramdisks, and of the others.
module _ {E : Type 0} (others : DevOps E) where
  abbrev pub table_read : ℕ → ℕ → ℕ → RamDisks × E → Bytes × (RamDisks × E)
  table_read dev offset count (d, e) =
      let (s, d') = rd_read dev offset count d in
      let (s', e') = others.read dev offset count e in
      if ltb dev 2 then (s, (d', e)) else (s', (d, e'))

  abbrev pub table_write : ℕ → ℕ → Bytes → RamDisks × E → ℕ × (RamDisks × E)
  table_write dev offset s (d, e) =
      let (n, d') = rd_write dev offset s d in
      let (n', e') = others.write dev offset s e in
      if ltb dev 2 then (n, (d', e)) else (n', (d, e'))

  unfoldable pub dev_table : DevOps (RamDisks × E)
  dev_table = record { read = table_read; write = table_write }
