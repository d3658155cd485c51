-- ===== src/Kvdb.antt =====
-- libkvdb/kvdb.c, the key-value store: the operations on a database, and the file that they share.
pub mod Scan
pub mod Journal
mod Tests
use nju_os_lab.Prelude.{
  ℕ, zero, suc, ◌+◌, ◌*◌, ◌-◌, ◌/◌, ◌%◌, ◌^◌, Bool, true, false, Option, none, some, List, [], ◌∷◌,
  ◌++◌, ◌==◌, ◌&&◌, ◌||◌, not, ltb, leb, if◌then◌else◌, length, ℤ, pos, minus_one,
}
use nju_os_lab.Klib.Strings.{Bytes}
use nju_os_lab.Kvdb.Scan.{Scanned, scan_file, same_bytes}

-- `kvdb_t`; `locked`: its mutex is taken.
pub record Kvdb : Type 0 where
  pub opened : Bool
  pub filename : Bytes
  pub locked : Bool

-- The files of the system, by name. A file that may not be opened has no contents to be seen.
abbrev pub Files : Type 0
Files = Bytes → Option Bytes

-- What a call does: it returns, or it waits forever for the mutex.
pub data Called (A : Type 0) : Type 0 where
  finished : A → Called A
  deadlock : Called A

abbrev pub newline : ℕ
newline = b'\n'

abbrev pub write_file : Bytes → Bytes → Files → Files
write_file name bytes files k = if same_bytes k name then some bytes else files k

-- `%d` of a number that is not negative. The fuel is more than its digits.
unfoldable pub decimal_digits : ℕ → ℕ → Bytes
decimal_digits zero n = []
decimal_digits (suc fuel) n =
    let high = decimal_digits fuel (n / 10) in
    if ltb n 10 then (b'0' + n) ∷ [] else high ++ (b'0' + n % 10) ∷ []

abbrev pub header_line : Bytes → ℕ → Bytes
header_line key size = decimal_digits (size + 1) size ++ b':' ∷ key

-- What `kvdb_put` appends.
abbrev pub put_bytes : Bytes → Bytes → Bytes
put_bytes key value =
    newline
    ∷ (header_line key (length value)
        ++ newline ∷ (value ++ newline ∷ b'E' ∷ b'N' ∷ b'D' ∷ newline ∷ []))

abbrev pub key_fits : Bytes → Bool
key_fits key = not (length key == 0) && leb (length key) 128

abbrev pub created : Option Bytes → Bytes
created none = []
created (some bytes) = bytes

-- The database and the strings are not `NULL`. `can_open` says whether `fopen` for writing succeeds; a file that
-- is not there is created.
module _ (can_open : Bytes → Bool) where
  unfoldable pub kvdb_open : Bytes → Kvdb → Files → ℤ × Kvdb × Files
  kvdb_open filename db files =
      let locked = record db { locked = true } in
      let named = record locked { filename = filename } in
      if db.opened
      then (minus_one, db, files)
      else if leb 1024 (length filename)
      then (minus_one, locked, files)
      else if can_open filename
      then (
        pos 0,
        record named { opened = true; locked = false },
        write_file filename (created (files filename)) files,
      )
      else (minus_one, named, files)

  unfoldable pub kvdb_put : Bytes → Bytes → Kvdb → Files → Called (ℤ × Kvdb × Files)
  kvdb_put key value db files =
      let appended = created (files db.filename) ++ put_bytes key value in
      if not (key_fits key) || ltb (16 * 1024 * 1024) (length value)
      then finished (minus_one, db, files)
      else if db.locked
      then deadlock
      else if can_open db.filename
      then finished (pos 0, db, write_file db.filename appended files)
      else finished (minus_one, record db { locked = true }, files)

unfoldable pub kvdb_close : Kvdb → Called (ℤ × Kvdb)
kvdb_close db =
    if not db.opened
    then finished (pos 0, db)
    else if db.locked
    then deadlock
    else finished (pos 0, record db { filename = []; opened = false })

-- `find_db`; a file that cannot be opened gives `NULL`.
unfoldable pub find_db : Bytes → Option Bytes → Scanned
find_db key none = Scanned.returned none
find_db key (some file) = scan_file key file

-- The result `NULL` is `none`.
unfoldable pub kvdb_get : Bytes → Kvdb → Files → Called Scanned
kvdb_get key db files =
    if not (key_fits key)
    then finished (Scanned.returned none)
    else if db.locked
    then deadlock
    else finished (find_db key (files db.filename))
