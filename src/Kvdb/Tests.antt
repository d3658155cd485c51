-- ===== src/Kvdb/Tests.antt =====
-- The store's theorems on a file with one record.
use nju_os_lab.Prelude.{
  ◌≡◌, refl, Bool, true, false, none, some, List, [], ◌∷◌, ◌++◌, arith, pos, if◌then◌else◌,
}
use nju_os_lab.Klib.Strings.{Bytes}
use nju_os_lab.Kvdb.{Kvdb, Files, Called, put_bytes, decimal_digits, kvdb_put, kvdb_get}
use nju_os_lab.Kvdb.Scan.{same_bytes, Scanned, scan_file}
use nju_os_lab.Kvdb.Journal.{Entry, journal, newest, PlainKey, PlainValue}
use nju_os_lab.Kvdb.Journal.Calls.{Stored, kvdb_get-kvdb_put}
use nju_os_lab.Kvdb.Journal.Torn.{torn, find_db-torn_put}

abbrev key_a : Bytes
key_a = b'a' ∷ []

abbrev value_hi : Bytes
value_hi = b'h' ∷ b'i' ∷ []

abbrev value_yo : Bytes
value_yo = b'y' ∷ b'o' ∷ []

key_a-PlainKey : PlainKey key_a
key_a-PlainKey = record {
  some_byte = omega arith;
  short = omega arith;
  one_line = ((λ e. absurd (omega arith)), tt);
}

value_hi-PlainValue : PlainValue value_hi
value_hi-PlainValue = record {
  small = omega arith;
  one_line = ((λ e. absurd (omega arith)), ((λ e. absurd (omega arith)), tt));
  no_colon = ((λ e. absurd (omega arith)), ((λ e. absurd (omega arith)), tt));
}

value_yo-PlainValue : PlainValue value_yo
value_yo-PlainValue = record {
  small = omega arith;
  one_line = ((λ e. absurd (omega arith)), ((λ e. absurd (omega arith)), tt));
  no_colon = ((λ e. absurd (omega arith)), ((λ e. absurd (omega arith)), tt));
}

abbrev entries : List Entry
entries = record { key = key_a; value = value_hi } ∷ []

abbrev files : Files
files k = some (journal entries)

abbrev db : Kvdb
db = record { opened = true; filename = b'd' ∷ []; locked = false }

abbrev all_open : Bytes → Bool
all_open name = true

abbrev none_open : Bytes → Bool
none_open name = false

db-Stored : Stored db files entries
db-Stored = record { free = refl; file = refl; plain = ((key_a-PlainKey, value_hi-PlainValue), tt) }

kvdb_get-kvdb_put_example :
    (files' : Files) × (kvdb_put all_open key_a value_yo db files
      ≡ Called.finished (pos 0, db, files'))
    × Stored db files' (entries ++ record { key = key_a; value = value_yo } ∷ [])
    × (kvdb_get key_a db files' ≡ (
        if same_bytes key_a key_a
        then Called.finished (Scanned.returned (some value_yo))
        else kvdb_get key_a db files))
kvdb_get-kvdb_put_example =
    kvdb_get-kvdb_put all_open key_a value_yo key_a db files entries refl key_a-PlainKey
      value_yo-PlainValue key_a-PlainKey db-Stored

-- A put of "yo" is cut off behind its first byte; the put of "hi" after it is lost.
find_db-torn_put_example :
    scan_file key_a (journal entries ++ (torn key_a 2 (b'y' ∷ []) ++ put_bytes key_a value_hi))
    ≡ Scanned.returned (newest key_a none entries)
unfolding decimal_digits
find_db-torn_put_example =
    find_db-torn_put key_a (b'y' ∷ []) value_hi 2 entries
      ((key_a-PlainKey, value_hi-PlainValue), tt) key_a-PlainKey
      (record {
        small = omega arith;
        one_line = ((λ e. absurd (omega arith)), tt);
        no_colon = ((λ e. absurd (omega arith)), tt);
      })
      value_hi-PlainValue (omega arith) (omega arith) (omega arith)
