-- ===== src/Kvdb/Journal.antt =====
-- libkvdb/kvdb.c: the file is a journal of records, and the last record of a key counts.
pub mod Records
pub mod Calls
pub mod Torn
use nju_os_lab.Prelude.{
  ℕ, ◌+◌, ◌≤◌, ◌<◌, Bool, true, false, Option, none, some, List, [], ◌∷◌, ◌++◌, ◌≢◌, if◌then◌else◌,
  length, All, ◌^◌, ◌*◌,
}
use nju_os_lab.Klib.Strings.{Bytes}
use nju_os_lab.Klib.Strings.Search.{Lacks}
use nju_os_lab.Kvdb.{newline, put_bytes}
use nju_os_lab.Kvdb.Scan.{same_bytes}

pub record Entry : Type 0 where
  pub key : Bytes
  pub value : Bytes

-- What the calls of `kvdb_put` have written, the first one first.
abbrev pub journal : List Entry → Bytes
journal [] = []
journal (e ∷ es) = put_bytes e.key e.value ++ journal es

-- The value of a key, with the value that it had before the entries.
abbrev pub newest : Bytes → Option Bytes → List Entry → Option Bytes
newest key res [] = res
newest key res (e ∷ es) = newest key (if same_bytes key e.key then some e.value else res) es

-- A key of 1 to 128 bytes with no newline, and a value with no newline and no colon, of 16 MB at most.
pub record PlainKey (key : Bytes) : Type 0 where
  pub some_byte : 0 < length key
  pub short : length key ≤ 128
  pub one_line : Lacks newline key

pub record PlainValue (value : Bytes) : Type 0 where
  pub small : length value ≤ 16 * 1024 * 1024
  pub one_line : Lacks newline value
  pub no_colon : Lacks b':' value

abbrev pub PlainEntry : Entry → Type 0
PlainEntry e = PlainKey e.key × PlainValue e.value
