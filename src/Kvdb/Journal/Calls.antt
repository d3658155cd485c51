-- ===== src/Kvdb/Journal/Calls.antt =====
-- libkvdb/kvdb.c: the operations on a database that puts have written.
use nju_os_lab.Prelude.{
  ◌*◌, ◌≡◌, refl, inl, inr, Bool-cases, Bool, true, false, Option, none, some, List, [], ◌∷◌, ◌++◌,
  ltb, if◌then◌else◌, length, append_assoc, append-nil, All, All-append, arith, ap, sym, ◌∙◌, pos,
}
use nju_os_lab.Klib.Strings.{Bytes}
use nju_os_lab.Kvdb.{
  Kvdb, Files, Called, write_file, put_bytes, key_fits, kvdb_put, kvdb_get, find_db,
}
use nju_os_lab.Kvdb.Scan.{same_bytes, Scanned}
use nju_os_lab.Kvdb.Scan.Headers.{same_bytes_refl}
use nju_os_lab.Kvdb.Journal.{Entry, journal, newest, PlainKey, PlainValue, PlainEntry}
use nju_os_lab.Kvdb.Journal.Records.{find_db-newest}

-- The database's file has these entries, and nobody is in a call.
pub record Stored (db : Kvdb) (files : Files) (es : List Entry) : Type 0 where
  pub free : db.locked ≡ false
  pub file : files db.filename ≡ some (journal es)
  pub plain : All PlainEntry es

key_fits-PlainKey : (key : Bytes) → PlainKey key → key_fits key ≡ true
key_fits-PlainKey key p = let e = p.some_byte in let s = p.short in ground (arith, e, s)

journal-append :
    (es : List Entry) (e : Entry) → journal (es ++ e ∷ []) ≡ journal es ++ put_bytes e.key e.value
journal-append [] e = append-nil (put_bytes e.key e.value)
journal-append (x ∷ es) e =
    ap (λ t. put_bytes x.key x.value ++ t) (journal-append es e)
    ∙ sym (append_assoc (put_bytes x.key x.value) (journal es) (put_bytes e.key e.value))

newest-append :
    (key : Bytes) (res : Option Bytes) (es : List Entry) (e : Entry)
    → newest key res (es ++ e ∷ [])
      ≡ (if same_bytes key e.key then some e.value else newest key res es)
newest-append key res [] e = refl
newest-append key res (x ∷ es) e =
    newest-append key (if same_bytes key x.key then some x.value else res) es e

-- `kvdb_get` of a plain key.
kvdb_get-newest :
    (key : Bytes) (db : Kvdb) (files : Files) (es : List Entry)
    → PlainKey key
    → Stored db files es
    → kvdb_get key db files ≡ Called.finished (Scanned.returned (newest key none es))
unfolding kvdb_get find_db
kvdb_get-newest key db files es p h =
    rw (key_fits-PlainKey key p, h.free, h.file)
      (ap (λ r. Called.finished r) (find_db-newest key es h.plain))

module _ (can_open : Bytes → Bool) (key value : Bytes) (db : Kvdb) (files : Files)
    (es : List Entry) where
  abbrev grown : List Entry
  grown = es ++ record { key = key; value = value } ∷ []

  abbrev after : Files
  after = write_file db.filename (journal es ++ put_bytes key value) files

  kvdb_put-Stored :
      can_open db.filename ≡ true
      → PlainKey key
      → PlainValue value
      → Stored db files es
      → (kvdb_put can_open key value db files ≡ Called.finished (pos 0, db, after))
        × Stored db after grown
  unfolding kvdb_put
  kvdb_put-Stored opens pk pv h =
      let small : ltb (16 * 1024 * 1024) (length value) ≡ false =
        let s = pv.small in ground (arith, s) in
      (
        rw (kvdb_put, key_fits-PlainKey key pk, small) (rw (h.free, opens, h.file) refl),
        record {
          free = h.free;
          file =
              rw (same_bytes_refl db.filename)
                (ap (λ b. some b) (sym (journal-append es (record { key = key; value = value }))));
          plain =
              All-append PlainEntry es (record { key = key; value = value } ∷ []) h.plain
                ((pk, pv), tt);
        },
      )

-- On a database whose file puts have written, `kvdb_put` of a plain key and value returns 0, and after it `kvdb_get` returns that value for this
-- key, and for every other plain key what it returned before. The file is then again one that puts have written.
pub kvdb_get-kvdb_put :
    (can_open : Bytes → Bool) (key value j : Bytes) (db : Kvdb) (files : Files) (es : List Entry)
    → can_open db.filename ≡ true
    → PlainKey key
    → PlainValue value
    → PlainKey j
    → Stored db files es
    → (files' : Files) × (kvdb_put can_open key value db files
        ≡ Called.finished (pos 0, db, files'))
      × Stored db files' (es ++ record { key = key; value = value } ∷ [])
      × (kvdb_get j db files' ≡ (
          if same_bytes j key
          then Called.finished (Scanned.returned (some value))
          else kvdb_get j db files))
kvdb_get-kvdb_put can_open key value j db files es opens pk pv pj h =
    let e : Entry = record { key = key; value = value } in
    let (put, stored) = kvdb_put-Stored can_open key value db files es opens pk pv h in
    let read =
      kvdb_get-newest j db (after can_open key value db files es) (es ++ e ∷ []) pj stored
      ∙ ap (λ v. Called.finished (Scanned.returned v)) (newest-append j none es e) in
    (
      after can_open key value db files es,
      put,
      stored,
      read ∙ elim (Bool-cases (same_bytes j key)) [
        | inl same ↦ rw same refl
        | inr other ↦ rw other (sym (kvdb_get-newest j db files es pj h))
      ],
    )
