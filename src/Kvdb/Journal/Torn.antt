-- ===== src/Kvdb/Journal/Torn.antt =====
-- libkvdb/kvdb.c: a put that was cut off by a crash, in the middle of its value.
use nju_os_lab.Prelude.{
  ℕ, zero, suc, ◌+◌, ◌-◌, ◌^◌, ◌≤◌, ◌<◌, ◌≡◌, refl, true, false, Option, none, some, List, [], ◌∷◌,
  ◌++◌, ◌==◌, leb, length, length-append, append_assoc, All, arith, ap, ◌∙◌, take,
}
use nju_os_lab.Klib.Strings.{Bytes}
use nju_os_lab.Klib.Strings.Search.{Lacks}
use nju_os_lab.Kvdb.{newline, header_line, put_bytes}
use nju_os_lab.Kvdb.Scan.{
  same_bytes, fgets, after_header, take_end, take_value, scan_round, Scanned, scan_file, is_digit,
}
use nju_os_lab.Kvdb.Scan.Headers.{same_bytes_refl, decimal_digits_first}
use nju_os_lab.Kvdb.Scan.Lines.{Goes, Goes-trans, Goes-round, Goes-returned, skip_line, fgets_line}
use nju_os_lab.Kvdb.Journal.{Entry, journal, newest, PlainKey, PlainValue, PlainEntry}
use nju_os_lab.Kvdb.Journal.Records.{header_line-Lacks, round_header, end_line, journal-Goes}

-- The header of a value of `size` bytes, and what was written of the value.
abbrev pub torn : Bytes → ℕ → Bytes → Bytes
torn key size part = newline ∷ (header_line key size ++ newline ∷ part)

fgets_all : (n : ℕ) (l : Bytes) → Lacks newline l → length l < n → fgets n l ≡ (l, [])
unfolding fgets
fgets_all zero l h lt = absurd (omega arith)
fgets_all (suc n) [] h lt = refl
fgets_all (suc n) (c ∷ l) h lt =
    let ne : (c == newline) ≡ false = ground (arith, h.0) in
    rw (ne, fgets_all n l h.1 (omega arith)) refl

-- A round that meets the header of the key goes on behind it.
round_value :
    (key : Bytes) (size : ℕ) (s : Bytes) (res : Option Bytes)
    → PlainKey key
    → size < 100000000
    → scan_round key (header_line key size ++ newline ∷ s) res
      ≡ some (take_value size res (fgets (size + 4) s))
unfolding after_header
round_value key size s res p small =
    let valid : leb (2 ^ 31 - 5) size ≡ false = ground arith in
    round_header key key size s res p small ∙ rw (same_bytes_refl key, valid) refl

no_end : (n : ℕ) (res : Option Bytes) (l : Bytes) → take_value n res (l, []) ≡ ([], res)
unfolding fgets same_bytes
no_end n res [] = refl
no_end n res (c ∷ l) = refl

digit_first :
    (v : Bytes) (res : Option Bytes) (c : ℕ) (t s : Bytes)
    → is_digit c ≡ true
    → take_end v res ((c ∷ t) ++ newline ∷ [], s) ≡ (s, res)
unfolding same_bytes
digit_first v res c t s digit = let ne : (c == b'E') ≡ false = ground arith in rw ne refl

-- The header of the next put stands where the end mark is expected.
not_end :
    (n size : ℕ) (res : Option Bytes) (l key s : Bytes)
    → length (header_line key size) < 9
    → PlainKey key
    → 0 < length l
    → take_value n res (l, header_line key size ++ newline ∷ s) ≡ (s, res)
not_end n size res [] key s short p h = absurd (omega arith)
not_end n size res (x ∷ l) key s short p h =
    let (c, ds, at, digit) = decimal_digits_first (size + 1) size (omega arith) in
    ap (take_end (take n (x ∷ l)) res)
      (fgets_line 9 (header_line key size) s (header_line-Lacks key size p) short)
    ∙ ap (λ d. take_end (take n (x ∷ l)) res ((d ++ b':' ∷ key) ++ newline ∷ [], s)) at
    ∙ digit_first (take n (x ∷ l)) res c (ds ++ b':' ∷ key) s digit

-- A put that was cut off in its value, or right behind its header, has not changed what `find_db` returns for its key.
pub find_db-torn :
    (key part : Bytes) (size : ℕ) (es : List Entry)
    → All PlainEntry es
    → PlainKey key
    → PlainValue part
    → length part ≤ size
    → size < 100000000
    → scan_file key (journal es ++ torn key size part) ≡ Scanned.returned (newest key none es)
find_db-torn key part size es h p pv le small =
    let res = newest key none es in
    let head = header_line key size in
    let round =
      round_value key size part res p small
      ∙ ap (λ t. some (take_value size res t)) (fgets_all (size + 4) part pv.one_line (omega arith))
      ∙ ap (λ t. some t) (no_end size res part) in
    let longer = length-append head (newline ∷ part) in
    Goes-returned key (journal es ++ torn key size part) res (
      Goes-trans key (journal es ++ torn key size part) (torn key size part) [] none res res
        (journal-Goes key (torn key size part) es none h)
        (Goes-trans key (torn key size part) (head ++ newline ∷ part) [] res res res
          (skip_line key [] (head ++ newline ∷ part) res tt tt)
          (Goes-round key (head ++ newline ∷ part) [] res res round (omega (arith, longer)))))

-- The next put of that key is lost: the header of the new record stands where `find_db` expects the end mark of the torn one, so `find_db` still returns the
-- value from before both puts. The header of the new record has fewer than 9 bytes.
pub find_db-torn_put :
    (key part value : Bytes) (size : ℕ) (es : List Entry)
    → All PlainEntry es
    → PlainKey key
    → PlainValue part
    → PlainValue value
    → length part ≤ size
    → size < 100000000
    → length (header_line key (length value)) < 9
    → scan_file key (journal es ++ (torn key size part ++ put_bytes key value))
      ≡ Scanned.returned (newest key none es)
find_db-torn_put key part value size es h p pp pv le small short =
    let res = newest key none es in
    let head = header_line key size in
    let next = header_line key (length value) in
    let body = value ++ newline ∷ end_line [] in
    let file = next ++ newline ∷ body in
    let size' = length-append part (newline ∷ []) in
    let round =
      round_value key size (part ++ newline ∷ file) res p small
      ∙ ap (λ t. some (take_value size res t))
          (fgets_line (size + 4) part file pp.one_line (omega arith))
      ∙ ap (λ t. some t)
          (not_end size (length value) res (part ++ newline ∷ []) key body short p
            (omega (arith, size'))) in
    let l1 = length-append head (newline ∷ (part ++ newline ∷ file)) in
    let l2 = length-append part (newline ∷ file) in
    let l3 = length-append next (newline ∷ body) in
    let tail = head ++ newline ∷ (part ++ newline ∷ file) in
    let joined : torn key size part ++ put_bytes key value ≡ newline ∷ tail =
      ap (λ t. newline ∷ t) (append_assoc head (newline ∷ part) (put_bytes key value)) in
    let all_read : Goes key (newline ∷ tail) res [] res =
      Goes-trans key (newline ∷ tail) tail [] res res res (skip_line key [] tail res tt tt) (
        Goes-trans key tail body [] res res res
          (Goes-round key tail body res res round (omega (arith, l1, l2, l3)))
          (Goes-trans key body (end_line []) [] res res res
            (skip_line key value (end_line []) res pv.one_line pv.no_colon)
            (skip_line key (b'E' ∷ b'N' ∷ b'D' ∷ []) [] res
              (
                (λ q. absurd (omega arith)),
                ((λ q. absurd (omega arith)), ((λ q. absurd (omega arith)), tt)),
              )
              (
                (λ q. absurd (omega arith)),
                ((λ q. absurd (omega arith)), ((λ q. absurd (omega arith)), tt)),
              )))) in
    ap (λ t. scan_file key (journal es ++ t)) joined
    ∙ Goes-returned key (journal es ++ newline ∷ tail) res (
        Goes-trans key (journal es ++ newline ∷ tail) (newline ∷ tail) [] none res res
          (journal-Goes key (newline ∷ tail) es none h) all_read)
