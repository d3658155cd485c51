-- ===== src/Kvdb/Journal/Records.antt =====
-- libkvdb/kvdb.c: `find_db` finds the newest value of a key.
use nju_os_lab.Prelude.{
  ℕ, ◌+◌, ◌-◌, ◌^◌, ◌≤◌, ◌<◌, ◌≡◌, ◌≢◌, refl, inl, inr, false, Option, none, some, List, [], ◌∷◌,
  ◌++◌, leb, if◌then◌else◌, length, length-append, append_assoc, append-nil, All, All-append, arith,
  ap, sym, subst, ◌∙◌, Bool-cases, take,
}
use nju_os_lab.Klib.Strings.{Bytes}
use nju_os_lab.Klib.Strings.Search.{Lacks}
use nju_os_lab.Kvdb.{newline, decimal_digits, header_line, put_bytes}
use nju_os_lab.Kvdb.Scan.{
  same_bytes, fgets, header, scan_header, after_header, next_line, take_end, take_value, scan_round,
  Scanned, scan_file,
}
use nju_os_lab.Kvdb.Scan.Headers.{scan_header_lem, decimal_digits_plain, decimal_digits_short}
use nju_os_lab.Kvdb.Scan.Lines.{Goes, Goes-trans, Goes-round, Goes-returned, skip_line, fgets_line}
use nju_os_lab.Kvdb.Journal.{Entry, journal, newest, PlainKey, PlainValue, PlainEntry}

pub header_line-Lacks :
    (key : Bytes) (size : ℕ) → PlainKey key → Lacks newline (header_line key size)
header_line-Lacks key size p =
    All-append (λ x. x ≢ newline) (decimal_digits (size + 1) size) (b':' ∷ key)
      (decimal_digits_plain (size + 1) size) ((λ q. absurd (omega arith)), p.one_line)

pub header_line_short :
    (key : Bytes) (size : ℕ) → PlainKey key → size < 100000000 → length (header_line key size) < 499
header_line_short key size p small =
    let sizes = length-append (decimal_digits (size + 1) size) (b':' ∷ key) in
    let digits = decimal_digits_short 8 (size + 1) size (omega arith) in
    let short = p.short in omega (arith, sizes, digits, short)

-- A round that reads a header.
pub round_header :
    (key k : Bytes) (size : ℕ) (s : Bytes) (res : Option Bytes)
    → PlainKey k
    → size < 100000000
    → scan_round key (header_line k size ++ newline ∷ s) res
      ≡ after_header key res (header false size k) s
unfolding scan_round
round_header key [] size s res p small = absurd (let e = p.some_byte in omega (arith, e))
round_header key (k ∷ ks) size s res p small =
    let l = header_line (k ∷ ks) size in
    let read =
      fgets_line 499 l s (header_line-Lacks (k ∷ ks) size p)
        (header_line_short (k ∷ ks) size p small) in
    let scanned =
      ap scan_header (append_assoc (decimal_digits (size + 1) size) (b':' ∷ k ∷ ks) (newline ∷ []))
      ∙ scan_header_lem size k ks p.one_line in
    ap (next_line key res) read ∙ ap (λ h. after_header key res h s) scanned

abbrev pub end_line : Bytes → Bytes
end_line s = b'E' ∷ b'N' ∷ b'D' ∷ newline ∷ s

take-append : (l s : Bytes) → take (length l) (l ++ s) ≡ l
take-append [] s = refl
take-append (c ∷ l) s = ap (λ t. c ∷ t) (take-append l s)

take_value-nonempty :
    (n : ℕ) (res : Option Bytes) (l s : Bytes)
    → 0 < length l
    → take_value n res (l, s) ≡ take_end (take n l) res (fgets 9 s)
take_value-nonempty n res [] s h = absurd (omega arith)
take_value-nonempty n res (c ∷ l) s h = refl

-- The value and the end mark behind a header.
take_value_lem :
    (v s : Bytes) (res : Option Bytes)
    → Lacks newline v
    → take_value (length v) res (fgets (length v + 4) (v ++ newline ∷ end_line s)) ≡ (s, some v)
unfolding fgets same_bytes
take_value_lem v s res h =
    let size = length-append v (newline ∷ []) in
    ap (take_value (length v) res) (fgets_line (length v + 4) v (end_line s) h (omega arith))
    ∙ take_value-nonempty (length v) res (v ++ newline ∷ []) (end_line s) (omega (arith, size))
    ∙ ap (λ t. (s, some t)) (take-append v (newline ∷ []))

pub put_bytes-append :
    (k v s : Bytes)
    → put_bytes k v ++ s
      ≡ newline ∷ (header_line k (length v) ++ newline ∷ (v ++ newline ∷ end_line s))
put_bytes-append k v s =
    let ended = newline ∷ end_line [] in
    ap (λ t. newline ∷ t)
      (append_assoc (header_line k (length v)) (newline ∷ (v ++ ended)) s
        ∙ ap (λ t. header_line k (length v) ++ newline ∷ t) (append_assoc v ended s))

length-le-append : (a b : Bytes) → length b ≤ length (a ++ b)
length-le-append a b = let size = length-append a b in omega (arith, size)

-- A record that `find_db` passes.
pub put_bytes-Goes :
    (key k v s : Bytes) (res : Option Bytes)
    → PlainKey k
    → PlainValue v
    → Goes key (put_bytes k v ++ s) res s (if same_bytes key k then some v else res)
unfolding after_header
put_bytes-Goes key k v s res pk pv =
    let small = pv.small in
    let body = v ++ newline ∷ end_line s in
    let head = header_line k (length v) in
    let round = round_header key k (length v) body res pk (omega (arith, small)) in
    let size = length-append head (newline ∷ body) in
    let valid : leb (2 ^ 31 - 5) (length v) ≡ false = ground (arith, small) in
    let rest = length-append v (newline ∷ end_line s) in
    let from_head : Goes key (head ++ newline ∷ body) res s
        (if same_bytes key k then some v else res) =
      elim (Bool-cases (same_bytes key k)) [
        | inl e ↦ rw e (
            Goes-round key (head ++ newline ∷ body) s res (some v)
              (round ∙ rw (e, valid) (ap (λ t. some t) (take_value_lem v s res pv.one_line)))
              (omega (arith, size, rest)))
        | inr e ↦ rw e (
            Goes-trans key (head ++ newline ∷ body) body s res res res
              (Goes-round key (head ++ newline ∷ body) body res res (round ∙ rw e refl)
                (omega (arith, size)))
              (Goes-trans key body (end_line s) s res res res
                (skip_line key v (end_line s) res pv.one_line pv.no_colon)
                (skip_line key (b'E' ∷ b'N' ∷ b'D' ∷ []) s res
                  (
                    (λ q. absurd (omega arith)),
                    ((λ q. absurd (omega arith)), ((λ q. absurd (omega arith)), tt)),
                  )
                  (
                    (λ q. absurd (omega arith)),
                    ((λ q. absurd (omega arith)), ((λ q. absurd (omega arith)), tt)),
                  ))))
      ] in
    subst (λ t. Goes key t res s (if same_bytes key k then some v else res))
      (sym (put_bytes-append k v s))
      (Goes-trans key (newline ∷ (head ++ newline ∷ body)) (head ++ newline ∷ body) s res res
        (if same_bytes key k then some v else res)
        (skip_line key [] (head ++ newline ∷ body) res tt tt) from_head)

pub journal-Goes :
    (key s : Bytes) (es : List Entry) (res : Option Bytes)
    → All PlainEntry es
    → Goes key (journal es ++ s) res s (newest key res es)
journal-Goes key s [] res h = λ fuel lt. (fuel, refl, lt)
journal-Goes key s (e ∷ es) res h =
    let now = if same_bytes key e.key then some e.value else res in
    subst (λ t. Goes key t res s (newest key res (e ∷ es)))
      (sym (append_assoc (put_bytes e.key e.value) (journal es) s))
      (Goes-trans key (put_bytes e.key e.value ++ (journal es ++ s)) (journal es ++ s) s res now
        (newest key res (e ∷ es))
        (put_bytes-Goes key e.key e.value (journal es ++ s) res h.0.0 h.0.1)
        (journal-Goes key s es now h.1))

-- `find_db` implements a map: in a file that puts have written it ends, and it returns the value of the key's newest record, and `NULL` if there is
-- none. The keys are plain, and the values have neither a newline nor a colon.
pub find_db-newest :
    (key : Bytes) (es : List Entry)
    → All PlainEntry es
    → scan_file key (journal es) ≡ Scanned.returned (newest key none es)
find_db-newest key es h =
    ap (scan_file key) (sym (append-nil (journal es)))
    ∙ Goes-returned key (journal es ++ []) (newest key none es) (journal-Goes key [] es none h)
