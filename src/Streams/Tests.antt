-- ===== src/Streams/Tests.antt =====
-- The streams on a file that is a list of bytes.
use nju_os_lab.Prelude.{
  ℕ, zero, suc, ◌≤◌, ◌<◌, ◌≡◌, refl, ap, sym, ◌∙◌, none, some, List, [], ◌∷◌, ◌++◌, ◌==◌,
  if◌then◌else◌, length, take, drop, arith, pos,
}
use nju_os_lab.Klib.Strings.{Bytes}
use nju_os_lab.Klib.Format.{int, convert, push_digits}
use nju_os_lab.Klib.Format.Pieces.{
  Piece, lit, conv, Renders, nothing, literal, converted, spelled, args_of,
}
use nju_os_lab.ByteBuffer.{buffer_init}
use nju_os_lab.Streams.{FileCalls, Stream, fs_open, fs_get_line, fs_printf}
use nju_os_lab.Streams.Reading.{Reads, Ready, first_line, fs_get_line-first_line}
use nju_os_lab.Streams.Writing.{Writes, Sent, fs_printf-Sent}

-- Reads take from the front, and writes add to the end.
abbrev list_file : FileCalls Bytes
list_file = record { read = λ n s. (some (take n s), drop n s); write = λ a s. (length a, s ++ a) }

abbrev Same : Bytes → Bytes → Type 0
Same s l = s ≡ l

take_part : (n : ℕ) (l : Bytes) → (l ≡ take n l ++ drop n l) × (length (take n l) ≤ n)
take_part zero l = (refl, omega arith)
take_part (suc n) [] = (refl, omega arith)
take_part (suc n) (c ∷ l) =
    let (e, short) = take_part n l in (ap (λ t. c ∷ t) e, omega (arith, short))

take_none : (n : ℕ) (l : Bytes) → 0 < n → take n l ≡ [] → l ≡ []
take_none zero l h e = absurd (omega arith)
take_none (suc n) [] h e = refl
take_none (suc n) (c ∷ l) h e = absurd cc

list_file-Reads : Reads list_file Same
list_file-Reads = record {
  read = λ n s l h e. (
    take n s,
    drop n s,
    drop n s,
    refl,
    sym e ∙ (take_part n s).0,
    refl,
    (take_part n s).1,
    λ z. sym e ∙ take_none n s h z,
  );
}

list_file-Writes : Writes list_file Same
list_file-Writes = record { write = λ a s l e. (s ++ a, refl, ap (λ t. t ++ a) e) }

abbrev two_lines : Bytes
two_lines = b'h' ∷ b'i' ∷ b'\n' ∷ b'y' ∷ []

opened-Ready : Ready Same (fs_open two_lines) two_lines
unfolding fs_open buffer_init
opened-Ready = record {
  queue = [];
  rest = two_lines;
  holds = record { slots = refl; fits = omega arith };
  left = refl;
  all = refl;
  room = omega arith;
}

fs_get_line-first_line_example :
    (st' : Stream Bytes) × (fs_get_line list_file 64 (fs_open two_lines) ≡ (
      (if (first_line 64 two_lines).1 == 0 then none else some (first_line 64 two_lines).0),
      st',
    ))
    × Ready Same st' (first_line 64 two_lines).2
fs_get_line-first_line_example =
    fs_get_line-first_line list_file Same list_file-Reads 64 two_lines (fs_open two_lines)
      opened-Ready

opened-Sent : Sent Same (fs_open []) []
unfolding fs_open buffer_init
opened-Sent = record {
  done = [];
  queue = [];
  has = refl;
  holds = record { slots = refl; fits = omega arith };
  start = refl;
  all = refl;
  room = omega arith;
}

-- "x%d" of 7.
abbrev pieces : List Piece
pieces = lit b'x' ∷ conv none b'd' (int (pos 7)) ∷ []

pieces-Renders : Renders pieces (b'x' ∷ b'7' ∷ [])
unfolding convert push_digits
pieces-Renders =
    literal b'x' _ _ (λ e. absurd (omega arith))
      (converted none b'd' (int (pos 7)) (b'7' ∷ []) [] [] tt refl refl (omega arith) nothing)

fs_printf-Sent_example :
    (st' : Stream Bytes) × (fs_printf list_file
        (λ k. 0)
        (spelled pieces)
        (args_of pieces)
        (fs_open [])
      ≡ some (2, st'))
    × Sent Same st' (b'x' ∷ b'7' ∷ [])
fs_printf-Sent_example =
    fs_printf-Sent list_file Same list_file-Writes (λ k. 0) pieces (b'x' ∷ b'7' ∷ []) (fs_open [])
      [] pieces-Renders (omega arith) (refl, (refl, tt)) (omega arith) opened-Sent
