-- ===== src/Klib/Format/Tests.antt =====
-- The formatted output at small formats.
use nju_os_lab.Prelude.{ℕ, ◌≡◌, refl, some, List, [], ◌∷◌, arith, pos, negsuc}
use nju_os_lab.Klib.Strings.{Bytes}
use nju_os_lab.Klib.Format.{int, text, convert, push_digits, vsnprintf}
use nju_os_lab.Klib.Format.Digits.{atoi-convert}
use nju_os_lab.Klib.Format.Pieces.{
  Piece, lit, conv, Renders, nothing, literal, converted, spelled, args_of,
}
use nju_os_lab.Klib.Format.Written.{Spells, vsnprintf-Renders}
use nju_os_lab.Klib.Format.Overflow.{vsnprintf_overflow}
use nju_os_lab.Numbers.{atoi}

atoi-convert_example :
    (s : Bytes) × (convert b'd' (int (negsuc 41)) ≡ some s) × (atoi s ≡ some (pos 0, negsuc 41))
atoi-convert_example = atoi-convert (negsuc 41) (omega arith)

-- "x=%04d" of 42.
abbrev pieces : List Piece
pieces = lit b'x' ∷ lit b'=' ∷ conv (some (4 ∷ [])) b'd' (int (pos 42)) ∷ []

abbrev printed : Bytes
printed = b'x' ∷ b'=' ∷ b'0' ∷ b'0' ∷ b'4' ∷ b'2' ∷ []

pieces-Renders : Renders pieces printed
unfolding convert push_digits
pieces-Renders =
    literal b'x' _ _ (λ e. absurd (omega arith))
      (literal b'=' _ _ (λ e. absurd (omega arith))
        (converted (some (4 ∷ [])) b'd' (int (pos 42)) (b'4' ∷ b'2' ∷ []) [] [] (omega arith, tt)
          refl refl (omega arith) nothing))

vsnprintf-Renders_example :
    (m : ℕ → ℕ) × (vsnprintf (λ k. 1) 10 (spelled pieces) (args_of pieces) ≡ some (6, m))
    × Spells m 0 printed
    × (m 7 ≡ 1)
vsnprintf-Renders_example =
    vsnprintf-Renders (λ k. 1) 10 7 pieces printed pieces-Renders (omega arith) (omega arith)
      (omega arith)

vsnprintf_overflow_example :
    (m : ℕ → ℕ) × (vsnprintf
        (λ k. 1)
        2
        (b'%' ∷ b's' ∷ b'!' ∷ b'?' ∷ [])
        (text (b'a' ∷ b'b' ∷ b'c' ∷ []) ∷ [])
      ≡ some (4, m))
    × (m 2 ≡ b'?')
vsnprintf_overflow_example =
    vsnprintf_overflow (λ k. 1) 2 b'!' b'?' (b'a' ∷ b'b' ∷ b'c' ∷ []) (omega arith) (omega arith)
      (omega arith) (omega arith) (λ e. absurd (omega arith)) (λ e. absurd (omega arith))
