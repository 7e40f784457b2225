-- ===== src/Uudecode/Line.antt =====
-- `uudecode_line`: the bytes of one line.
pub mod RoundTrip
use trn.Base.{
  ℕ, zero, suc, ◌+◌, ◌*◌, ◌/◌, ◌%◌, bit_or, Bool, ◌||◌, Option, none, some, [], ◌∷◌, Bytes, ◌==◌,
  if◌then◌else◌, get_elem?,
}

-- The macro DEC: the low six bits of the byte less 32. The subtraction wraps modulo 64.
abbrev pub dec : ℕ → ℕ
dec c = (c + 32) % 64

-- The lambda `char_at`: a space behind the end, and for NUL and newline.
unfoldable pub char_at : Bytes → ℕ → ℕ
char_at line index = elim (get_elem? line index) [
  | none ↦ b' '
  | some c ↦ if c == 0 || c == 10 then b' ' else c
]

-- The bytes that `putc` writes for a group of four characters.
unfoldable pub first_byte : Bytes → ℕ → ℕ
first_byte line index =
    bit_or (dec (char_at line index) * 4) (dec (char_at line (index + 1)) / 16) % 256

unfoldable pub second_byte : Bytes → ℕ → ℕ
second_byte line index =
    bit_or (dec (char_at line (index + 1)) * 16) (dec (char_at line (index + 2)) / 4) % 256

unfoldable pub third_byte : Bytes → ℕ → ℕ
third_byte line index =
    bit_or (dec (char_at line (index + 2)) * 64) (dec (char_at line (index + 3))) % 256

-- The loop over `len`.
unfoldable pub groups_loop : ℕ → Bytes → ℕ → Bytes
groups_loop zero line index = []
groups_loop (suc zero) line index = first_byte line index ∷ []
groups_loop (suc (suc zero)) line index = first_byte line index ∷ second_byte line index ∷ []
groups_loop (suc (suc (suc len))) line index =
    first_byte line index
    ∷ second_byte line index
    ∷ third_byte line index
    ∷ groups_loop len line (index + 4)

unfoldable pub uudecode_line : Bytes → Bytes
uudecode_line [] = []
uudecode_line (c ∷ s) = groups_loop (dec c) (c ∷ s) 1
