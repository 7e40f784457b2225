-- ===== src/Yenc.antt =====
-- libtrn/yenc.cpp: the lines of a yEnc part and the numbers in them. Child modules: the checksum,
-- the header line, and the decoding of a part.
pub mod Crc
pub mod Header
pub mod Decode
use trn.Base.{
  ℕ, zero, suc, ◌+◌, ◌-◌, ◌*◌, ◌^◌, Bool, true, false, not, ◌&&◌, ◌||◌, Option, none, some, List,
  [], ◌∷◌, ◌++◌, Bytes, ltb, leb, ◌==◌, if◌then◌else◌, equal, length, take, drop, reverse, codes,
  ◌>>=◌, ◌>>◌, guard,
}
use trn.Base.Int.{ℤ, pos, sub_ℕ}
use trn.Text.{front_is, remove_one, skip_while, find_if, find, is_digit}

-- `strip_line_end`: one newline, then one carriage return, off the end.
abbrev pub drop_back : ℕ → Bytes → Bytes
drop_back c [] = []
drop_back c (d ∷ s) = if d == c then s else d ∷ s

unfoldable pub strip_line_end : Bytes → Bytes
strip_line_end line = reverse (drop_back 13 (drop_back 10 (reverse line)))

-- `next_line`: the first line, stripped, and the text behind it.
unfoldable pub next_line : Bytes → Bytes × Bytes
next_line text = elim (find 10 text) [
  | none ↦ (strip_line_end text, [])
  | some end ↦ (strip_line_end (take end text), drop (suc end) text)
]

abbrev pub Fields : Type 0
Fields = List (Bytes × Bytes)

unfoldable pub field : Fields → Bytes → Option Bytes
field [] name = none
field ((k, v) ∷ fields) name = if equal k name then some v else field fields name

abbrev pub is_blank : ℕ → Bool
is_blank c = c == b' ' || c == 9

abbrev pub is_some {ℓ} : {A : Type ℓ} → Option A → Bool
is_some none = false
is_some (some a) = true

-- The value of the name field: the rest of the line without the blanks around it.
unfoldable pub filename_value : Bytes → Option Bytes
filename_value value = do
  let trimmed = skip_while is_blank value
  guard (ltb 0 (length trimmed))
  some (reverse (skip_while is_blank (reverse trimmed)))

abbrev pub up_to : Option ℕ → Bytes → Bytes
up_to none s = s
up_to (some n) s = take n s

abbrev pub from : Option ℕ → Bytes → Bytes
from none s = []
from (some n) s = drop n s

-- The loop of `parse_fields`; each round drops a byte at least.
unfoldable pub fields_loop : ℕ → Bool → Fields → Bytes → Option Fields
fields_loop zero has_filename fields s = none
fields_loop (suc f) has_filename fields s =
    let text = skip_while is_blank s in
    let end = find_if is_blank text in
    let token = up_to end text in
    let step = (do
      equal_at ← find b'=' token
      let name = take equal_at token
      guard (ltb 0 equal_at && not (is_some (field fields name)))
      let filename =
          (filename_value (drop (suc equal_at) text) >>= λ v. some (fields ++ ((name, v) ∷ [])))
      let more =
          fields_loop f has_filename (fields ++ ((name, drop (suc equal_at) token) ∷ []))
            (from end text)
      (if has_filename && equal name (codes "name") then filename else more)) in
    if ltb 0 (length text) then step else some fields

unfoldable pub parse_fields : Bytes → Bool → Option Fields
parse_fields text has_filename = fields_loop (suc (length text)) has_filename [] text

-- The digit that a byte stands for, in a base up to 16.
abbrev pub digit_value : ℕ → ℕ
digit_value c =
    if is_digit c
    then c - b'0'
    else if leb b'a' c && leb c b'f'
    then c - 87
    else if leb b'A' c && leb c b'F'
    then c - 55
    else 16

-- `std::from_chars` over the whole text: every byte is a digit, and the value is at most `m`.
unfoldable pub whole_number : ℕ → ℕ → ℕ → Bytes → Option ℕ
whole_number base m acc [] = if leb acc m then some acc else none
whole_number base m acc (c ∷ s) =
    let more = whole_number base m (acc * base + digit_value c) s in
    if ltb (digit_value c) base then more else none

-- `number<T>` for an unsigned type with the largest value `m`.
unfoldable pub number : ℕ → ℕ → Fields → Bytes → Option ℕ
number base m fields name = do
  value ← field fields name
  guard (ltb 0 (length value))
  whole_number base m 0 value

abbrev pub u64_max : ℕ
u64_max = 2 ^ 64 - 1

abbrev pub u32_max : ℕ
u32_max = 2 ^ 32 - 1

-- `number<int>`: a minus sign is allowed.
unfoldable pub number_int : Fields → Bytes → Option ℤ
number_int fields name = do
  value ← field fields name
  let digits = if front_is (λ c. c == b'-') value then remove_one value else value
  guard (ltb 0 (length digits))
  let negative = (whole_number 10 (2 ^ 31) 0 digits >>= λ n. some (sub_ℕ 0 n))
  let positive = (whole_number 10 (2 ^ 31 - 1) 0 digits >>= λ n. some (pos n))
  if front_is (λ c. c == b'-') value then negative else positive
