-- ===== src/Utf/Scalar.antt =====
-- The UTF-8 operations of libtrn/utf.cpp that depend on no character set: encoding, decoding and
-- width of a scalar value. A CodePoint is an unsigned long of 64 bits.
pub mod RoundTrip
pub mod Canonical
use trn.Base.{
  ℕ, zero, suc, ◌+◌, ◌*◌, ◌/◌, ◌-◌, ◌^◌, bit_and, bit_or, Bool, true, false, not, ◌&&◌, ◌||◌,
  Option, none, some, [], ◌∷◌, ◌++◌, Bytes, ltb, leb, ◌==◌, if◌then◌else◌, length, take, drop,
}

-- `static_cast<CodePoint>(~0L)`
abbrev pub invalid_code_point : ℕ
invalid_code_point = 2 ^ 64 - 1

-- `(c >> bits & 0x3F) | 0x80`
abbrev pub tail_byte : ℕ → ℕ
tail_byte c = bit_or (bit_and c 63) 128

-- `utf8_text`: up to six bytes; nothing for a number of more than 31 bits.
unfoldable pub utf8_text : ℕ → Bytes
utf8_text c =
    if leb c 0x7F
    then c ∷ []
    else if leb c 0x7FF
    then bit_or (bit_and (c / 64) 31) 192 ∷ tail_byte c ∷ []
    else if leb c 0xFFFF
    then bit_or (bit_and (c / 64 / 64) 31) 224 ∷ tail_byte (c / 64) ∷ tail_byte c ∷ []
    else if leb c 0x1FFFFF
    then bit_or (bit_and (c / 64 / 64 / 64) 31) 240
      ∷ tail_byte (c / 64 / 64)
      ∷ tail_byte (c / 64)
      ∷ tail_byte c
      ∷ []
    else if leb c 0x3FFFFFF
    then bit_or (bit_and (c / 64 / 64 / 64 / 64) 31) 248
      ∷ tail_byte (c / 64 / 64 / 64)
      ∷ tail_byte (c / 64 / 64)
      ∷ tail_byte (c / 64)
      ∷ tail_byte c
      ∷ []
    else if leb c 0x7FFFFFFF
    then bit_or (bit_and (c / 64 / 64 / 64 / 64 / 64) 31) 252
      ∷ tail_byte (c / 64 / 64 / 64 / 64)
      ∷ tail_byte (c / 64 / 64 / 64)
      ∷ tail_byte (c / 64 / 64)
      ∷ tail_byte (c / 64)
      ∷ tail_byte c
      ∷ []
    else []

abbrev pub is_unicode_scalar : ℕ → Bool
is_unicode_scalar c = leb c 0x10FFFF && not (leb 0xD800 c && leb c 0xDFFF)

pub record Utf8Scalar : Type 0 where
  pub code_point : ℕ
  pub byte_count : ℕ

-- `{INVALID_CODE_POINT, 1}`
abbrev pub malformed : Utf8Scalar
malformed = record { code_point = invalid_code_point; byte_count = 1 }

-- The loop over the further bytes, of which the text has enough; `none` is its early return.
unfoldable pub decode_tail : ℕ → ℕ → Bytes → Option ℕ
decode_tail zero c text = some c
decode_tail (suc n) c [] = none
decode_tail (suc n) c (b ∷ text) =
    let more = decode_tail n (bit_or (c * 64) (bit_and b 63)) text in
    if bit_and b 192 == 128 then more else none

-- What the first byte says: its bits of the scalar, the least scalar of the width, and the width.
unfoldable pub first_bits : ℕ → Option (ℕ × ℕ × ℕ)
first_bits b =
    if leb 0xC2 b && leb b 0xDF
    then some (bit_and b 31, 0x80, 2)
    else if leb 0xE0 b && leb b 0xEF
    then some (bit_and b 15, 0x800, 3)
    else if leb 0xF0 b && leb b 0xF4
    then some (bit_and b 7, 0x10000, 4)
    else none

-- The checks at the end of `decode_utf8_scalar`.
unfoldable pub checked_scalar : ℕ → ℕ → Option ℕ → Utf8Scalar
checked_scalar minimum width none = malformed
checked_scalar minimum width (some c) =
    if ltb c minimum || not (is_unicode_scalar c)
    then malformed
    else record { code_point = c; byte_count = width }

unfoldable pub decode_utf8_scalar : Bytes → Utf8Scalar
decode_utf8_scalar [] = record { code_point = invalid_code_point; byte_count = 0 }
decode_utf8_scalar (b ∷ text) =
    let wide : Utf8Scalar = elim (first_bits b) [
      | none ↦ malformed
      | some (c, minimum, width) ↦
          if ltb (suc (length text)) width
          then malformed
          else checked_scalar minimum width (decode_tail (width - 1) c text)
    ] in
    if ltb b 0x80 then record { code_point = b; byte_count = 1 } else wide

unfoldable pub encode_utf8_scalar : ℕ → Bytes
encode_utf8_scalar c = if is_unicode_scalar c then utf8_text c else []

abbrev pub between : ℕ → ℕ → ℕ → Bool
between c lo hi = leb lo c && leb c hi

-- "only a rough generalization": combining and zero-width characters, and wide ones.
unfoldable pub scalar_visual_width : ℕ → ℕ
scalar_visual_width c =
    if c == invalid_code_point
    then 0
    else if between c 0x300 0x36F
        || (between c 0x1AB0 0x1AFF
            || (between c 0x1DC0 0x1DFF
                || (between c 0x200B 0x200F
                    || (between c 0x202A 0x202E || between c 0x2060 0x2064))))
    then 0
    else if between c 0x2E80 0x4DBF
        || (between c 0x4E00 0x9FFF
            || (between c 0xFE30 0xFE4F
                || (between c 0xFF00 0xFF60
                    || (between c 0xFFE0 0xFFE6 || between c 0x20000 0x2FA1F))))
    then 2
    else 1

abbrev pub replaced : ℕ → ℕ
replaced c = if c == invalid_code_point then 0xFFFD else c

unfoldable pub utf8_visual_width_at : Bytes → ℕ
utf8_visual_width_at [] = 0
utf8_visual_width_at (b ∷ text) =
    scalar_visual_width (replaced (decode_utf8_scalar (b ∷ text)).code_point)

-- The loop of `utf8_visual_length`; each round drops a byte at least.
unfoldable pub visual_length_loop : ℕ → ℕ → Bytes → ℕ
visual_length_loop zero width text = width
visual_length_loop (suc f) width [] = width
visual_length_loop (suc f) width (b ∷ text) =
    visual_length_loop f (width + utf8_visual_width_at (b ∷ text))
      (drop (decode_utf8_scalar (b ∷ text)).byte_count (b ∷ text))

unfoldable pub utf8_visual_length : Bytes → ℕ
utf8_visual_length text = visual_length_loop (length text) 0 text

-- `put_utf8_char_adv`: what is written, the width, and the rest of the text.
unfoldable pub put_utf8_char_adv : Bytes → Bool → Bytes × ℕ × Bytes
put_utf8_char_adv [] output_ok = ([], 0, [])
put_utf8_char_adv (b ∷ text) output_ok =
    let decoded = decode_utf8_scalar (b ∷ text) in
    let bytes = take decoded.byte_count (b ∷ text) in
    let output =
      if decoded.code_point == invalid_code_point then encode_utf8_scalar 0xFFFD else bytes in
    (
      if output_ok then output else [],
      utf8_visual_width_at (b ∷ text),
      drop decoded.byte_count (b ∷ text),
    )
