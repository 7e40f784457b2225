-- ===== src/Utf/Scalar/RoundTrip.antt =====
-- The scalar of what is encoded, for libtrn/utf.cpp.
use trn.Base.Bits.{
  or_shift6, and_31, and_63, or_128, or_192, or_224, or_240, and_192, and_15, and_7,
}
use trn.Base.{
  ℕ, suc, ◌+◌, ◌*◌, ◌/◌, ◌%◌, ◌-◌, ◌≤◌, ◌<◌, bit_and, bit_or, true, false, some, ◌∷◌, ◌++◌, Bytes,
  ltb, leb, length, ◌≡◌, refl, ◌∙◌, ap, Bool-cases, inl, inr, arith,
}
use trn.Utf.Scalar.{
  tail_byte, utf8_text, is_unicode_scalar, Utf8Scalar, decode_tail, first_bits, checked_scalar,
  decode_utf8_scalar, encode_utf8_scalar,
}

pub tail_byte_lem : (d : ℕ) → tail_byte d ≡ d % 64 + 128
tail_byte_lem d = rw (and_63 d) (or_128 (d % 64) (omega arith))

decode_tail_step :
    (n x d : ℕ) (text : Bytes)
    → decode_tail (suc n) x (tail_byte d ∷ text) ≡ decode_tail n (x * 64 + d % 64) text
unfolding decode_tail
decode_tail_step n x d text =
    let top : bit_and (d % 64 + 128) 192 ≡ 128 =
      and_192 (d % 64 + 128) (omega arith) ∙ omega arith in
    let low : bit_and (d % 64 + 128) 63 ≡ d % 64 = and_63 (d % 64 + 128) ∙ omega arith in
    rw (tail_byte_lem d, top, low, or_shift6 x (d % 64) (omega arith)) refl

first_bits_two : (y : ℕ) → 2 ≤ y → y < 32 → first_bits (bit_or y 192) ≡ some (y, 0x80, 2)
unfolding first_bits
first_bits_two y lo hi =
    let low : bit_and (y + 192) 31 ≡ y = and_31 (y + 192) ∙ omega arith in
    rw (or_192 y hi, low) (ground arith)

first_bits_three : (y : ℕ) → y < 16 → first_bits (bit_or y 224) ≡ some (y, 0x800, 3)
unfolding first_bits
first_bits_three y hi =
    let low : bit_and (y + 224) 15 ≡ y = and_15 (y + 224) (omega arith) ∙ omega arith in
    rw (or_224 y hi, low) (ground arith)

first_bits_four : (y : ℕ) → y < 5 → first_bits (bit_or y 240) ≡ some (y, 0x10000, 4)
unfolding first_bits
first_bits_four y hi =
    let low : bit_and (y + 240) 7 ≡ y = and_7 (y + 240) (omega arith) ∙ omega arith in
    rw (or_240 y (omega arith), low) (ground arith)

abbrev scalar : ℕ → ℕ → Utf8Scalar
scalar c n = record { code_point = c; byte_count = n }

wide_scalar :
    (b x m w : ℕ) (text : Bytes) (c : ℕ)
    → 128 ≤ b
    → first_bits b ≡ some (x, m, w)
    → w ≤ suc (length text)
    → decode_tail (w - 1) x text ≡ some c
    → m ≤ c
    → is_unicode_scalar c ≡ true
    → decode_utf8_scalar (b ∷ text) ≡ scalar c w
unfolding decode_utf8_scalar checked_scalar
wide_scalar b x m w text c wide first room tail least valid =
    let test : ltb b 128 ≡ false = ground arith in
    let fits : ltb (suc (length text)) w ≡ false = ground arith in
    let above : ltb c m ≡ false = ground arith in rw (test, first, fits, tail, above, valid) refl

module _ (c : ℕ) (rest : Bytes) (valid : is_unicode_scalar c ≡ true) where
  one_byte : c < 0x80 → decode_utf8_scalar (c ∷ rest) ≡ scalar c 1
  unfolding decode_utf8_scalar
  one_byte h = let test : ltb c 128 ≡ true = ground arith in rw test refl

  two_bytes :
      0x80 ≤ c
      → c < 0x800
      → decode_utf8_scalar (bit_or (bit_and (c / 64) 31) 192 ∷ tail_byte c ∷ rest) ≡ scalar c 2
  unfolding decode_tail
  two_bytes lo hi =
      let lead : bit_and (c / 64) 31 ≡ c / 64 = and_31 (c / 64) ∙ omega arith in
      let whole : c / 64 * 64 + c % 64 ≡ c = omega arith in
      rw lead (
        wide_scalar (bit_or (c / 64) 192) (c / 64) 0x80 2 (tail_byte c ∷ rest) c
          (omega (arith, or_192 (c / 64) (omega arith)))
          (first_bits_two (c / 64) (omega arith) (omega arith)) (omega arith)
          (decode_tail_step 0 (c / 64) c rest ∙ ap some whole) lo valid)

  three_bytes :
      0x800 ≤ c
      → c < 0x10000
      → decode_utf8_scalar
          (bit_or (bit_and (c / 64 / 64) 31) 224 ∷ tail_byte (c / 64) ∷ tail_byte c ∷ rest)
        ≡ scalar c 3
  unfolding decode_tail
  three_bytes lo hi =
      let lead : bit_and (c / 64 / 64) 31 ≡ c / 64 / 64 = and_31 (c / 64 / 64) ∙ omega arith in
      let whole : (c / 64 / 64 * 64 + c / 64 % 64) * 64 + c % 64 ≡ c = omega arith in
      rw lead (
        wide_scalar (bit_or (c / 64 / 64) 224) (c / 64 / 64) 0x800 3
          (tail_byte (c / 64) ∷ tail_byte c ∷ rest) c
          (omega (arith, or_224 (c / 64 / 64) (omega arith)))
          (first_bits_three (c / 64 / 64) (omega arith)) (omega arith)
          (decode_tail_step 1 (c / 64 / 64) (c / 64) (tail_byte c ∷ rest)
            ∙ decode_tail_step 0 (c / 64 / 64 * 64 + c / 64 % 64) c rest
            ∙ ap some whole)
          lo valid)

  four_bytes :
      0x10000 ≤ c
      → c < 0x110000
      → decode_utf8_scalar (
          bit_or (bit_and (c / 64 / 64 / 64) 31) 240
          ∷ tail_byte (c / 64 / 64)
          ∷ tail_byte (c / 64)
          ∷ tail_byte c
          ∷ rest)
        ≡ scalar c 4
  unfolding decode_tail
  four_bytes lo hi =
      let x = c / 64 / 64 / 64 in
      let lead : bit_and x 31 ≡ x = and_31 x ∙ omega arith in
      let whole : ((x * 64 + c / 64 / 64 % 64) * 64 + c / 64 % 64) * 64 + c % 64 ≡ c =
        omega arith in
      rw lead (
        wide_scalar (bit_or x 240) x 0x10000 4
          (tail_byte (c / 64 / 64) ∷ tail_byte (c / 64) ∷ tail_byte c ∷ rest) c
          (omega (arith, or_240 x (omega arith))) (first_bits_four x (omega arith)) (omega arith)
          (decode_tail_step 2 x (c / 64 / 64) (tail_byte (c / 64) ∷ tail_byte c ∷ rest)
            ∙ decode_tail_step 1 (x * 64 + c / 64 / 64 % 64) (c / 64) (tail_byte c ∷ rest)
            ∙ decode_tail_step 0 ((x * 64 + c / 64 / 64 % 64) * 64 + c / 64 % 64) c rest
            ∙ ap some whole)
          lo valid)

-- A scalar value that is encoded, whatever follows, decodes to itself, with the width of its text.
pub decode_utf8_scalar-encode_utf8_scalar :
    (c : ℕ) (rest : Bytes)
    → is_unicode_scalar c ≡ true
    → decode_utf8_scalar (encode_utf8_scalar c ++ rest)
      ≡ record { code_point = c; byte_count = length (encode_utf8_scalar c) }
unfolding encode_utf8_scalar utf8_text
decode_utf8_scalar-encode_utf8_scalar c rest valid =
    let top : c < 0x110000 = ground arith in
    elim (Bool-cases (leb c 0x7F)) [
      | inl one ↦ rw (valid, one) (one_byte c rest valid (ground arith))
      | inr more ↦ elim (Bool-cases (leb c 0x7FF)) [
        | inl two ↦ rw (valid, more, two) (two_bytes c rest valid (ground arith) (ground arith))
        | inr more2 ↦ elim (Bool-cases (leb c 0xFFFF)) [
          | inl three ↦
              rw (valid, more, more2, three)
                (three_bytes c rest valid (ground arith) (ground arith))
          | inr more3 ↦
              let four : leb c 0x1FFFFF ≡ true = ground arith in
              rw (valid, more, more2, more3, four)
                (four_bytes c rest valid (ground arith) (ground arith))
        ]
      ]
    ]
