-- ===== src/Utf/Scalar/Canonical.antt =====
-- The text of what is decoded, for libtrn/utf.cpp.
use trn.Base.Bits.{and_31, and_63, or_192, or_224, or_240, and_192, and_15, and_7}
use trn.Base.{
  ℕ, suc, ◌+◌, ◌*◌, ◌/◌, ◌%◌, ◌-◌, ◌≤◌, ◌<◌, bit_and, bit_or, true, false, not, ◌&&◌, ◌||◌, Option,
  none, some, [], ◌∷◌, Bytes, ltb, leb, ◌==◌, length, take, All, ◌≡◌, ◌≢◌, ◌⊎◌, refl, sym, ◌∙◌,
  Bool-cases, Option-cases, inl, inr, arith,
}
use trn.Base.Bits.{or_shift6}
use mathlib.Core.Option.{none-ne-some, some-injective}
use trn.Utf.Scalar.RoundTrip.{tail_byte_lem}
use trn.Utf.Scalar.{
  invalid_code_point, tail_byte, utf8_text, is_unicode_scalar, Utf8Scalar, decode_tail, first_bits,
  checked_scalar, decode_utf8_scalar, encode_utf8_scalar,
}

-- A further byte has the top bits 10, and gives its low bits.
decode_tail_inv :
    (n x b : ℕ) (text : Bytes) {c : ℕ}
    → b < 256
    → decode_tail (suc n) x (b ∷ text) ≡ some c
    → (128 ≤ b) × (b < 192) × (decode_tail n (x * 64 + b % 64) text ≡ some c)
unfolding decode_tail
decode_tail_inv n x b text {c} small e = elim (Bool-cases (bit_and b 192 == 128)) [
  | inr other ↦ absurd (ground arith)
  | inl marked ↦
      let top : b / 64 * 64 ≡ 128 = sym (and_192 b small) ∙ ground arith in
      let next : decode_tail n (bit_or (x * 64) (bit_and b 63)) text ≡ some c = ground arith in
      let low : bit_or (x * 64) (bit_and b 63) ≡ x * 64 + b % 64 =
        rw (and_63 b) (or_shift6 x (b % 64) (omega arith)) in
      (omega arith, omega arith, rw low at next)
]

-- A first byte, with its bits and the least scalar of its width.
first_bits_inv :
    (b x m w : ℕ)
    → first_bits b ≡ some (x, m, w)
    → ((b ≡ x + 192) × (2 ≤ x) × (x < 32) × (m ≡ 0x80) × (w ≡ 2))
      ⊎ (((b ≡ x + 224) × (x < 16) × (m ≡ 0x800) × (w ≡ 3))
          ⊎ ((b ≡ x + 240) × (x < 5) × (m ≡ 0x10000) × (w ≡ 4)))
unfolding first_bits
first_bits_inv b x m w e = elim (Bool-cases (leb 0xC2 b && leb b 0xDF)) [
  | inl two ↦
      let same : ◌≡◌ {A = Option (ℕ × ℕ × ℕ)} (some (bit_and b 31, 0x80, 2)) (some (x, m, w)) =
        rw (two, first_bits) at e in
      let low = and_31 b in
      inl (ground arith, ground arith, ground arith, ground arith, ground arith)
  | inr more ↦ elim (Bool-cases (leb 0xE0 b && leb b 0xEF)) [
    | inl three ↦
        let same : ◌≡◌ {A = Option (ℕ × ℕ × ℕ)} (some (bit_and b 15, 0x800, 3)) (some (x, m, w)) =
          rw (more, three, first_bits) at e in
        let low = and_15 b (ground arith) in
        inr (inl (ground arith, ground arith, ground arith, ground arith))
    | inr more2 ↦ elim (Bool-cases (leb 0xF0 b && leb b 0xF4)) [
      | inl four ↦
          let same : ◌≡◌ {A = Option (ℕ × ℕ × ℕ)} (some (bit_and b 7, 0x10000, 4))
              (some (x, m, w)) =
            rw (more, more2, four, first_bits) at e in
          let low = and_7 b (ground arith) in
          inr (inr (ground arith, ground arith, ground arith, ground arith))
      | inr other ↦ absurd (none-ne-some _ (rw (more, more2, other, first_bits) at e))
    ]
  ]
]

checked_scalar_inv :
    (m w : ℕ) (o : Option ℕ)
    → (checked_scalar m w o).code_point ≢ invalid_code_point
    → (c : ℕ) × (o ≡ some c)
      × (m ≤ c)
      × (is_unicode_scalar c ≡ true)
      × (checked_scalar m w o ≡ record { code_point = c; byte_count = w })
unfolding checked_scalar
checked_scalar_inv m w none ne = absurd (ne refl)
checked_scalar_inv m w (some c) ne = elim (Bool-cases (ltb c m || not (is_unicode_scalar c))) [
  | inl refused ↦ absurd (ne (rw refused refl))
  | inr fine ↦ (c, refl, ground arith, ground arith, rw fine refl)
]

tail_byte_of : (c b x : ℕ) → 128 ≤ b → b < 192 → c ≡ x * 64 + b % 64 → tail_byte c ≡ b
tail_byte_of c b x lo hi e = tail_byte_lem c ∙ omega arith

-- The text of a scalar of each width, from the bytes that were read.
encode_two :
    (b x b1 c : ℕ)
    → is_unicode_scalar c ≡ true
    → b ≡ x + 192
    → x < 32
    → 0x80 ≤ c
    → 128 ≤ b1
    → b1 < 192
    → c ≡ x * 64 + b1 % 64
    → encode_utf8_scalar c ≡ b ∷ b1 ∷ []
unfolding encode_utf8_scalar utf8_text
encode_two b x b1 c valid eb hx least lo hi e =
    let t1 : leb c 0x7F ≡ false = ground arith in
    let t2 : leb c 0x7FF ≡ true = ground arith in
    let lead : bit_and (c / 64) 31 ≡ x = and_31 (c / 64) ∙ omega arith in
    rw (valid, t1, t2, lead, or_192 x hx, tail_byte_of c b1 x lo hi e, eb) refl

encode_three :
    (b x b1 b2 c : ℕ)
    → is_unicode_scalar c ≡ true
    → b ≡ x + 224
    → x < 16
    → 0x800 ≤ c
    → 128 ≤ b1
    → b1 < 192
    → 128 ≤ b2
    → b2 < 192
    → c ≡ (x * 64 + b1 % 64) * 64 + b2 % 64
    → encode_utf8_scalar c ≡ b ∷ b1 ∷ b2 ∷ []
unfolding encode_utf8_scalar utf8_text
encode_three b x b1 b2 c valid eb hx least lo1 hi1 lo2 hi2 e =
    let t1 : leb c 0x7F ≡ false = ground arith in
    let t2 : leb c 0x7FF ≡ false = ground arith in
    let t3 : leb c 0xFFFF ≡ true = ground arith in
    let lead : bit_and (c / 64 / 64) 31 ≡ x = and_31 (c / 64 / 64) ∙ omega arith in
    rw
      (
        valid,
        t1,
        t2,
        t3,
        lead,
        or_224 x hx,
        tail_byte_of (c / 64) b1 x lo1 hi1 (omega arith),
        tail_byte_of c b2 (x * 64 + b1 % 64) lo2 hi2 e,
        eb,
      )
      refl

encode_four :
    (b x b1 b2 b3 c : ℕ)
    → is_unicode_scalar c ≡ true
    → b ≡ x + 240
    → x < 5
    → 0x10000 ≤ c
    → 128 ≤ b1
    → b1 < 192
    → 128 ≤ b2
    → b2 < 192
    → 128 ≤ b3
    → b3 < 192
    → c ≡ ((x * 64 + b1 % 64) * 64 + b2 % 64) * 64 + b3 % 64
    → encode_utf8_scalar c ≡ b ∷ b1 ∷ b2 ∷ b3 ∷ []
unfolding encode_utf8_scalar utf8_text
encode_four b x b1 b2 b3 c valid eb hx least lo1 hi1 lo2 hi2 lo3 hi3 e =
    let t1 : leb c 0x7F ≡ false = ground arith in
    let t2 : leb c 0x7FF ≡ false = ground arith in
    let t3 : leb c 0xFFFF ≡ false = ground arith in
    let t4 : leb c 0x1FFFFF ≡ true = ground arith in
    let lead : bit_and (c / 64 / 64 / 64) 31 ≡ x = and_31 (c / 64 / 64 / 64) ∙ omega arith in
    rw
      (
        valid,
        t1,
        t2,
        t3,
        t4,
        lead,
        or_240 x (omega arith),
        tail_byte_of (c / 64 / 64) b1 x lo1 hi1 (omega arith),
        tail_byte_of (c / 64) b2 (x * 64 + b1 % 64) lo2 hi2 (omega arith),
        tail_byte_of c b3 ((x * 64 + b1 % 64) * 64 + b2 % 64) lo3 hi3 e,
        eb,
      )
      refl

-- The bytes behind the first one.
module _ (b x c : ℕ) (valid : is_unicode_scalar c ≡ true) where
  IsRead-two :
      (text : Bytes)
      → All (λ d. d < 256) text
      → b ≡ x + 192
      → x < 32
      → 0x80 ≤ c
      → decode_tail 1 x text ≡ some c
      → encode_utf8_scalar c ≡ take 2 (b ∷ text)
  unfolding decode_tail
  IsRead-two [] small eb hx least e = absurd (none-ne-some _ e)
  IsRead-two (b1 ∷ text) small eb hx least e =
      let (lo, hi, e1) = decode_tail_inv 0 x b1 text small.0 e in
      encode_two b x b1 c valid eb hx least lo hi (sym (some-injective _ _ e1))

  IsRead-three :
      (text : Bytes)
      → All (λ d. d < 256) text
      → b ≡ x + 224
      → x < 16
      → 0x800 ≤ c
      → decode_tail 2 x text ≡ some c
      → encode_utf8_scalar c ≡ take 3 (b ∷ text)
  unfolding decode_tail
  IsRead-three [] small eb hx least e = absurd (none-ne-some _ e)
  IsRead-three (b1 ∷ []) small eb hx least e =
      let (_, _, e1) = decode_tail_inv 1 x b1 [] small.0 e in absurd (none-ne-some _ e1)
  IsRead-three (b1 ∷ b2 ∷ text) small eb hx least e =
      let (lo1, hi1, e1) = decode_tail_inv 1 x b1 (b2 ∷ text) small.0 e in
      let (lo2, hi2, e2) = decode_tail_inv 0 (x * 64 + b1 % 64) b2 text small.1.0 e1 in
      encode_three b x b1 b2 c valid eb hx least lo1 hi1 lo2 hi2 (sym (some-injective _ _ e2))

  IsRead-four :
      (text : Bytes)
      → All (λ d. d < 256) text
      → b ≡ x + 240
      → x < 5
      → 0x10000 ≤ c
      → decode_tail 3 x text ≡ some c
      → encode_utf8_scalar c ≡ take 4 (b ∷ text)
  unfolding decode_tail
  IsRead-four [] small eb hx least e = absurd (none-ne-some _ e)
  IsRead-four (b1 ∷ []) small eb hx least e =
      let (_, _, e1) = decode_tail_inv 2 x b1 [] small.0 e in absurd (none-ne-some _ e1)
  IsRead-four (b1 ∷ b2 ∷ []) small eb hx least e =
      let (_, _, e1) = decode_tail_inv 2 x b1 (b2 ∷ []) small.0 e in
      let (_, _, e2) = decode_tail_inv 1 (x * 64 + b1 % 64) b2 [] small.1.0 e1 in
      absurd (none-ne-some _ e2)
  IsRead-four (b1 ∷ b2 ∷ b3 ∷ text) small eb hx least e =
      let (lo1, hi1, e1) = decode_tail_inv 2 x b1 (b2 ∷ b3 ∷ text) small.0 e in
      let (lo2, hi2, e2) = decode_tail_inv 1 (x * 64 + b1 % 64) b2 (b3 ∷ text) small.1.0 e1 in
      let (lo3, hi3, e3) =
        decode_tail_inv 0 ((x * 64 + b1 % 64) * 64 + b2 % 64) b3 text small.1.1.0 e2 in
      encode_four b x b1 b2 b3 c valid eb hx least lo1 hi1 lo2 hi2 lo3 hi3
        (sym (some-injective _ _ e3))

-- The first bytes of a text that decode: a scalar, and the bytes that encode it.
abbrev pub IsRead : Bytes → Utf8Scalar → Type 0
IsRead text r =
    (is_unicode_scalar r.code_point ≡ true)
    × (encode_utf8_scalar r.code_point ≡ take r.byte_count text)

IsRead-one :
    (b : ℕ) (text : Bytes) → b < 128 → IsRead (b ∷ text) (record { code_point = b; byte_count = 1 })
unfolding encode_utf8_scalar utf8_text
IsRead-one b text h =
    let valid : is_unicode_scalar b ≡ true = ground arith in
    let one : leb b 0x7F ≡ true = ground arith in (valid, rw (valid, one) refl)

IsRead-wide :
    (b x m w : ℕ) (text : Bytes)
    → All (λ d. d < 256) text
    → first_bits b ≡ some (x, m, w)
    → (checked_scalar m w (decode_tail (w - 1) x text)).code_point ≢ invalid_code_point
    → IsRead (b ∷ text) (checked_scalar m w (decode_tail (w - 1) x text))
IsRead-wide b x m w text small first ne =
    let (c, e, least, valid, same) = checked_scalar_inv m w (decode_tail (w - 1) x text) ne in
    rw same (
      valid,
      elim (first_bits_inv b x m w first) [
        | inl (eb, _, hx, em, ew) ↦
            rw ew (IsRead-two b x c valid text small eb hx (omega arith) (rw ew at e))
        | inr (inl (eb, hx, em, ew)) ↦
            rw ew (IsRead-three b x c valid text small eb hx (omega arith) (rw ew at e))
        | inr (inr (eb, hx, em, ew)) ↦
            rw ew (IsRead-four b x c valid text small eb hx (omega arith) (rw ew at e))
      ],
    )

-- If the front of a text of bytes decodes, then to a scalar value, and the bytes taken are those
-- that encode it: there is no longer text for it, and no surrogate is let through.
pub decode_utf8_scalar-IsRead :
    (text : Bytes)
    → All (λ d. d < 256) text
    → (decode_utf8_scalar text).code_point ≢ invalid_code_point
    → IsRead text (decode_utf8_scalar text)
unfolding decode_utf8_scalar
decode_utf8_scalar-IsRead [] small ne = absurd (ne refl)
decode_utf8_scalar-IsRead (b ∷ text) small ne = elim (Bool-cases (ltb b 0x80)) [
  | inl ascii ↦ rw ascii (IsRead-one b text (ground arith))
  | inr wide ↦ elim (Option-cases (first_bits b)) [
    | inl refused ↦ absurd (ne (rw (wide, refused) refl))
    | inr ((x, m, w), first) ↦ elim (Bool-cases (ltb (suc (length text)) w)) [
      | inl short ↦ absurd (ne (rw (wide, first, short) refl))
      | inr fits ↦
          rw (wide, first, fits)
            (IsRead-wide b x m w text small.1 first (λ e. ne (rw (wide, first, fits) e)))
    ]
  ]
]
