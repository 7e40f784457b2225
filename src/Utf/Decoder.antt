-- ===== src/Utf/Decoder.antt =====
-- CharsetDecoder of libtrn/utf.cpp: the conversion of a text of any character set to UTF-8.
use trn.Base.{
  ℕ, zero, suc, ◌-◌, ◌≤◌, ◌<◌, true, not, ◌&&◌, ◌||◌, [], ◌∷◌, ◌++◌, List, Bytes, leb, ◌==◌,
  if◌then◌else◌, if_both, length-drop, length, drop, All, ◌≡◌, refl, ap, ◌∙◌, inl, inr, arith,
  Bool-cases, Option, none, some, Option-cases, ltb,
}
use trn.Base.Bits.{below_lem}
use trn.Utf.Charset.{
  CharsetType, find_charset, same_charset, himap_at, iso8859_15_himap, cp1252_himap,
}
use trn.Utf.Scalar.{
  invalid_code_point, is_unicode_scalar, Utf8Scalar, decode_utf8_scalar, encode_utf8_scalar,
  replaced, first_bits, checked_scalar,
}
use trn.Utf.Scalar.RoundTrip.{decode_utf8_scalar-encode_utf8_scalar}
use trn.Utf.Scalar.Canonical.{decode_utf8_scalar-IsRead}

-- `m_charset`, the one member, that the constructor sets.
abbrev pub charset : Bytes → CharsetType
charset = find_charset

abbrev pub one_byte : ℕ → Utf8Scalar
one_byte c = record { code_point = c; byte_count = 1 }

-- One round of `decode`: the scalar and the bytes it takes, of a text that begins with a byte.
unfoldable pub decode_one : CharsetType → ℕ → Bytes → Utf8Scalar
decode_one set b text =
    if same_charset set CharsetType.utf8 || same_charset set CharsetType.unknown
    then decode_utf8_scalar (b ∷ text)
    else if same_charset set CharsetType.ascii && leb 0x80 b
    then one_byte invalid_code_point
    else if same_charset set CharsetType.iso8859_15 && (leb 0xA0 b && not (b == 0xAD))
    then one_byte (himap_at iso8859_15_himap (b - 0x80))
    else if same_charset set CharsetType.windows_1252 && leb 0x80 b
    then one_byte (himap_at cp1252_himap (b - 0x80))
    else one_byte b

-- The loop of `decode`; each round drops a byte at least.
unfoldable pub decode_loop : ℕ → CharsetType → Bytes → Bytes
decode_loop zero set text = []
decode_loop (suc f) set [] = []
decode_loop (suc f) set (b ∷ text) =
    let decoded = decode_one set b text in
    encode_utf8_scalar (replaced decoded.code_point)
    ++ decode_loop f set (drop decoded.byte_count (b ∷ text))

unfoldable pub decode : CharsetType → Bytes → Bytes
decode set text = decode_loop (length text) set text

-- The UTF-8 text of a list of scalars.
unfoldable pub utf8_of : List ℕ → Bytes
utf8_of [] = []
utf8_of (c ∷ cs) = encode_utf8_scalar c ++ utf8_of cs

abbrev pub IsScalar : ℕ → Type 0
IsScalar c = is_unicode_scalar c ≡ true

-- Each round takes a byte at least.
checked_scalar-positive : (m w : ℕ) (o : Option ℕ) → 1 ≤ w → 1 ≤ (checked_scalar m w o).byte_count
unfolding checked_scalar
checked_scalar-positive m w none h = omega arith
checked_scalar-positive m w (some c) h = elim (Bool-cases (ltb c m || not (is_unicode_scalar c))) [
  | inl refused ↦ rw refused (omega arith)
  | inr fine ↦ rw fine h
]

first_bits-width : (b x m w : ℕ) → first_bits b ≡ some (x, m, w) → 1 ≤ w
unfolding first_bits
first_bits-width b x m w e = ground arith

pub decode_utf8_scalar-positive :
    (b : ℕ) (text : Bytes) → 1 ≤ (decode_utf8_scalar (b ∷ text)).byte_count
unfolding decode_utf8_scalar
decode_utf8_scalar-positive b text = elim (Bool-cases (ltb b 0x80)) [
  | inl ascii ↦ rw ascii (omega arith)
  | inr wide ↦ elim (Option-cases (first_bits b)) [
    | inl refused ↦ rw (wide, refused) (omega arith)
    | inr ((x, m, w), first) ↦ elim (Bool-cases (ltb (suc (length text)) w)) [
      | inl short ↦ rw (wide, first, short) (omega arith)
      | inr fits ↦
          rw (wide, first, fits) (checked_scalar-positive m w _ (first_bits-width b x m w first))
    ]
  ]
]

-- What holds of every way a round may go.
module _ {κ} (P : Utf8Scalar → Type κ) (b : ℕ) (text : Bytes) where
  decode_one-cases :
      P (decode_utf8_scalar (b ∷ text))
      → P (one_byte invalid_code_point)
      → P (one_byte (himap_at iso8859_15_himap (b - 0x80)))
      → P (one_byte (himap_at cp1252_himap (b - 0x80)))
      → P (one_byte b)
      → (set : CharsetType) → P (decode_one set b text)
  unfolding decode_one
  decode_one-cases u i l w o CharsetType.utf8 = u
  decode_one-cases u i l w o CharsetType.unknown = u
  decode_one-cases u i l w o CharsetType.ascii = if_both P (leb 0x80 b) i o
  decode_one-cases u i l w o CharsetType.iso8859_1 = o
  decode_one-cases u i l w o CharsetType.iso8859_15 = if_both P (leb 0xA0 b && not (b == 0xAD)) l o
  decode_one-cases u i l w o CharsetType.windows_1252 = if_both P (leb 0x80 b) w o

decode_one-positive :
    (set : CharsetType) (b : ℕ) (text : Bytes) → 1 ≤ (decode_one set b text).byte_count
decode_one-positive set b text =
    let one : 1 ≤ 1 = omega arith in
    decode_one-cases (λ r. 1 ≤ r.byte_count) b text (decode_utf8_scalar-positive b text) one one one
      one set

-- Fuel beyond the length of the text changes nothing.
decode_loop-enough :
    (f g : ℕ) (set : CharsetType) (text : Bytes)
    → length text ≤ f
    → length text ≤ g
    → decode_loop f set text ≡ decode_loop g set text
unfolding decode_loop
decode_loop-enough zero zero set text p q = refl
decode_loop-enough zero (suc g) set [] p q = refl
decode_loop-enough zero (suc g) set (b ∷ text) p q = absurd (omega arith)
decode_loop-enough (suc f) zero set [] p q = refl
decode_loop-enough (suc f) zero set (b ∷ text) p q = absurd (omega arith)
decode_loop-enough (suc f) (suc g) set [] p q = refl
decode_loop-enough (suc f) (suc g) set (b ∷ text) p q =
    let shorter = length-drop (decode_one set b text).byte_count (b ∷ text) in
    let positive = decode_one-positive set b text in
    rw
      (decode_loop-enough f g set (drop (decode_one set b text).byte_count (b ∷ text)) (omega arith)
        (omega arith))
      refl

-- `decode` is the loop of the source: a text that is not empty gives the encoding of its first
-- scalar, U+FFFD for an invalid one, and what the rest of the text gives.
pub decode_lem :
    (set : CharsetType) (b : ℕ) (text : Bytes)
    → decode set (b ∷ text)
      ≡ encode_utf8_scalar (replaced (decode_one set b text).code_point)
        ++ decode set (drop (decode_one set b text).byte_count (b ∷ text))
unfolding decode decode_loop
decode_lem set b text =
    let decoded = decode_one set b text in
    let shorter = length-drop decoded.byte_count (b ∷ text) in
    let positive = decode_one-positive set b text in
    ap (λ t. encode_utf8_scalar (replaced decoded.code_point) ++ t)
      (decode_loop-enough (length text) (length (drop decoded.byte_count (b ∷ text))) set
        (drop decoded.byte_count (b ∷ text)) (omega arith) (omega arith))

drop-append : (s rest : Bytes) → drop (length s) (s ++ rest) ≡ rest
drop-append [] rest = refl
drop-append (b ∷ s) rest = drop-append s rest

scalar-IsSmall : (c : ℕ) → IsScalar c → replaced c ≡ c
scalar-IsSmall c valid = ground arith

first_scalar :
    (s : Bytes) (c : ℕ) (rest : Bytes)
    → IsScalar c
    → decode_utf8_scalar (s ++ rest) ≡ record { code_point = c; byte_count = length s }
    → decode CharsetType.utf8 (s ++ rest) ≡ encode_utf8_scalar c ++ decode CharsetType.utf8 rest
unfolding decode_one decode_utf8_scalar decode decode_loop
first_scalar [] c [] valid e = absurd (ground arith)
first_scalar [] c (b ∷ rest) valid e =
    let positive : 1 ≤ (decode_utf8_scalar (b ∷ rest)).byte_count =
      decode_utf8_scalar-positive b rest in
    absurd (ground arith)
first_scalar (b ∷ s) c rest valid e =
    decode_lem CharsetType.utf8 b (s ++ rest)
    ∙ rw (e, scalar-IsSmall c valid, drop-append s rest) refl

-- UTF-8 text of any list of Unicode scalars comes back from `decode` unchanged.
pub decode-utf8_of :
    (cs : List ℕ) → All IsScalar cs → decode CharsetType.utf8 (utf8_of cs) ≡ utf8_of cs
unfolding utf8_of decode decode_loop
decode-utf8_of [] valid = refl
decode-utf8_of (c ∷ cs) (here, valid) =
    first_scalar (encode_utf8_scalar c) c (utf8_of cs) here
      (decode_utf8_scalar-encode_utf8_scalar c (utf8_of cs) here)
    ∙ ap (λ t. encode_utf8_scalar c ++ t) (decode-utf8_of cs valid)

latin9-IsScalar : (b : ℕ) → b < 256 → IsScalar (replaced (himap_at iso8859_15_himap (b - 128)))
unfolding iso8859_15_himap
latin9-IsScalar b h =
    below_lem 128 (λ i. is_unicode_scalar (replaced (himap_at iso8859_15_himap i))) refl (b - 128)
      (omega arith)

cp1252-IsScalar : (b : ℕ) → b < 256 → IsScalar (replaced (himap_at cp1252_himap (b - 128)))
unfolding cp1252_himap
cp1252-IsScalar b h =
    below_lem 128 (λ i. is_unicode_scalar (replaced (himap_at cp1252_himap i))) refl (b - 128)
      (omega arith)

shown_utf8 :
    (text : Bytes)
    → All (λ d. d < 256) text
    → IsScalar (replaced (decode_utf8_scalar text).code_point)
shown_utf8 text small =
    elim (Bool-cases ((decode_utf8_scalar text).code_point == invalid_code_point)) [
      | inl bad ↦ rw bad refl
      | inr good ↦ rw good (decode_utf8_scalar-IsRead text small (λ e. ground arith)).0
    ]

decode_one-IsScalar :
    (set : CharsetType) (b : ℕ) (text : Bytes)
    → All (λ d. d < 256) (b ∷ text)
    → IsScalar (replaced (decode_one set b text).code_point)
decode_one-IsScalar set b text (hb, small) =
    decode_one-cases (λ r. IsScalar (replaced r.code_point)) b text
      (shown_utf8 (b ∷ text) (hb, small)) refl (latin9-IsScalar b hb) (cp1252-IsScalar b hb)
      (ground arith) set

drop-small : (n : ℕ) (text : Bytes) → All (λ d. d < 256) text → All (λ d. d < 256) (drop n text)
drop-small zero text small = small
drop-small (suc n) [] small = small
drop-small (suc n) (b ∷ text) (hb, small) = drop-small n text small

decode_loop-valid :
    (f : ℕ) (set : CharsetType) (text : Bytes)
    → All (λ d. d < 256) text
    → (cs : List ℕ) × All IsScalar cs × (decode_loop f set text ≡ utf8_of cs)
unfolding decode_loop utf8_of
decode_loop-valid zero set text small = ([], tt, refl)
decode_loop-valid (suc f) set [] small = ([], tt, refl)
decode_loop-valid (suc f) set (b ∷ text) small =
    let decoded = decode_one set b text in
    let (cs, valid, same) =
      decode_loop-valid f set (drop decoded.byte_count (b ∷ text))
        (drop-small decoded.byte_count (b ∷ text) small) in
    (
      replaced decoded.code_point ∷ cs,
      (decode_one-IsScalar set b text small, valid),
      ap (λ t. encode_utf8_scalar (replaced decoded.code_point) ++ t) same,
    )

-- Whatever the bytes and the character set, what `decode` returns is UTF-8: the text of a list of
-- Unicode scalars.
pub decode-valid :
    (set : CharsetType) (text : Bytes)
    → All (λ d. d < 256) text
    → (cs : List ℕ) × All IsScalar cs × (decode set text ≡ utf8_of cs)
unfolding decode
decode-valid set text small = decode_loop-valid (length text) set text small

-- To decode as UTF-8 what `decode` returned from bytes of any character set changes nothing.
pub decode-decode :
    (set : CharsetType) (text : Bytes)
    → All (λ d. d < 256) text
    → decode CharsetType.utf8 (decode set text) ≡ decode set text
decode-decode set text small =
    let (cs, valid, same) = decode-valid set text small in rw same (decode-utf8_of cs valid)
