-- ===== src/Mime/Quoted/RoundTrip.antt =====
-- Quoting, and the decoders of quoted printable text of libtrn/mime.cpp.
use trn.Base.{
  ℕ, ◌+◌, ◌*◌, ◌/◌, ◌%◌, ◌<◌, Bool, true, false, ◌&&◌, ◌||◌, [], ◌∷◌, Bytes, All, ltb, ◌==◌,
  if◌then◌else◌, ◌≡◌, refl, ap, ◌∙◌, arith, Bool-cases, inl, inr,
}
use trn.Base.Bits.{agree}
use trn.Mime.Quoted.{index_hex, is_hex, put_escape, qp_decode_string, QpState, qp_decode}

abbrev pub hex_digit : ℕ → ℕ
hex_digit v = if ltb v 10 then v + b'0' else v + 55

-- An encoder may quote any byte, and must quote an equals sign, a NUL and an underscore.
unfoldable pub qp_encode : (ℕ → Bool) → Bytes → Bytes
qp_encode quotes [] = []
qp_encode quotes (c ∷ s) =
    let rest = qp_encode quotes s in
    if quotes c then b'=' ∷ hex_digit (c / 16) ∷ hex_digit (c % 16) ∷ rest else c ∷ rest

abbrev pub IsQuoting : (ℕ → Bool) → Type 0
IsQuoting quotes = (c : ℕ) → quotes c ≡ false → (c == 0 || (c == b'=' || c == b'_')) ≡ false

-- A byte that is not a carriage return, which either decoder drops.
abbrev pub IsKept : ℕ → Type 0
IsKept c = (c < 256) × ((c == 13) ≡ false)

index_hex-digit : (v : ℕ) → v < 16 → index_hex (hex_digit v) ≡ v
index_hex-digit = agree 16 (λ v. index_hex (hex_digit v)) (λ v. v) refl

hex_digit-newline : (v : ℕ) → v < 16 → (hex_digit v == 10) ≡ false
hex_digit-newline v h = ground arith

put_escape-digits :
    (c : ℕ) (rest : Bytes)
    → IsKept c
    → put_escape (hex_digit (c / 16)) (hex_digit (c % 16)) rest ≡ c ∷ rest
put_escape-digits c rest (small, kept) =
    let hi = index_hex-digit (c / 16) (omega arith) in
    let lo = index_hex-digit (c % 16) (omega arith) in
    let whole : c / 16 * 16 + c % 16 ≡ c = omega arith in rw (hi, lo, whole, kept) refl

is_hex-digit : (v : ℕ) → v < 16 → is_hex (hex_digit v) ≡ true
is_hex-digit v h = let same = index_hex-digit v h in ground arith

-- Bytes other than a carriage return, quoted in any way that quotes the equals sign, NUL and
-- underscore, come back from the file decoder.
pub qp_decode-qp_encode :
    (quotes : ℕ → Bool) (s : Bytes)
    → IsQuoting quotes
    → All IsKept s
    → qp_decode QpState.qp_text (qp_encode quotes s) ≡ s
unfolding qp_decode qp_encode
qp_decode-qp_encode quotes [] q kept = refl
qp_decode-qp_encode quotes (c ∷ s) q (here, kept) = elim (Bool-cases (quotes c)) [
  | inl quoted ↦
      let first = is_hex-digit (c / 16) (omega arith) in
      let second = is_hex-digit (c % 16) (omega arith) in
      let line = hex_digit-newline (c / 16) (omega arith) in
      rw (quoted, line, first, second)
        (put_escape-digits c (qp_decode QpState.qp_text (qp_encode quotes s)) here
          ∙ ap (λ t. c ∷ t) (qp_decode-qp_encode quotes s q kept))
  | inr plain ↦
      let safe = q c plain in
      let other : (c == b'=') ≡ false = ground arith in
      rw (plain, other) (ap (λ t. c ∷ t) (qp_decode-qp_encode quotes s q kept))
]

-- A byte that begins no escape stands for itself in a text.
pub qp_decode_string-plain :
    (in_header : Bool) (c : ℕ) (f : Bytes)
    → (c == 0) ≡ false
    → (c == b'=') ≡ false
    → qp_decode_string in_header (c ∷ f)
      ≡ (if c == b'_' && in_header then b' ' else c) ∷ qp_decode_string in_header f
unfolding qp_decode_string
qp_decode_string-plain in_header c [] nul eq = rw nul refl
qp_decode_string-plain in_header c (d ∷ []) nul eq = rw (nul, eq) refl
qp_decode_string-plain in_header c (d ∷ e ∷ f) nul eq = rw (nul, eq) refl

-- Bytes other than the carriage return come back from the decoder of texts, in a header or not, where
-- each that is quoted stands as "=" and two digits, and at least the NUL, "=" and "_" are quoted.
pub qp_decode_string-qp_encode :
    (quotes : ℕ → Bool) (in_header : Bool) (s : Bytes)
    → IsQuoting quotes
    → All IsKept s
    → qp_decode_string in_header (qp_encode quotes s) ≡ s
unfolding qp_decode_string qp_encode
qp_decode_string-qp_encode quotes in_header [] q kept = refl
qp_decode_string-qp_encode quotes in_header (c ∷ s) q (here, kept) =
    let later = qp_decode_string-qp_encode quotes in_header s q kept in
    elim (Bool-cases (quotes c)) [
      | inl quoted ↦
          let first = is_hex-digit (c / 16) (omega arith) in
          let second = is_hex-digit (c % 16) (omega arith) in
          let line = hex_digit-newline (c / 16) (omega arith) in
          rw (quoted, line, first, second)
            (put_escape-digits c (qp_decode_string in_header (qp_encode quotes s)) here
              ∙ ap (λ t. c ∷ t) later)
      | inr plain ↦
          let safe = q c plain in
          let nul : (c == 0) ≡ false = ground arith in
          let equals : (c == b'=') ≡ false = ground arith in
          let low : (c == b'_') ≡ false = ground arith in
          rw plain (
            qp_decode_string-plain in_header c (qp_encode quotes s) nul equals
            ∙ rw (low, later) refl)
    ]
