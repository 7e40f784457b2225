-- ===== src/Yenc/Decode/RoundTrip.antt =====
-- Encoding of a data line, and `decode_line` for libtrn/yenc.cpp.
use trn.Base.{
  append-nil, append_assoc, ℕ, ◌+◌, ◌-◌, ◌%◌, ◌≤◌, ◌<◌, true, false, ◌||◌, ◌≡◌, refl, ap, sym, ◌∙◌,
  some, [], ◌∷◌, ◌++◌, Bytes, ltb, ◌==◌, if◌then◌else◌, length, length-append, Bool-cases, or_true,
  or_false, inl, inr, All, arith,
}
use trn.Yenc.Decode.{decode_line, is_critical}

-- The encoder's side of yEnc, which trn does not have: 42 is added to a byte, and a critical result
-- is written as an equals sign and the result plus 64.
unfoldable pub encode_byte : ℕ → Bytes
encode_byte b =
    let c = (b + 42) % 256 in
    if is_critical c || c == b'=' then b'=' ∷ (c + 64) % 256 ∷ [] else c ∷ []

unfoldable pub encode : Bytes → Bytes
encode [] = []
encode (b ∷ s) = encode_byte b ++ encode s

unshift : (b : ℕ) → b < 256 → ((b + 42) % 256 + 256 - 42) % 256 ≡ b
unshift b small = omega arith

unshift_escaped : (c : ℕ) → c < 256 → ((c + 64) % 256 + 256 - 64) % 256 ≡ c
unshift_escaped c small = omega arith

escaped-not_critical :
    (c : ℕ) → is_critical c || c == b'=' ≡ true → is_critical ((c + 64) % 256) ≡ false
escaped-not_critical c critical = elim (or_true (is_critical c) critical) [
  | inr e ↦ let same : c ≡ b'=' = ground arith in rw same refl
  | inl e ↦ elim (or_true (c == 0) e) [
    | inl e1 ↦ let same : c ≡ 0 = ground arith in rw same refl
    | inr e1 ↦ elim (or_true (c == 13) e1) [
      | inl e2 ↦ let same : c ≡ 13 = ground arith in rw same refl
      | inr e2 ↦ let same : c ≡ 10 = ground arith in rw same refl
    ]
  ]
]

decode_line-escaped :
    (expected : ℕ) (decoded : Bytes) (c : ℕ) (rest : Bytes)
    → ltb (length decoded) expected ≡ true
    → is_critical c ≡ false
    → decode_line expected decoded (b'=' ∷ c ∷ rest)
      ≡ decode_line expected (decoded ++ (((c + 256 - 64) % 256 + 256 - 42) % 256 ∷ [])) rest
unfolding decode_line
decode_line-escaped expected decoded c rest room fine = rw (fine, room) refl

decode_line-plain :
    (expected : ℕ) (decoded : Bytes) (c : ℕ) (rest : Bytes)
    → ltb (length decoded) expected ≡ true
    → is_critical c ≡ false
    → (c == b'=') ≡ false
    → decode_line expected decoded (c ∷ rest)
      ≡ decode_line expected (decoded ++ ((c + 256 - 42) % 256 ∷ [])) rest
unfolding decode_line
decode_line-plain expected decoded c [] room fine other = rw (fine, other, room) refl
decode_line-plain expected decoded c (d ∷ s) room fine other = rw (fine, other, room) refl

decode_line-encode_byte :
    (expected : ℕ) (decoded : Bytes) (b : ℕ) (rest : Bytes)
    → b < 256
    → length decoded < expected
    → decode_line expected decoded (encode_byte b ++ rest)
      ≡ decode_line expected (decoded ++ (b ∷ [])) rest
unfolding encode_byte
decode_line-encode_byte expected decoded b rest small less =
    let c = (b + 42) % 256 in
    let room : ltb (length decoded) expected ≡ true = ground arith in
    let back = unshift b small in
    elim (Bool-cases (is_critical c || c == b'=')) [
      | inl critical ↦
          let fine = escaped-not_critical c critical in
          let step = decode_line-escaped expected decoded ((c + 64) % 256) rest room fine in
          rw critical (step ∙ rw (unshift_escaped c (omega arith), back) refl)
      | inr plain ↦
          let (fine, other) = or_false (is_critical c) plain in
          let step = decode_line-plain expected decoded c rest room fine other in
          rw plain (step ∙ rw back refl)
    ]

decode_line-nil : (expected : ℕ) (decoded : Bytes) → decode_line expected decoded [] ≡ some decoded
unfolding decode_line
decode_line-nil expected decoded = refl

-- A data line decodes to the bytes it was encoded from, behind those already there, if each is
-- below 256 and there is room for them.
pub decode_line-encode :
    (expected : ℕ) (decoded s : Bytes)
    → All (λ b. b < 256) s
    → length decoded + length s ≤ expected
    → decode_line expected decoded (encode s) ≡ some (decoded ++ s)
unfolding encode
decode_line-encode expected decoded [] smalls room =
    decode_line-nil expected decoded ∙ ap some (sym (append-nil decoded))
decode_line-encode expected decoded (b ∷ s) smalls room =
    let head = decode_line-encode_byte expected decoded b (encode s) smalls.0 (omega arith) in
    let later =
      decode_line-encode expected (decoded ++ (b ∷ [])) s smalls.1
        (omega (arith, length-append {0} decoded (b ∷ []))) in
    head ∙ later ∙ ap some (append_assoc decoded (b ∷ []) s)
