-- ===== src/Mime/Quoted/Streams.antt =====
-- The decoder of files against the decoder of texts, both of libtrn/mime.cpp.
use trn.Base.{
  ℕ, ◌*◌, ◌+◌, true, false, [], ◌∷◌, ◌++◌, Bytes, All, ◌==◌, if◌then◌else◌, ◌≡◌, refl, sym, ap, ◌∙◌,
  arith, Bool-cases, inl, inr,
}
use trn.Mime.Quoted.{index_hex, is_hex, put_escape, qp_decode_string, QpState, qp_decode}
use trn.Mime.Quoted.RoundTrip.{qp_decode_string-plain}

-- Where the file decoder stands at the end of a file.
abbrev pub last_state : QpState → Bytes → QpState
last_state state [] = state
last_state QpState.qp_text (c ∷ s) =
    let escape = last_state QpState.qp_equals s in
    let plain = last_state QpState.qp_text s in if c == b'=' then escape else plain
last_state QpState.qp_equals (c ∷ s) =
    let text = last_state QpState.qp_text s in
    let again = last_state QpState.qp_equals s in
    let digit = last_state (QpState.qp_digit c) s in
    if c == 10 then text else if is_hex c then digit else if c == b'=' then again else text
last_state (QpState.qp_digit d) (c ∷ s) =
    let text = last_state QpState.qp_text s in
    let again = last_state QpState.qp_equals s in
    if is_hex c then text else if c == b'=' then again else text

-- The byte that EOF leaves.
abbrev pub eof_byte : QpState → Bytes
eof_byte QpState.qp_text = []
eof_byte QpState.qp_equals = 255 ∷ []
eof_byte (QpState.qp_digit c) = 255 ∷ []

abbrev pub IsNotNul : ℕ → Type 0
IsNotNul c = (c == 0) ≡ false

-- The text that the file decoder holds back in a state.
abbrev held : QpState → Bytes → Bytes
held QpState.qp_text s = s
held QpState.qp_equals s = b'=' ∷ s
held (QpState.qp_digit c) s = b'=' ∷ c ∷ s

abbrev IsHeld : QpState → Type 0
IsHeld QpState.qp_text = Unit
IsHeld QpState.qp_equals = Unit
IsHeld (QpState.qp_digit c) = is_hex c ≡ true

-- What the text decoder does outside of a header.
plain_byte :
    (c : ℕ) (f : Bytes)
    → (c == 0) ≡ false
    → (c == b'=') ≡ false
    → qp_decode_string false (c ∷ f) ≡ c ∷ qp_decode_string false f
plain_byte c f nul equals = qp_decode_string-plain false c f nul equals ∙ ground arith

soft_line : (f : Bytes) → qp_decode_string false (b'=' ∷ 10 ∷ f) ≡ qp_decode_string false f
unfolding qp_decode_string
soft_line [] = refl
soft_line (e ∷ f) = refl

no_digit :
    (d : ℕ) (f : Bytes)
    → (d == 10) ≡ false
    → is_hex d ≡ false
    → qp_decode_string false (b'=' ∷ d ∷ f) ≡ b'=' ∷ qp_decode_string false (d ∷ f)
unfolding qp_decode_string
no_digit d [] line hex = rw line refl
no_digit d (e ∷ f) line hex = rw (line, hex) refl

one_digit :
    (d e : ℕ) (f : Bytes)
    → is_hex d ≡ true
    → is_hex e ≡ false
    → qp_decode_string false (b'=' ∷ d ∷ e ∷ f) ≡ b'=' ∷ d ∷ qp_decode_string false (e ∷ f)
unfolding qp_decode_string
one_digit d e f hex other =
    let line : (d == 10) ≡ false = ground arith in
    let nul : (d == 0) ≡ false = ground arith in
    let equals : (d == b'=') ≡ false = ground arith in
    let rest = plain_byte d (e ∷ f) nul equals in rw (line, hex, other) (ap (λ t. b'=' ∷ t) rest)

two_digits :
    (d e : ℕ) (f : Bytes)
    → is_hex d ≡ true
    → is_hex e ≡ true
    → qp_decode_string false (b'=' ∷ d ∷ e ∷ f) ≡ put_escape d e (qp_decode_string false f)
unfolding qp_decode_string
two_digits d e f hex other =
    let line : (d == 10) ≡ false = ground arith in rw (line, hex, other) refl

put_escape-append : (d e : ℕ) (a b : Bytes) → put_escape d e (a ++ b) ≡ put_escape d e a ++ b
put_escape-append d e a b = elim (Bool-cases (index_hex d * 16 + index_hex e == 13)) [
  | inl dropped ↦ rw dropped refl
  | inr kept ↦ rw kept refl
]

last_digit : (d : ℕ) → is_hex d ≡ true → qp_decode_string false (b'=' ∷ d ∷ []) ≡ b'=' ∷ d ∷ []
unfolding qp_decode_string
last_digit d hex =
    let line : (d == 10) ≡ false = ground arith in
    let nul : (d == 0) ≡ false = ground arith in rw (line, nul) (ground arith)

-- An equals sign under another name.
renamed :
    (c : ℕ) (s : Bytes)
    → (c == b'=') ≡ true
    → qp_decode QpState.qp_equals s
      ≡ qp_decode_string false (b'=' ∷ s) ++ eof_byte (last_state QpState.qp_equals s)
    → qp_decode QpState.qp_equals s
      ≡ qp_decode_string false (c ∷ s) ++ eof_byte (last_state QpState.qp_equals s)
renamed c s equals e =
    let same : b'=' ≡ c = ground arith in
    e ∙ ap (λ x. qp_decode_string false (x ∷ s) ++ eof_byte (last_state QpState.qp_equals s)) same

text_end : qp_decode_string false [] ≡ []
unfolding qp_decode_string
text_end = refl

equals_end : qp_decode_string false (b'=' ∷ []) ≡ b'=' ∷ []
unfolding qp_decode_string
equals_end = refl

qp_decode_from :
    (state : QpState) (s : Bytes)
    → IsHeld state
    → All IsNotNul s
    → qp_decode state s ≡ qp_decode_string false (held state s) ++ eof_byte (last_state state s)
unfolding qp_decode
qp_decode_from QpState.qp_text [] h clean = rw text_end refl
qp_decode_from QpState.qp_equals [] h clean = rw equals_end refl
qp_decode_from (QpState.qp_digit d) [] hex clean = rw (last_digit d hex) refl
qp_decode_from QpState.qp_text (c ∷ s) h (here, clean) = elim (Bool-cases (c == b'=')) [
  | inl equals ↦ rw equals (renamed c s equals (qp_decode_from QpState.qp_equals s tt clean))
  | inr other ↦
      rw (other, plain_byte c s here other)
        (ap (λ t. c ∷ t) (qp_decode_from QpState.qp_text s tt clean))
]
qp_decode_from QpState.qp_equals (c ∷ s) h (here, clean) = elim (Bool-cases (c == 10)) [
  | inl line ↦
      let same : 10 ≡ c = ground arith in
      let next : qp_decode_string false s ≡ qp_decode_string false (b'=' ∷ c ∷ s) =
        sym (soft_line s) ∙ ap (λ x. qp_decode_string false (b'=' ∷ x ∷ s)) same in
      rw line (
        qp_decode_from QpState.qp_text s tt clean
        ∙ ap (λ t. t ++ eof_byte (last_state QpState.qp_text s)) next)
  | inr more ↦ elim (Bool-cases (is_hex c)) [
    | inl hex ↦ rw (more, hex) (qp_decode_from (QpState.qp_digit c) s hex clean)
    | inr other ↦ elim (Bool-cases (c == b'=')) [
      | inl equals ↦
          rw (more, other, equals, no_digit c s more other)
            (ap (λ t. b'=' ∷ t) (renamed c s equals (qp_decode_from QpState.qp_equals s tt clean)))
      | inr plain ↦
          rw (more, other, plain, no_digit c s more other, plain_byte c s here plain)
            (ap (λ t. b'=' ∷ c ∷ t) (qp_decode_from QpState.qp_text s tt clean))
    ]
  ]
]
qp_decode_from (QpState.qp_digit d) (c ∷ s) hex (here, clean) = elim (Bool-cases (is_hex c)) [
  | inl both ↦
      rw (both, two_digits d c s hex both)
        (ap (put_escape d c) (qp_decode_from QpState.qp_text s tt clean)
          ∙ put_escape-append d c (qp_decode_string false s)
              (eof_byte (last_state QpState.qp_text s)))
  | inr other ↦ elim (Bool-cases (c == b'=')) [
    | inl equals ↦
        rw (other, equals, one_digit d c s hex other)
          (ap (λ t. b'=' ∷ d ∷ t)
            (renamed c s equals (qp_decode_from QpState.qp_equals s tt clean)))
    | inr plain ↦
        rw (other, plain, one_digit d c s hex other, plain_byte c s here plain)
          (ap (λ t. b'=' ∷ d ∷ c ∷ t) (qp_decode_from QpState.qp_text s tt clean))
  ]
]

-- On bytes without a NUL the decoder of files writes what the decoder of texts returns outside of a
-- header, and behind it a byte 255 where the file ends within an escape: behind an equals sign, or
-- behind one and a single digit.
pub qp_decode_lem :
    (s : Bytes)
    → All IsNotNul s
    → qp_decode QpState.qp_text s
      ≡ qp_decode_string false s ++ eof_byte (last_state QpState.qp_text s)
qp_decode_lem s clean = qp_decode_from QpState.qp_text s tt clean
