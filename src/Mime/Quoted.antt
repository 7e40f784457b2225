-- ===== src/Mime/Quoted.antt =====
-- Quoted printable: `qp_decode_string` and the loop of `qp_decode` in libtrn/mime.cpp.
pub mod RoundTrip
pub mod Streams
use trn.Base.{
  ℕ, zero, suc, ◌+◌, ◌-◌, ◌*◌, Bool, true, false, not, ◌&&◌, ◌||◌, [], ◌∷◌, Bytes, leb, ◌==◌,
  if◌then◌else◌,
}

-- `XX`, and `s_index_hex`.
abbrev pub xx : ℕ
xx = 255

abbrev pub index_hex : ℕ → ℕ
index_hex c =
    if leb b'0' c && leb c b'9'
    then c - b'0'
    else if leb b'A' c && leb c b'F'
    then c - b'A' + 10
    else if leb b'a' c && leb c b'f'
    then c - b'a' + 10
    else xx

abbrev pub is_hex : ℕ → Bool
is_hex c = not (index_hex c == xx)

-- The byte of an escape, unless it is a carriage return.
abbrev pub put_escape : ℕ → ℕ → Bytes → Bytes
put_escape c d rest =
    if index_hex c * 16 + index_hex d == 13 then rest else (index_hex c * 16 + index_hex d) ∷ rest

-- The text ends at a NUL. An underscore is a space in a header.
unfoldable pub qp_decode_string : Bool → Bytes → Bytes
qp_decode_string in_header [] = []
qp_decode_string in_header (c ∷ []) =
    if c == 0 then [] else (if c == b'_' && in_header then b' ' else c) ∷ []
qp_decode_string in_header (c ∷ d ∷ []) =
    let later = qp_decode_string in_header (d ∷ []) in
    if c == 0
    then []
    else if c == b'=' && d == 10
    then []
    else (if c == b'_' && in_header then b' ' else c) ∷ later
qp_decode_string in_header (c ∷ d ∷ e ∷ f) =
    let after_one = qp_decode_string in_header (d ∷ e ∷ f) in
    let after_two = qp_decode_string in_header (e ∷ f) in
    let after_three = qp_decode_string in_header f in
    if c == 0
    then []
    else if c == b'=' && d == 10
    then after_two
    else if c == b'=' && (is_hex d && is_hex e)
    then put_escape d e after_three
    else (if c == b'_' && in_header then b' ' else c) ∷ after_one

-- Where the loop of `qp_decode` stands: at `check_c1` with the next byte, behind an equals sign, or
-- behind one and a digit.
pub data QpState : Type 0 where
  qp_text : QpState
  qp_equals : QpState
  qp_digit : ℕ → QpState

-- What is written where the file ends. Behind an equals sign EOF is written as a byte.
abbrev pub at_end : QpState → Bytes
at_end QpState.qp_text = []
at_end QpState.qp_equals = b'=' ∷ 255 ∷ []
at_end (QpState.qp_digit c) = b'=' ∷ c ∷ 255 ∷ []

-- The bytes that `qp_decode` writes for those that `mime_getc` gives.
unfoldable pub qp_decode : QpState → Bytes → Bytes
qp_decode state [] = at_end state
qp_decode QpState.qp_text (c ∷ s) =
    let escape = qp_decode QpState.qp_equals s in
    let plain = qp_decode QpState.qp_text s in if c == b'=' then escape else c ∷ plain
qp_decode QpState.qp_equals (c ∷ s) =
    let text = qp_decode QpState.qp_text s in
    let again = qp_decode QpState.qp_equals s in
    let digit = qp_decode (QpState.qp_digit c) s in
    if c == 10
    then text
    else if is_hex c
    then digit
    else b'=' ∷ (if c == b'=' then again else c ∷ text)
qp_decode (QpState.qp_digit d) (c ∷ s) =
    let text = qp_decode QpState.qp_text s in
    let again = qp_decode QpState.qp_equals s in
    if is_hex c then put_escape d c text else b'=' ∷ d ∷ (if c == b'=' then again else c ∷ text)
