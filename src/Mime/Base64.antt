-- ===== src/Mime/Base64.antt =====
-- Base64: `b64_decode_string` and `b64_decode` in libtrn/mime.cpp.
pub mod RoundTrip
pub mod Files
pub mod Strip
use trn.Base.{
  ℕ, zero, suc, ◌+◌, ◌-◌, ◌*◌, ◌/◌, ◌%◌, bit_and, bit_or, Bool, true, false, not, Option, none,
  some, ◌&&◌, ◌||◌, [], ◌∷◌, Bytes, leb, ◌==◌, if◌then◌else◌,
}
use trn.Uudecode.Machine.{DecodeState}
use trn.Mime.Quoted.{xx}

-- `s_index_b64`
abbrev pub index_b64 : ℕ → ℕ
index_b64 c =
    if leb b'A' c && leb c b'Z'
    then c - b'A'
    else if leb b'a' c && leb c b'z'
    then c - b'a' + 26
    else if leb b'0' c && leb c b'9'
    then c - b'0' + 52
    else if c == b'+'
    then 62
    else if c == b'/'
    then 63
    else xx

-- The three bytes of a group of four digits; each is cut to a byte as it is stored.
abbrev pub first_of : ℕ → ℕ → ℕ
first_of a b = bit_or (a * 4) (b / 16) % 256

abbrev pub second_of : ℕ → ℕ → ℕ
second_of b c = bit_or (bit_and b 15 * 16) (c / 4) % 256

abbrev pub third_of : ℕ → ℕ → ℕ
third_of c d = bit_or (bit_and c 3 * 64) d % 256

-- How many digits of a group `b64_decode_string` has read, with the last of them.
pub data B64State : Type 0 where
  b64_none : B64State
  b64_one : ℕ → B64State
  b64_two : ℕ → B64State
  b64_three : ℕ → B64State

-- The loops of `b64_decode_string`. A NUL or an equals sign ends the text, and other bytes that are
-- no digits are left out.
unfoldable pub b64_loop : B64State → Bytes → Bytes
b64_loop state [] = []
b64_loop B64State.b64_none (c ∷ f) =
    let same = b64_loop B64State.b64_none f in
    let next = b64_loop (B64State.b64_one (index_b64 c)) f in
    if c == 0 || c == b'=' then [] else if index_b64 c == xx then same else next
b64_loop (B64State.b64_one a) (c ∷ f) =
    let same = b64_loop (B64State.b64_one a) f in
    let next = b64_loop (B64State.b64_two (index_b64 c)) f in
    if c == 0 || c == b'='
    then []
    else if index_b64 c == xx
    then same
    else first_of a (index_b64 c) ∷ next
b64_loop (B64State.b64_two b) (c ∷ f) =
    let same = b64_loop (B64State.b64_two b) f in
    let next = b64_loop (B64State.b64_three (index_b64 c)) f in
    if c == 0 || c == b'='
    then []
    else if index_b64 c == xx
    then same
    else second_of b (index_b64 c) ∷ next
b64_loop (B64State.b64_three a) (c ∷ f) =
    let same = b64_loop (B64State.b64_three a) f in
    let next = b64_loop B64State.b64_none f in
    if c == 0 || c == b'='
    then []
    else if index_b64 c == xx
    then same
    else third_of a (index_b64 c) ∷ next

abbrev pub b64_decode_string : Bytes → Bytes
b64_decode_string = b64_loop B64State.b64_none

-- The bytes of a group that `b64_decode` has read: digits and equals signs.
pub data Group : Type 0 where
  group_0 : Group
  group_1 : ℕ → Group
  group_2 : ℕ → ℕ → Group
  group_3 : ℕ → ℕ → ℕ → Group

abbrev pub is_skipped : ℕ → Bool
is_skipped c = not (c == b'=') && index_b64 c == xx

-- The loop of `b64_decode`, for the bytes that `mime_getc` gives and the state on entry: what is
-- written, and the state that is returned.
unfoldable pub b64_bytes : DecodeState → Group → Bytes → Bytes × DecodeState
b64_bytes state Group.group_0 [] = ([], DecodeState.maybe_done)
b64_bytes state (Group.group_1 a) [] = ([], state)
b64_bytes state (Group.group_2 a b) [] = ([], state)
b64_bytes state (Group.group_3 a b c) [] = ([], state)
b64_bytes state Group.group_0 (x ∷ f) =
    let same = b64_bytes state Group.group_0 f in
    let next = b64_bytes state (Group.group_1 x) f in if is_skipped x then same else next
b64_bytes state (Group.group_1 a) (x ∷ f) =
    let same = b64_bytes state (Group.group_1 a) f in
    let next = b64_bytes state (Group.group_2 a x) f in if is_skipped x then same else next
b64_bytes state (Group.group_2 a b) (x ∷ f) =
    let same = b64_bytes state (Group.group_2 a b) f in
    let next = b64_bytes state (Group.group_3 a b x) f in if is_skipped x then same else next
b64_bytes state (Group.group_3 a b c) (x ∷ f) =
    let same = b64_bytes state (Group.group_3 a b c) f in
    let next = b64_bytes state Group.group_0 f in
    let one = first_of (index_b64 a) (index_b64 b) in
    let two = second_of (index_b64 b) (index_b64 c) in
    let three = third_of (index_b64 c) (index_b64 x) in
    if is_skipped x
    then same
    else if a == b'=' || b == b'='
    then ([], DecodeState.done)
    else if c == b'='
    then (one ∷ [], DecodeState.done)
    else if x == b'='
    then (one ∷ two ∷ [], DecodeState.done)
    else (one ∷ two ∷ three ∷ next.0, next.1)

-- The whole function: what is written, and the state that is returned; `none` is DECODE_ERROR.
-- Whether the file opens at DECODE_START is up to `fopen`; in the other states it is open already.
unfoldable pub b64_decode : Bool → DecodeState → Bytes → Option (Bytes × DecodeState)
b64_decode opens DecodeState.done f = some ([], DecodeState.done)
b64_decode opens DecodeState.start f =
    if opens then some (b64_bytes DecodeState.active Group.group_0 f) else none
b64_decode opens state f = some (b64_bytes state Group.group_0 f)
