-- ===== src/Utf/Graphic.antt =====
-- GraphicState of libtrn/utf.cpp: the character sets of the terminal, and the bytes, the code point
-- and the width of the character at the start of a text of the input's character set.
pub mod Show
pub mod Bounds
use trn.Base.{
  ℕ, zero, suc, ◌+◌, ◌-◌, ◌*◌, ◌^◌, ◌≤◌, ◌<◌, bit_and, bit_or, Bool, true, false, not, ◌&&◌, ◌||◌,
  Option, none, some, List, [], ◌∷◌, ◌++◌, Bytes, ltb, leb, ◌==◌, if◌then◌else◌, length, drop, take,
  get_elem?, ◌≡◌, refl, arith, Bool-cases, inl, inr,
}
use trn.Utf.Charset.{
  CharsetType, CharsetDesc, is_utf8, is_single_byte, is_double_byte, find_charset,
  find_charset_desc, same_charset, himap_at,
}
use trn.Utf.Scalar.{invalid_code_point, utf8_text, scalar_visual_width}

pub record GraphicState : Type 0 where
  pub in_set : CharsetType
  pub out_set : CharsetType
  pub himap_in : Option (List ℕ)
  pub himap_out : Option (List ℕ)

-- The table of the set that was found, where the name is known.
abbrev pub himap_of : CharsetType → Option (List ℕ) → Option (List ℕ)
himap_of set old = elim (find_charset_desc set) [ none ↦ old | some d ↦ d.himap ]

unfoldable pub init_in : CharsetType → GraphicState → GraphicState
init_in input gs = if same_charset input CharsetType.unknown then gs else record {
  in_set = input;
  out_set = gs.out_set;
  himap_in = himap_of input gs.himap_in;
  himap_out = gs.himap_out;
}

unfoldable pub init_out : CharsetType → GraphicState → GraphicState
init_out output gs = if same_charset output CharsetType.unknown then gs else record {
  in_set = gs.in_set;
  out_set = output;
  himap_in = gs.himap_in;
  himap_out = himap_of output gs.himap_out;
}

-- `init`: the new state, and the input set that it returns.
unfoldable pub init : Bytes → Bytes → GraphicState → GraphicState × CharsetType
init from to gs = (init_out (find_charset to) (init_in (find_charset from) gs), find_charset from)

abbrev pub name_of : CharsetType → Bytes
name_of set = elim (find_charset_desc set) [ none ↦ [] | some d ↦ d.name ]

abbrev pub input_charset_name : GraphicState → Bytes
input_charset_name gs = name_of gs.in_set

abbrev pub output_charset_name : GraphicState → Bytes
output_charset_name gs = name_of gs.out_set

abbrev pub is_utf8_continuation : Bytes → ℕ → Bool
is_utf8_continuation text index = elim (get_elem? text index) [
  | none ↦ false
  | some c ↦ bit_and c 0xC0 == 0x80
]

-- The bytes 1 to n of the text are continuation bytes.
unfoldable pub continuations : ℕ → Bytes → Bool
continuations zero text = true
continuations (suc n) text = continuations n text && is_utf8_continuation text (suc n)

-- The first byte announces as many further bytes; up to six bytes, overlong ones included.
unfoldable pub utf8_length_at : ℕ → Bytes → ℕ
utf8_length_at first text =
    if bit_and first 0x80 == 0
    then 1
    else if bit_and first 0xE0 == 0xC0 && continuations 1 text
    then 2
    else if bit_and first 0xF0 == 0xE0 && continuations 2 text
    then 3
    else if bit_and first 0xF8 == 0xF0 && continuations 3 text
    then 4
    else if bit_and first 0xFC == 0xF8 && continuations 4 text
    then 5
    else if bit_and first 0xFE == 0xFC && continuations 5 text
    then 6
    else 1

unfoldable pub byte_length_at : GraphicState → Bytes → ℕ
byte_length_at gs [] = 0
byte_length_at gs (b ∷ text) =
    if is_utf8 gs.in_set
    then utf8_length_at b (b ∷ text)
    else if is_single_byte gs.in_set
    then 1
    else if is_double_byte gs.in_set
    then (if not (bit_and b 0x80 == 0) && ltb 1 (suc (length text)) then 2 else 1)
    else 1

-- `utf8_next`, for a byte of which `is_utf8_continuation` says yes.
abbrev pub utf8_next : Bytes → ℕ → ℕ → ℕ
utf8_next text index bits = elim (get_elem? text index) [
  | none ↦ 0
  | some c ↦ bit_and c 0x3F * 2 ^ bits
]

abbrev pub utf8_lead : ℕ → ℕ → ℕ → ℕ
utf8_lead first mask bits = bit_and first mask * 2 ^ bits

-- The further bytes from an index on, joined to what the earlier ones gave.
unfoldable pub join_next : ℕ → ℕ → ℕ → Bytes → ℕ
join_next zero index acc text = acc
join_next (suc n) index acc text =
    join_next n (suc index) (bit_or acc (utf8_next text index (6 * n))) text

unfoldable pub utf8_code_point_at : ℕ → Bytes → ℕ
utf8_code_point_at first text =
    if bit_and first 0x80 == 0
    then first
    else if ltb 1 (length text) && (bit_and first 0xE0 == 0xC0 && continuations 1 text)
    then join_next 1 1 (utf8_lead first 0x1F 6) text
    else if ltb 2 (length text) && (bit_and first 0xF0 == 0xE0 && continuations 2 text)
    then join_next 2 1 (utf8_lead first 0x0F 12) text
    else if ltb 3 (length text) && (bit_and first 0xF8 == 0xF0 && continuations 3 text)
    then join_next 3 1 (utf8_lead first 0x07 18) text
    else if ltb 4 (length text) && (bit_and first 0xFC == 0xF8 && continuations 4 text)
    then join_next 4 1 (utf8_lead first 0x03 24) text
    else if ltb 5 (length text) && (bit_and first 0xFE == 0xFC && continuations 5 text)
    then join_next 5 1 (utf8_lead first 0x01 30) text
    else invalid_code_point

-- A code of one byte, by the table of its set where the top bit is set.
abbrev pub mapped_code : List ℕ → ℕ → ℕ
mapped_code himap b = if bit_and b 0x80 == 0 then b else himap_at himap (bit_and b 0x7F)

unfoldable pub code_point_at : GraphicState → Bytes → ℕ
code_point_at gs [] = invalid_code_point
code_point_at gs (b ∷ text) =
    let mapped : ℕ = elim gs.himap_in [
      | none ↦ invalid_code_point
      | some himap ↦ mapped_code himap b
    ] in
    if is_utf8 gs.in_set
    then utf8_code_point_at b (b ∷ text)
    else if same_charset gs.in_set CharsetType.ascii
    then bit_and b 0x7F
    else mapped

unfoldable pub visual_width_at : GraphicState → Bytes → ℕ
visual_width_at gs text =
    let scalar = code_point_at gs text in
    if scalar == invalid_code_point
    then 0
    else if is_single_byte gs.in_set
    then 1
    else if is_double_byte gs.in_set
    then (if bit_and scalar 0x80 == 0 then 1 else 2)
    else scalar_visual_width scalar
