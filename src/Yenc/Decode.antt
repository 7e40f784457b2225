-- ===== src/Yenc/Decode.antt =====
-- `yenc_decode`: the header, the =ypart line of a part, the data lines, and the =yend line.
pub mod Size
pub mod RoundTrip
use trn.Base.{
  ℕ, zero, suc, ◌+◌, ◌-◌, ◌%◌, Bool, true, false, not, ◌&&◌, ◌||◌, Option, none, some, [], ◌∷◌,
  ◌++◌, Bytes, ltb, leb, ◌==◌, if◌then◌else◌, length, drop, codes, ◌>>=◌, ◌>>◌, guard,
}
use trn.Base.Int.{ℤ, pos, eqb_ℤ}
use trn.Text.{starts_with}
use trn.Yenc.Crc.{yenc_crc32}
use trn.Yenc.Header.{YencHeader, yenc_prescan}
use trn.Yenc.{next_line, Fields, field, is_some, parse_fields, number, number_int, u64_max, u32_max}

pub record YencPart : Type 0 where
  pub header : YencHeader
  pub first : ℕ
  pub last : ℕ
  pub bytes : Bytes
  pub crc32 : Option ℕ

-- NUL, newline and carriage return do not occur in encoded data.
abbrev pub is_critical : ℕ → Bool
is_critical c = c == 0 || (c == 13 || c == 10)

-- The bytes of a data line are decoded behind those already there.
unfoldable pub decode_line : ℕ → Bytes → Bytes → Option Bytes
decode_line expected decoded [] = some decoded
decode_line expected decoded (b ∷ []) = do
  guard (not (is_critical b) && not (b == b'='))
  guard (ltb (length decoded) expected)
  some (decoded ++ ((b + 256 - 42) % 256 ∷ []))
decode_line expected decoded (b ∷ c ∷ s) =
    let escaped = (do
      guard (not (is_critical c) && ltb (length decoded) expected)
      decode_line expected (decoded ++ (((c + 256 - 64) % 256 + 256 - 42) % 256 ∷ [])) s) in
    let plain = (do
      guard (ltb (length decoded) expected)
      decode_line expected (decoded ++ ((b + 256 - 42) % 256 ∷ [])) (c ∷ s)) in
    if is_critical b then none else if b == b'=' then escaped else plain

abbrev pub stamp : YencPart → ℕ → YencPart
stamp p crc = record p { crc32 = some crc }

-- A checksum field of eight hexadecimal digits, compared with the bytes' own if it is `binding`.
unfoldable pub read_crc : Fields → Bytes → Bool → Bytes → Option ℕ
read_crc fields key binding bytes = do
  raw ← field fields key
  crc ← number 16 u32_max fields key
  guard (length raw == 8 && not (binding && not (crc == yenc_crc32 bytes 0)))
  some crc

-- One round of the loop over the two checksum fields.
unfoldable pub check_crc : Fields → Bytes → Bool → YencPart → Option YencPart
check_crc fields key binding p =
    let checked = (do crc ← read_crc fields key binding p.bytes; some (stamp p crc)) in
    if is_some (field fields key) then checked else some p

-- What the =yend line of a part has besides.
unfoldable pub has_part : Fields → YencPart → Bool
has_part fields p = elim (number_int fields (codes "part")) [
  | none ↦ false
  | some part ↦ eqb_ℤ part p.header.part && is_some (field fields (codes "pcrc32"))
]

-- The =yend line. The crc32 field of a multipart file is about the whole of it, so it is kept and
-- not compared; a part is checked by pcrc32.
unfoldable pub finish : ℕ → YencPart → Bytes → Option YencPart
finish expected p line = do
  fields ← parse_fields (drop 6 line) false
  size ← number 10 u64_max fields (codes "size")
  guard (size == expected && length p.bytes == expected)
  q ← check_crc fields (codes "crc32") (not p.header.multipart) p
  _ ← check_crc fields (codes "pcrc32") true q
  guard (not p.header.multipart || has_part fields p)
  some q

-- The loop over the lines behind the header; `none` at the end of the text, too.
unfoldable pub lines_loop : ℕ → ℕ → YencPart → Bytes → Option YencPart
lines_loop zero expected p text = none
lines_loop (suc f) expected p text =
    let (line, rest) = next_line text in
    let more = (do
      decoded ← decode_line expected p.bytes line
      lines_loop f expected (record p { bytes = decoded }) rest) in
    if length text == 0
    then none
    else if starts_with line (codes "=yend ")
    then finish expected p line
    else more

-- The lines up to the header, and the text behind it.
unfoldable pub find_header : ℕ → Bytes → Option (YencHeader × Bytes)
find_header zero text = none
find_header (suc f) text =
    let (line, rest) = next_line text in
    let later = find_header f rest in
    if length text == 0
    then none
    else elim (yenc_prescan line) [ none ↦ later | some h ↦ some (h, rest) ]

-- The extent of a part: not empty, and within the file.
abbrev pub within : ℕ → ℕ → ℕ → Option (ℕ × ℕ)
within size first last =
    if not (first == 0) && (leb first last && leb last size) then some (first, last) else none

-- The =ypart line of a multipart header: the first and last byte of the part, from 1.
unfoldable pub read_extent : YencHeader → Bytes → Option (ℕ × ℕ)
read_extent h line = do
  guard (starts_with line (codes "=ypart "))
  fields ← parse_fields (drop 7 line) false
  first ← number 10 u64_max fields (codes "begin")
  last ← number 10 u64_max fields (codes "end")
  within h.size first last

abbrev pub start : YencHeader → ℕ × ℕ → YencPart
start h extent = record { header = h; first = extent.0; last = extent.1; bytes = []; crc32 = none }

-- Behind the header line: the extent, then the data lines.
unfoldable pub decode_part : YencHeader → Bytes → Option YencPart
decode_part h text =
    let (line, behind) = next_line text in
    let multiple = (do
      extent ← read_extent h line
      lines_loop (suc (length behind)) (extent.1 - extent.0 + 1) (start h extent) behind) in
    if h.multipart
    then multiple
    else lines_loop (suc (length text)) h.size (start h (1, h.size)) text

unfoldable pub yenc_decode : Bytes → Option YencPart
yenc_decode text = do found ← find_header (suc (length text)) text; decode_part found.0 found.1
