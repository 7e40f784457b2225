-- ===== src/Uudecode/Prescan.antt =====
-- `uue_prescan`: whether a line starts a uuencoded part, and the file's name and part numbers.
pub mod Slash
pub mod Valid
use trn.Base.{
  ℕ, zero, suc, ◌+◌, ◌-◌, ◌*◌, ◌^◌, Bool, true, false, not, ◌&&◌, ◌||◌, Option, none, some, [], ◌∷◌,
  Bytes, ltb, leb, ◌==◌, if◌then◌else◌, length, get_elem?, take, drop, map, equal, codes, ◌>>=◌,
  ◌>>◌, guard,
}
use trn.Base.Int.{ℤ, pos, negsuc, ltb_ℤ, leb_ℤ, eqb_ℤ}
use trn.Text.{to_lower, is_digit, is_space, find_if, find_if_from, starts_with, front_is}

-- The arguments `filename`, `*partp` and `*totalp`.
pub record Part : Type 0 where
  pub filename : Bytes
  pub part : ℤ
  pub total : ℤ

-- The digits at the front: their value behind `acc`, and how many they are behind `n`.
unfoldable pub read_digits : ℕ → ℕ → Bytes → ℕ × ℕ
read_digits acc n [] = (acc, n)
read_digits acc n (c ∷ s) =
    let more = read_digits (acc * 10 + (c - b'0')) (suc n) s in
    if is_digit c then more else (acc, n)

-- The lambda `parse_number`: the number at the offset, which fits an `int`, and where it ends.
unfoldable pub parse_number : Bytes → ℕ → Option (ℕ × ℕ)
parse_number value offset =
    let (number, count) = read_digits 0 0 (drop offset value) in
    if front_is is_digit (drop offset value) && leb number (2 ^ 31 - 1)
    then some (number, offset + count)
    else none

abbrev pub starts_with_ignore_case : Bytes → Bytes → Bool
starts_with_ignore_case value prefix = starts_with (map to_lower value) (map to_lower prefix)

abbrev pub digit_at : Bytes → ℕ → Bool
digit_at text i = front_is is_digit (drop i text)

abbrev pub byte_at : Bytes → ℕ → ℕ → Bool
byte_at text i c = front_is (λ d. d == c) (drop i text)

-- `std::string_view::find` of a text from an offset.
unfoldable pub find_text : Bytes → Bytes → Option ℕ
find_text word [] = if equal word [] then some 0 else none
find_text word (c ∷ s) =
    let later : Option ℕ = elim (find_text word s) [ none ↦ none | some n ↦ some (suc n) ] in
    if starts_with (c ∷ s) word then some 0 else later

abbrev pub find_text_from : Bytes → ℕ → Bytes → Option ℕ
find_text_from word offset text =
    if leb offset (length text)
    then (find_text word (drop offset text) >>= λ n. some (offset + n))
    else none

abbrev pub slice : Bytes → ℕ → ℕ → Bytes
slice text first last = take (last - first) (drop first text)

abbrev pub space_from : ℕ → Bytes → Option ℕ
space_from = find_if_from (λ c. c == b' ')

abbrev pub non_space_from : ℕ → Bytes → Option ℕ
non_space_from = find_if_from (λ c. not (is_space c))

-- What a line names: the file, the part and the total.
abbrev pub Named : Type 0
Named = Bytes × ℕ × ℕ

-- The test for a begin line.
unfoldable pub is_begin : Bytes → Bool
is_begin text =
    starts_with text (codes "begin ")
    && (ltb 9 (length text)
        && (digit_at text 6
            && (digit_at text 7
                && (digit_at text 8
                    && (byte_at text 9 b' '
                        || (ltb 10 (length text)
                            && (byte_at text 6 b'0'
                                && (digit_at text 9 && byte_at text 10 b' '))))))))

-- "section N of ... of file F ...", from behind the N.
unfoldable pub section_of : Bytes → ℕ → ℕ → Option Named
section_of text part position = do
  marker ← find_text_from (codes " of file ") (position + 4) text
  end ← space_from (marker + 9) text
  some (slice text (marker + 9) end, part, 0)

-- "section N/M file F ...", from behind the N. The total is read from the slash on.
unfoldable pub section_slash : Bytes → ℕ → ℕ → Option Named
section_slash text part position = do
  (total, total_end) ← parse_number text position
  label ← non_space_from total_end text
  guard (leb part total && starts_with (drop label text) (codes "file "))
  end ← space_from (label + 5) text
  some (slice text (label + 5) end, part, total)

-- "POST V... F (Part N/M)"
unfoldable pub post : Bytes → Option Named
post text = do
  version_end ← space_from 6 text
  let start = suc version_end
  end ← space_from start text
  guard (starts_with (drop end text) (codes " (Part "))
  (part, part_end) ← parse_number text (end + 7)
  guard (not (part == 0) && byte_at text part_end b'/')
  (total, total_end) ← parse_number text (part_end + 1)
  guard (leb part total && byte_at text total_end b')')
  some (slice text start end, part, total)

-- "File: F -- part N of M -- "
unfoldable pub file : Bytes → Option Named
file text = do
  end ← space_from 6 text
  guard (starts_with (drop end text) (codes " -- part "))
  (part, part_end) ← parse_number text (end + 9)
  guard (not (part == 0) && starts_with (drop part_end text) (codes " of "))
  (total, total_end) ← parse_number text (part_end + 4)
  guard (leb part total && starts_with (drop total_end text) (codes " -- "))
  some (slice text 6 end, part, total)

-- "[Section: N/M File: F ..."; any byte may stand for the slash.
unfoldable pub bracket_section : Bytes → Option Named
bracket_section text = do
  (part, part_end) ← parse_number text 10
  guard (not (part == 0) && ltb part_end (length text))
  (total, total_end) ← parse_number text (part_end + 1)
  label ← non_space_from total_end text
  guard (leb part total && starts_with (drop label text) (codes "File: "))
  end ← space_from (label + 6) text
  some (slice text (label + 6) end, part, total)

-- A branch that sets the arguments and returns 1, or returns 0 and leaves them.
abbrev pub answer : Option Named → Part → Bool × Part
answer none p = (false, p)
answer (some (filename, part, total)) p =
    (true, record { filename = filename; part = pos part; total = pos total })

abbrev pub uu_length : ℕ
uu_length = 62

-- A line of data, where the part is known from earlier lines.
unfoldable pub is_data : Bytes → Part → Bool
is_data text p =
    ltb 0 (length p.filename)
    && (ltb_ℤ (pos 0) p.part
        && (ltb_ℤ (pos 0) p.total
            && (leb_ℤ p.part p.total
                && (starts_with text (codes "BEGIN")
                    || (starts_with text (codes "--- BEGIN ---")
                        || (byte_at text 0 b'M' && length text == uu_length))))))

unfoldable pub file_name_header : Bytes → Bytes
file_name_header text = elim (find_if_from is_space 13 text) [
  | none ↦ drop 13 text
  | some end ↦ slice text 13 end
]

-- The number of a header line, where it is positive.
unfoldable pub positive_at : Bytes → ℕ → Option ℕ
positive_at text offset = do (n, _) ← parse_number text offset; guard (not (n == 0)); some n

-- The end of the function: data, and the X- headers, which set one argument and return 0.
unfoldable pub data_or_header : Bytes → Part → Bool × Part
data_or_header text p =
    let part : Part = elim (positive_at text 8) [ none ↦ p | some n ↦ record p { part = pos n } ] in
    let total : Part = elim (positive_at text 14) [
      | none ↦ p
      | some n ↦ record p { total = pos n }
    ] in
    let named : Part = record p { filename = file_name_header text } in
    if is_data text p
    then (true, p)
    else if starts_with_ignore_case text (codes "x-file-name: ")
    then (false, named)
    else if starts_with_ignore_case text (codes "x-part: ")
    then (false, part)
    else if starts_with_ignore_case text (codes "x-part-total: ")
    then (false, total)
    else (false, p)

-- The tests behind the section line.
unfoldable pub post_file_or_rest : Bytes → Part → Bool × Part
post_file_or_rest text p =
    if starts_with text (codes "POST V")
    then answer (post text) p
    else if starts_with text (codes "File: ")
    then answer (file text) p
    else if starts_with text (codes "[Section: ")
    then answer (bracket_section text) p
    else data_or_header text p

-- A section line behind its number.
unfoldable pub section : Bytes → Part → ℕ → ℕ → Bool × Part
section text p part position =
    if part == 0
    then (false, p)
    else if starts_with (drop position text) (codes " of ")
    then answer (section_of text part position) p
    else if byte_at text position b'/' && digit_at text (position + 1)
    then answer (section_slash text part position) p
    else post_file_or_rest text p

unfoldable pub uue_prescan : Bytes → Part → Bool × Part
uue_prescan text p =
    let begun : Part = record { filename = []; part = pos 1; total = pos 0 } in
    let numbered : Bool × Part = elim (parse_number text 8) [
      | none ↦ (false, p)
      | some (part, position) ↦ section text p part position
    ] in
    if is_begin text
    then (true, if eqb_ℤ p.part (negsuc 0) then begun else p)
    else if starts_with text (codes "section ") && digit_at text 8
    then numbered
    else post_file_or_rest text p
