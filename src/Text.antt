-- ===== src/Text.antt =====
-- What the sources use of `std::string_view`, `std::isdigit`, `std::isspace` and `std::from_chars`,
-- and the scanners of libtrn/include/trn/string-algos.h. A text is the list of its bytes, 0 to 255.
pub mod Decimal
pub mod Find
pub mod Case
use trn.Base.{
  ℕ, zero, suc, ◌+◌, ◌-◌, ◌*◌, ◌^◌, Bool, true, false, not, ◌&&◌, ◌||◌, Option, none, some, List,
  [], ◌∷◌, Bytes, ltb, leb, ◌==◌, if◌then◌else◌, length, drop, take, equal, map,
}
use trn.Base.Int.{ℤ, pos, sub_ℕ}

-- `std::isdigit` and `std::isspace` in the C locale.
abbrev pub is_digit : ℕ → Bool
is_digit c = leb b'0' c && leb c b'9'

abbrev pub is_space : ℕ → Bool
is_space c = c == b' ' || (leb 9 c && leb c 13)

-- `string_algos_detail::skip_while`
unfoldable pub skip_while : (ℕ → Bool) → Bytes → Bytes
skip_while p [] = []
skip_while p (c ∷ s) = if p c then skip_while p s else c ∷ s

abbrev pub skip_eq : Bytes → ℕ → Bytes
skip_eq s delim = skip_while (λ c. c == delim) s

abbrev pub skip_ne : Bytes → ℕ → Bytes
skip_ne s delim = skip_while (λ c. not (c == delim)) s

abbrev pub skip_digits : Bytes → Bytes
skip_digits = skip_while is_digit

abbrev pub skip_non_digits : Bytes → Bytes
skip_non_digits = skip_while (λ c. not (is_digit c))

abbrev pub skip_space : Bytes → Bytes
skip_space = skip_while is_space

-- A test of the first byte; false on the empty text.
abbrev pub front_is : (ℕ → Bool) → Bytes → Bool
front_is p [] = false
front_is p (c ∷ s) = p c

abbrev pub remove_one : Bytes → Bytes
remove_one [] = []
remove_one (c ∷ s) = s

-- The position of the first byte with a property; `none` is `npos`.
unfoldable pub find_if : (ℕ → Bool) → Bytes → Option ℕ
find_if p [] = none
find_if p (c ∷ s) =
    let later : Option ℕ = elim (find_if p s) [ none ↦ none | some n ↦ some (suc n) ] in
    if p c then some 0 else later

abbrev pub find : ℕ → Bytes → Option ℕ
find c = find_if (λ x. x == c)

-- A search that starts at an offset; the position counts from the start of the text.
abbrev pub find_if_from : (ℕ → Bool) → ℕ → Bytes → Option ℕ
find_if_from p off s = elim (find_if p (drop off s)) [ none ↦ none | some n ↦ some (off + n) ]

-- `text.substr(0, prefix.size()) == prefix`
abbrev pub starts_with : Bytes → Bytes → Bool
starts_with s prefix = equal (take (length prefix) s) prefix

-- `std::tolower` in the C locale.
abbrev pub to_lower : ℕ → ℕ
to_lower c = if leb b'A' c && leb c b'Z' then c + 32 else c

-- The number that the leading digits stand for, after the digits already read.
unfoldable pub scan_digits : ℕ → Bytes → ℕ
scan_digits acc [] = acc
scan_digits acc (c ∷ s) =
    let more = scan_digits (acc * 10 + (c - b'0')) s in if is_digit c then more else acc

-- `std::from_chars` into a `long` that was 0: it stays 0 where there is no number, or one that
-- does not fit.
abbrev pub fit_long : ℕ → ℤ
fit_long v = if ltb v (2 ^ 63) then pos v else pos 0

abbrev pub fit_negative_long : ℕ → ℤ
fit_negative_long v = if leb v (2 ^ 63) then sub_ℕ 0 v else pos 0

unfoldable pub parse_long : Bytes → ℤ
parse_long [] = pos 0
parse_long (c ∷ s) =
    if c == b'-' then fit_negative_long (scan_digits 0 s) else fit_long (scan_digits 0 (c ∷ s))

-- `find_first_of` or `find_first_not_of` from an offset, with the size of the text for `npos`.
unfoldable pub find_or_end : (ℕ → Bool) → ℕ → Bytes → ℕ
unfolding find_if
find_or_end p off s = elim (find_if p (drop off s)) [ none ↦ length s | some n ↦ off + n ]

abbrev pub digits_end : Bytes → ℕ → ℕ
digits_end s off = find_or_end (λ c. not (is_digit c)) off s

abbrev pub next_digit : Bytes → ℕ → ℕ
next_digit s off = find_or_end is_digit off s
