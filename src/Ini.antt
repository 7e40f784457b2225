-- ===== src/Ini.antt =====
-- The settings of a section in a configuration file: `IniSection::Iterator::advance` of
-- libtrn/IniSection.cpp and `IniSetting::value` of libtrn/IniSetting.cpp. A position in a text is
-- the text from there on. The loops over lines and bytes run on fuel, of which each round takes at
-- least one byte.
pub mod Value
pub mod Section
pub mod Document
pub mod Header
pub mod File
pub mod Schema
use trn.Base.{
  ℕ, zero, suc, ◌+◌, ◌-◌, ◌*◌, ◌%◌, Bool, true, false, not, ◌&&◌, ◌||◌, Option, none, some, List,
  [], ◌∷◌, ◌++◌, Bytes, ltb, leb, ◌==◌, if◌then◌else◌, length, take, drop, reverse,
}
use trn.Text.{is_digit, is_space, front_is, remove_one, skip_while, skip_space, skip_ne}

abbrev pub newline : ℕ
newline = 10

abbrev pub is_quote : ℕ → Bool
is_quote c = c == b'\'' || c == b'"'

abbrev pub is_space_not_newline : ℕ → Bool
is_space_not_newline c = not (c == newline) && is_space c

abbrev pub is_octal : ℕ → Bool
is_octal c = leb b'0' c && leb c b'7'

-- `std::isxdigit` and `std::toupper` in the C locale.
abbrev pub is_hex_digit : ℕ → Bool
is_hex_digit c = is_digit c || ((leb b'a' c && leb c b'f') || (leb b'A' c && leb c b'F'))

abbrev pub to_upper : ℕ → ℕ
to_upper c = if leb b'a' c && leb c b'z' then c - 32 else c

abbrev pub hex_digit_value : ℕ → ℕ
hex_digit_value c = if is_digit c then c - b'0' else to_upper c - b'A' + 10

-- The loops over the digits of an escape, and what follows them.
unfoldable pub octal_digits : ℕ → Bytes → ℕ × Bytes
octal_digits value [] = (value, [])
octal_digits value (c ∷ s) =
    let more = octal_digits (value * 8 + (c - b'0')) s in
    if ltb value 512 && is_octal c then more else (value, c ∷ s)

unfoldable pub hex_digits : ℕ → Bytes → ℕ × Bytes
hex_digits value [] = (value, [])
hex_digits value (c ∷ s) =
    let more = hex_digits (value * 16 + hex_digit_value c) s in
    if ltb value 512 && is_hex_digit c then more else (value, c ∷ s)

-- The byte that an escape stands for, and what follows it; the backslash is read already.
unfoldable pub append_escape : Bytes → ℕ × Bytes
append_escape [] = (b'\\', [])
append_escape (c ∷ s) =
    let (octal, behind_octal) = octal_digits 0 (c ∷ s) in
    let (hex, behind_hex) = hex_digits 0 s in
    if is_octal c
    then (octal % 256, behind_octal)
    else if c == b'a'
    then (7, s)
    else if c == b'b'
    then (8, s)
    else if c == b'f'
    then (12, s)
    else if c == b'n'
    then (10, s)
    else if c == b'r'
    then (13, s)
    else if c == b't'
    then (9, s)
    else if c == b'v'
    then (11, s)
    else if c == b'x'
    then if front_is is_hex_digit s then (hex % 256, behind_hex) else (c, s)
    else (c, s)

-- The loop of `value`: `quote` is 0 outside of quotes; the result, and where it may be trimmed to.
unfoldable pub value_loop : ℕ → ℕ → Bytes → ℕ → Bytes → Bytes × ℕ
value_loop zero quote result trim_limit s = (result, trim_limit)
value_loop (suc f) quote result trim_limit [] = (result, trim_limit)
value_loop (suc f) quote result trim_limit (c ∷ s) =
    let closed = value_loop f 0 result (length result) s in
    let opened = value_loop f c result trim_limit s in
    let plain = value_loop f quote (result ++ (c ∷ [])) trim_limit s in
    let joined = value_loop f quote result trim_limit (remove_one s) in
    let (byte, behind) = append_escape s in
    let escaped = value_loop f quote (result ++ (byte ∷ [])) trim_limit behind in
    let pushed =
      if c == b'\\' then if front_is (λ d. d == newline) s then joined else escaped else plain in
    if not (quote == 0)
    then if c == quote then closed else pushed
    else if c == newline
    then (result, trim_limit)
    else if is_quote c
    then opened
    else if c == b'#'
    then (result, trim_limit)
    else pushed

-- `trim_right`
unfoldable pub trim_right : Bytes → Bytes
trim_right s = reverse (skip_space (reverse s))

unfoldable pub value : Bytes → Bytes
value raw_value =
    let s = skip_while is_space_not_newline raw_value in
    let (result, trim_limit) = value_loop (suc (length s)) 0 [] 0 s in
    take trim_limit result ++ trim_right (drop trim_limit result)

pub record IniSetting : Type 0 where
  pub m_name : Bytes
  pub m_raw_value : Bytes

-- `next_line`
unfoldable pub next_line : Bytes → Bytes
next_line s = remove_one (skip_ne s newline)

-- The bytes before the first one with a property.
unfoldable pub before : (ℕ → Bool) → Bytes → Bytes
before p [] = []
before p (c ∷ s) = let rest = before p s in if p c then [] else c ∷ rest

-- `find_value_end`: the value, and what follows it. Behind a backslash a byte is passed over.
unfoldable pub find_value_end : Bool → ℕ → Bytes → Bytes × Bytes
find_value_end skip quote [] = ([], [])
find_value_end skip quote (c ∷ s) =
    let (v0, r0) = find_value_end false quote s in
    let (v1, r1) = find_value_end true quote s in
    let (v2, r2) = find_value_end false 0 s in
    let (v3, r3) = find_value_end false c s in
    if skip
    then (c ∷ v0, r0)
    else if c == b'\\'
    then (c ∷ v1, r1)
    else if not (quote == 0)
    then if c == quote then (c ∷ v2, r2) else (c ∷ v0, r0)
    else if is_quote c
    then (c ∷ v3, r3)
    else if c == newline
    then ([], c ∷ s)
    else (c ∷ v0, r0)

abbrev pub ends_name : ℕ → Bool
ends_name c = c == b'=' || c == newline

-- `IniSection::Iterator::advance`: the next setting and the body behind it; `none` at the end.
unfoldable pub advance : ℕ → Bytes → Option (IniSetting × Bytes)
advance zero body = none
advance (suc f) body =
    let s = skip_space body in
    let name = trim_right (before ends_name s) in
    let at_equal = skip_while (λ c. not (ends_name c)) s in
    let (raw, at_end) = find_value_end false 0 (remove_one at_equal) in
    let behind = remove_one at_end in
    let next_try = advance f (next_line s) in
    let skip_unnamed = advance f behind in
    if length s == 0 || front_is (λ c. c == b'[') s
    then none
    else if front_is (λ c. c == b'#') s
    then next_try
    else if not (front_is (λ c. c == b'=') at_equal)
    then next_try
    else if length name == 0
    then skip_unnamed
    else some (record { m_name = name; m_raw_value = raw }, behind)

-- All settings from `begin()` to `end()`.
unfoldable pub settings : ℕ → Bytes → List IniSetting
settings zero body = []
settings (suc f) body = elim (advance (suc (length body)) body) [
  | none ↦ []
  | some (setting, rest) ↦ setting ∷ settings f rest
]
