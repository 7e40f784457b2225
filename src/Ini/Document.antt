-- ===== src/Ini/Document.antt =====
-- The sections of a configuration file: `IniDocument::Iterator::advance` of libtrn/IniDocument.cpp.
-- A position is the text from there on, and `none` is NOT_FOUND; the loops over lines run on fuel.
use trn.Base.{
  ℕ, zero, suc, ◌-◌, Bool, not, ◌&&◌, Option, none, some, List, [], ◌∷◌, Bytes, ◌==◌, if◌then◌else◌,
  length, take,
}
use trn.Ini.{newline, is_quote, is_space_not_newline, next_line, before, trim_right}
use trn.Text.{front_is, remove_one, skip_while, skip_space, skip_ne}

pub record IniSection : Type 0 where
  pub m_name : Bytes
  pub m_condition : Bytes
  pub m_body : Bytes

-- The rest of a line with an opening bracket holds a closing one.
unfoldable pub closes_header : Bytes → Bool
closes_header s =
    let line = before (λ c. c == newline) s in
    not (length line == 0) && not (length (skip_ne line b']') == 0)

unfoldable pub find_section_header : ℕ → Bytes → Option Bytes
find_section_header zero text = none
find_section_header (suc f) text =
    let s = skip_space text in
    let later = find_section_header f (next_line s) in
    if length s == 0
    then none
    else if front_is (λ c. c == b'[') s
    then if closes_header (remove_one s) then some s else later
    else later

-- The loop of `condition_end`: the text before a number sign outside of quotes.
unfoldable pub condition_text : ℕ → Bytes → Bytes
condition_text quote [] = []
condition_text quote (c ∷ s) =
    let same = condition_text quote s in
    let closed = condition_text 0 s in
    let opened = condition_text c s in
    if not (quote == 0)
    then c ∷ (if c == quote then closed else same)
    else if is_quote c
    then c ∷ opened
    else if c == b'#'
    then []
    else c ∷ same

-- The section that a header begins, and the text behind it.
unfoldable pub read_section : Bytes → IniSection × Bytes
read_section header =
    let inner = remove_one header in
    let line = before (λ c. c == newline) inner in
    let condition = skip_while is_space_not_newline (remove_one (skip_ne line b']')) in
    let body_first = next_line inner in
    let next_header : Bytes = elim (find_section_header (suc (length body_first)) body_first) [
      | none ↦ []
      | some s ↦ s
    ] in
    (
      record {
        m_name = before (λ c. c == b']') inner;
        m_condition = trim_right (condition_text 0 condition);
        m_body = take (length body_first - length next_header) body_first;
      },
      next_header,
    )

unfoldable pub advance_section : Bytes → Option (IniSection × Bytes)
advance_section text = elim (find_section_header (suc (length text)) text) [
  | none ↦ none
  | some header ↦ some (read_section header)
]

-- All sections from `begin()` to `end()`.
unfoldable pub sections : ℕ → Bytes → List IniSection
sections zero text = []
sections (suc f) text = elim (advance_section text) [
  | none ↦ []
  | some (section, rest) ↦ section ∷ sections f rest
]
