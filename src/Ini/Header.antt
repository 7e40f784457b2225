-- ===== src/Ini/Header.antt =====
-- The lines of a configuration file, for `find_section_header` of libtrn/IniDocument.cpp.
use trn.Base.{
  ℕ, zero, suc, ◌<◌, true, false, Option, List, [], ◌∷◌, ◌++◌, Bytes, All, ◌==◌, length, ◌≡◌, refl,
  ◌∙◌, ap, sym, arith, append_assoc, length-append, Bool-cases, inl, inr,
}
use trn.Ini.{newline, ends_name, before, next_line}
use trn.Ini.Document.{closes_header, find_section_header}
use trn.Ini.Section.{IsName, written, front_tests, skip_space-name}
use trn.Ini.Value.{must_escape, escape, quoted}
use trn.Text.{skip_while, skip_ne}

abbrev pub IsOneLine : Bytes → Type 0
IsOneLine = All (λ c. (c == newline) ≡ false)

escape-IsOneLine : (v : Bytes) → IsOneLine v → IsOneLine (escape v)
unfolding escape
escape-IsOneLine [] h = tt
escape-IsOneLine (c ∷ v) h = elim (Bool-cases (must_escape c)) [
  | inl special ↦ rw special (refl, (h.0, escape-IsOneLine v h.1))
  | inr plain ↦ rw plain (h.0, escape-IsOneLine v h.1)
]

next_line-line : (s rest : Bytes) → IsOneLine s → next_line (s ++ (newline ∷ rest)) ≡ rest
unfolding next_line skip_while
next_line-line [] rest h = refl
next_line-line (c ∷ s) rest h = rw h.0 (next_line-line s rest h.1)

before-line :
    (s rest : Bytes) → IsOneLine s → before (λ c. c == newline) (s ++ (newline ∷ rest)) ≡ s
unfolding before
before-line [] rest h = refl
before-line (c ∷ s) rest h = rw h.0 (ap (◌∷◌ c) (before-line s rest h.1))

IsOneLine-append : (s t : Bytes) → IsOneLine s → IsOneLine t → IsOneLine (s ++ t)
IsOneLine-append [] t p q = q
IsOneLine-append (c ∷ s) t p q = (p.0, IsOneLine-append s t p.1 q)

names-IsOneLine : (name : Bytes) → All (λ c. ends_name c ≡ false) name → IsOneLine name
names-IsOneLine [] h = tt
names-IsOneLine (c ∷ name) h = (ground arith, names-IsOneLine name h.1)

-- A name and a value on one line.
pub record IsEntry (x : Bytes × Bytes) : Type 0 where
  pub name : IsName x.0
  pub one_line : IsOneLine x.1

-- A line with a setting is no header.
skip_entry :
    (f : ℕ) (name v rest : Bytes)
    → IsEntry (name, v)
    → find_section_header (suc f) (name ++ (b'=' ∷ (quoted v ++ (newline ∷ rest))))
      ≡ find_section_header f rest
unfolding find_section_header
skip_entry f name v rest entry =
    let tail = b'=' ∷ (quoted v ++ (newline ∷ rest)) in
    let (some_text, no_section, no_comment, some_name) = front_tests name tail entry.name.front in
    rw (skip_space-name name tail entry.name.front, some_text, no_section)
      (ap (find_section_header f) (entry_line name v rest entry))
  where
    entry_line :
        (name' v' rest' : Bytes)
        → IsEntry (name', v')
        → next_line (name' ++ (b'=' ∷ (quoted v' ++ (newline ∷ rest')))) ≡ rest'
    entry_line name' v' rest' e =
        let line : IsOneLine (name' ++ (b'=' ∷ quoted v')) =
          IsOneLine-append name' (b'=' ∷ quoted v') (names-IsOneLine name' e.name.inner) (
            refl,
            (
              refl,
              IsOneLine-append (escape v') (b'"' ∷ []) (escape-IsOneLine v' e.one_line) (refl, tt),
            ),
          ) in
        let shape : name' ++ (b'=' ∷ (quoted v' ++ (newline ∷ rest')))
            ≡ (name' ++ (b'=' ∷ quoted v')) ++ (newline ∷ rest') =
          sym (append_assoc name' (b'=' ∷ quoted v') (newline ∷ rest')) in
        ap next_line shape ∙ next_line-line (name' ++ (b'=' ∷ quoted v')) rest' line

-- A section's body is passed over.
pub skip_body :
    (l : List (Bytes × Bytes)) (f : ℕ) (rest : Bytes) (r : Option Bytes)
    → All IsEntry l
    → length l < f
    → ((k : ℕ) → find_section_header (suc k) rest ≡ r)
    → find_section_header f (written l ++ rest) ≡ r
unfolding written
skip_body l zero rest r entries h found = absurd (omega arith)
skip_body [] (suc f) rest r entries h found = found f
skip_body ((name, v) ∷ l) (suc f) rest r entries h found =
    rw (append_assoc, append_assoc)
      (skip_entry f name v (written l ++ rest) entries.0
        ∙ skip_body l f rest r entries.1 (omega arith) found)

-- A file with a line for the header of each section.
unfoldable pub written_file : List (Bytes × List (Bytes × Bytes)) → Bytes
written_file [] = []
written_file ((title, l) ∷ ds) = b'[' ∷ (title ++ (b']' ∷ newline ∷ (written l ++ written_file ds)))

pub record IsTitled (d : Bytes × List (Bytes × Bytes)) : Type 0 where
  pub title_line : IsOneLine d.0
  pub no_bracket : All (λ c. (c == b']') ≡ false) d.0
  pub entries : All IsEntry d.1

pub skip_ne-bracket :
    (title rest : Bytes)
    → All (λ c. (c == b']') ≡ false) title
    → skip_ne (title ++ (b']' ∷ rest)) b']' ≡ b']' ∷ rest
unfolding skip_while
skip_ne-bracket [] rest h = refl
skip_ne-bracket (c ∷ title) rest h = rw h.0 (skip_ne-bracket title rest h.1)

pub before-bracket :
    (title rest : Bytes)
    → All (λ c. (c == b']') ≡ false) title
    → before (λ c. c == b']') (title ++ (b']' ∷ rest)) ≡ title
unfolding before
before-bracket [] rest h = refl
before-bracket (c ∷ title) rest h = rw h.0 (ap (◌∷◌ c) (before-bracket title rest h.1))

-- The line of a header.
module _ (title rest : Bytes) (line : IsOneLine title)
    (plain : All (λ c. (c == b']') ≡ false) title) where
  pub header_line :
      before (λ c. c == newline) (title ++ (b']' ∷ newline ∷ rest)) ≡ title ++ (b']' ∷ [])
  header_line =
      ap (before (λ c. c == newline)) (sym (append_assoc title (b']' ∷ []) (newline ∷ rest)))
      ∙ before-line (title ++ (b']' ∷ [])) rest (IsOneLine-append title (b']' ∷ []) line (refl, tt))

  pub behind_header : next_line (title ++ (b']' ∷ newline ∷ rest)) ≡ rest
  behind_header =
      ap next_line (sym (append_assoc title (b']' ∷ []) (newline ∷ rest)))
      ∙ next_line-line (title ++ (b']' ∷ [])) rest
          (IsOneLine-append title (b']' ∷ []) line (refl, tt))

  pub closes_header-line : closes_header (title ++ (b']' ∷ newline ∷ rest)) ≡ true
  unfolding closes_header
  closes_header-line =
      rw (header_line, skip_ne-bracket title [] plain)
        (ground (arith, length-append {0} title (b']' ∷ [])))
