-- ===== src/Ini/File.antt =====
-- A whole configuration file, for libtrn/IniDocument.cpp.
use trn.Base.{
  ℕ, zero, suc, ◌-◌, ◌≤◌, ◌<◌, false, Option, none, some, List, [], ◌∷◌, ◌++◌, Bytes, All, ◌==◌,
  length, take, map, ◌≡◌, refl, ◌∙◌, ap, arith, length-append,
}
use trn.Ini.{is_space_not_newline, newline, trim_right, settings, value}
use trn.Ini.Document.{
  IniSection, find_section_header, condition_text, read_section, advance_section, sections,
}
use trn.Ini.Section.{IsName, written, settings-values}
use trn.Ini.Value.{quoted}
use trn.Text.{skip_while, skip_space}
use trn.Ini.Header.{
  IsEntry, IsTitled, written_file, skip_body, skip_ne-bracket, before-bracket, header_line,
  behind_header, closes_header-line,
}

-- The next header, if a section is left.
abbrev header_of : List (Bytes × List (Bytes × Bytes)) → Option Bytes
header_of [] = none
header_of (d ∷ ds) = some (written_file (d ∷ ds))

bracket_space : (s : Bytes) → skip_space (b'[' ∷ s) ≡ b'[' ∷ s
unfolding skip_while
bracket_space s = refl

find-written_file :
    (ds : List (Bytes × List (Bytes × Bytes))) (k : ℕ)
    → All IsTitled ds
    → find_section_header (suc k) (written_file ds) ≡ header_of ds
unfolding find_section_header written_file
find-written_file [] k titled = unfold skip_while in refl
find-written_file ((title, l) ∷ ds) k titled =
    let closes =
      closes_header-line title (written l ++ written_file ds) titled.0.title_line
        titled.0.no_bracket in
    let more : (length (b'[' ∷ (title ++ (b']' ∷ newline ∷ (written l ++ written_file ds)))) == 0)
        ≡ false =
      ground arith in
    rw (bracket_space, more, closes) refl

take-prefix : (a b : Bytes) → take (length (a ++ b) - length b) (a ++ b) ≡ a
take-prefix a b =
    ap (λ n. take n (a ++ b)) {y = length a} (omega (arith, length-append {0} a b)) ∙ exact a b
  where
    exact : (s t : Bytes) → take (length s) (s ++ t) ≡ s
    exact [] t = refl
    exact (c ∷ s) t = ap (◌∷◌ c) (exact s t)

abbrev text_of : Option Bytes → Bytes
text_of o = elim o [ none ↦ [] | some s ↦ s ]

text_of-header :
    (ds : List (Bytes × List (Bytes × Bytes))) → text_of (header_of ds) ≡ written_file ds
text_of-header [] = unfold written_file in refl
text_of-header (d ∷ ds) = refl

length-entries : (l : List (Bytes × Bytes)) → length l ≤ length (written l)
unfolding written
length-entries [] = omega arith
length-entries ((name, v) ∷ l) = omega (
  arith,
  length-append {0} name (b'=' ∷ (quoted v ++ (newline ∷ written l))),
  length-append {0} (quoted v) (newline ∷ written l),
  length-entries l,
)

abbrev section_of : Bytes × List (Bytes × Bytes) → IniSection
section_of d = record { m_name = d.0; m_condition = []; m_body = written d.1 }

no_condition : trim_right (condition_text 0 (skip_while is_space_not_newline [])) ≡ []
unfolding trim_right condition_text skip_while
no_condition = refl

read_section-written :
    (title : Bytes) (l : List (Bytes × Bytes)) (ds : List (Bytes × List (Bytes × Bytes)))
    → IsTitled (title, l)
    → All IsTitled ds
    → read_section (b'[' ∷ (title ++ (b']' ∷ newline ∷ (written l ++ written_file ds))))
      ≡ (section_of (title, l), written_file ds)
unfolding read_section
read_section-written title l ds t titled =
    let body = written l ++ written_file ds in
    let found =
      skip_body l (suc (length body)) (written_file ds) (header_of ds) t.entries
        (omega (arith, length-append {0} (written l) (written_file ds), length-entries l))
        (λ k. find-written_file ds k titled) in
    rw
      (
        header_line title body t.title_line t.no_bracket,
        behind_header title body t.title_line t.no_bracket,
        skip_ne-bracket title [] t.no_bracket,
        before-bracket title (newline ∷ body) t.no_bracket,
        found,
        text_of-header ds,
        no_condition,
        take-prefix (written l) (written_file ds),
      )
      refl

written_file-cons :
    (title : Bytes) (l : List (Bytes × Bytes)) (ds : List (Bytes × List (Bytes × Bytes)))
    → written_file ((title, l) ∷ ds)
      ≡ b'[' ∷ (title ++ (b']' ∷ newline ∷ (written l ++ written_file ds)))
unfolding written_file
written_file-cons title l ds = refl

advance_section-written :
    (title : Bytes) (l : List (Bytes × Bytes)) (ds : List (Bytes × List (Bytes × Bytes)))
    → IsTitled (title, l)
    → All IsTitled ds
    → advance_section (written_file ((title, l) ∷ ds))
      ≡ some (section_of (title, l), written_file ds)
unfolding advance_section
advance_section-written title l ds t titled =
    rw
      (
        find-written_file ((title, l) ∷ ds) (length (written_file ((title, l) ∷ ds))) (t, titled),
        advance_section,
      )
      (ap some
        (ap read_section (written_file-cons title l ds) ∙ read_section-written title l ds t titled))

advance_section-empty : advance_section (written_file []) ≡ none
unfolding advance_section
advance_section-empty =
    rw (find-written_file [] (length (written_file [])) tt, advance_section) refl

sections-written :
    (ds : List (Bytes × List (Bytes × Bytes))) (f : ℕ)
    → length ds < f
    → All IsTitled ds
    → sections f (written_file ds) ≡ map section_of ds
unfolding sections
sections-written ds zero h titled = absurd (omega arith)
sections-written [] (suc f) h titled = rw (advance_section-empty, sections) refl
sections-written ((title, l) ∷ ds) (suc f) h titled =
    rw (advance_section-written title l ds titled.0 titled.1, sections)
      (ap (◌∷◌ (section_of (title, l))) (sections-written ds f (omega arith) titled.1))

length-written_file :
    (ds : List (Bytes × List (Bytes × Bytes))) → length ds ≤ length (written_file ds)
unfolding written_file
length-written_file [] = omega arith
length-written_file ((title, l) ∷ ds) = omega (
  arith,
  length-append {0} title (b']' ∷ newline ∷ (written l ++ written_file ds)),
  length-append {0} (written l) (written_file ds),
  length-written_file ds,
)

-- What a reader takes from a section.
abbrev pub read_of : IniSection → Bytes × List (Bytes × Bytes)
read_of s = (
  s.m_name,
  map (λ x. (x.m_name, value x.m_raw_value)) (settings (suc (length s.m_body)) s.m_body),
)

map-section_of :
    (ds : List (Bytes × List (Bytes × Bytes)))
    → All IsTitled ds
    → map read_of (map section_of ds) ≡ ds
map-section_of [] titled = refl
map-section_of ((title, l) ∷ ds) titled =
    rw (settings-values l (entry_names l titled.0.entries))
      (ap (◌∷◌ (title, l)) (map-section_of ds titled.1))
  where
    entry_names : (m : List (Bytes × Bytes)) → All IsEntry m → All (λ x. IsName x.0) m
    entry_names [] h = tt
    entry_names (x ∷ m) h = (h.0.name, entry_names m h.1)

-- A file that is written with a line for each header and each setting, the values in quotes, is read
-- as its sections and their settings: the titles have no bracket that closes, the names are such
-- that an equals sign can follow, and nothing extends over the end of its line.
pub sections-values :
    (ds : List (Bytes × List (Bytes × Bytes)))
    → All IsTitled ds
    → map read_of (sections (suc (length (written_file ds))) (written_file ds)) ≡ ds
sections-values ds titled =
    rw
      (sections-written ds (suc (length (written_file ds))) (omega (arith, length-written_file ds))
        titled)
      (map-section_of ds titled)
