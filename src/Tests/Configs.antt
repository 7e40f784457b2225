-- ===== src/Tests/Configs.antt =====
-- Configuration files.
use trn.Base.Int.{pos}
use trn.Ini.Schema.Last.{IsLast, parse_ini_section-IsLast}
use trn.Ini.Schema.{IniField, lookup_key, find_field, said, last_said, parse_ini_section}
use trn.Base.{true, some, ◌≡◌, refl, List, [], ◌∷◌, ◌++◌, Bytes, codes, length, map, suc}
use trn.Ini.{
  IniSetting, value, value_loop, append_escape, octal_digits, hex_digits, trim_right, newline,
  before, next_line,
}
use trn.Ini.Document.{
  sections, advance_section, read_section, find_section_header, closes_header, condition_text,
}
use trn.Ini.File.{read_of, sections-values}
use trn.Ini.Header.{IsTitled, written_file}
use trn.Ini.Section.{IsName}
use trn.Text.{skip_while}

octal_and_blanks : value (codes "  a\\101 b  # c") ≡ codes "aA b"
unfolding value value_loop append_escape octal_digits hex_digits trim_right skip_while
octal_and_blanks = refl

-- Two sections, the second without settings.
abbrev file : List (Bytes × List (Bytes × Bytes))
file =
    (codes "options", (codes "Erase Screen", codes "a \"b\" \\") ∷ (codes "n", []) ∷ [])
    ∷ (codes "keys", [])
    ∷ []

screen-IsName : IsName (codes "Erase Screen")
unfolding trim_right skip_while
screen-IsName = record {
  front = refl;
  inner = (
    refl,
    (refl, (refl, (refl, (refl, (refl, (refl, (refl, (refl, (refl, (refl, (refl, tt))))))))))),
  );
  ends = refl;
}

n-IsName : IsName (codes "n")
unfolding trim_right skip_while
n-IsName = record { front = refl; inner = (refl, tt); ends = refl }

options-IsTitled :
    IsTitled (codes "options", (codes "Erase Screen", codes "a \"b\" \\") ∷ (codes "n", []) ∷ [])
options-IsTitled = record {
  title_line = (refl, (refl, (refl, (refl, (refl, (refl, (refl, tt)))))));
  no_bracket = (refl, (refl, (refl, (refl, (refl, (refl, (refl, tt)))))));
  entries = (
    record {
      name = screen-IsName;
      one_line = (refl, (refl, (refl, (refl, (refl, (refl, (refl, tt)))))));
    },
    (record { name = n-IsName; one_line = tt }, tt),
  );
}

keys-IsTitled : IsTitled (codes "keys", [])
keys-IsTitled = record {
  title_line = (refl, (refl, (refl, (refl, tt))));
  no_bracket = (refl, (refl, (refl, (refl, tt))));
  entries = tt;
}

sections-values_example :
    map read_of (sections (suc (length (written_file file))) (written_file file)) ≡ file
sections-values_example = sections-values file (options-IsTitled, (keys-IsTitled, tt))

-- A value in quotes may go over lines, but a line in it that looks like a header begins a section.
abbrev broken : Bytes
broken =
    codes "[a]"
    ++ (newline ∷ (codes "k=\"x" ++ (newline ∷ (codes "[b]" ++ (newline ∷ codes "\"")))))

broken_value : map (λ s. s.m_name) (sections 9 broken) ≡ codes "a" ∷ codes "b" ∷ []
unfolding sections advance_section read_section find_section_header closes_header condition_text
    trim_right skip_while before next_line
broken_value = refl

-- Two fields; a setting names one of them in another case, and a later one names it again.
abbrev schema : List IniField
schema =
    record { m_id = pos 1; field_name = codes "Background Spinner"; is_value = true }
    ∷ record { m_id = pos 2; field_name = codes "Charsets"; is_value = true }
    ∷ []

abbrev twice : List IniSetting
twice =
    record { m_name = codes "charsets"; m_raw_value = codes " latin1" }
    ∷ record { m_name = codes "Charsets"; m_raw_value = codes " 'utf-8' # the same" }
    ∷ record { m_name = codes "CHARSETS"; m_raw_value = [] }
    ∷ []

the_later_one : last_said schema (pos 2) twice ≡ some (codes "utf-8")
unfolding last_said said find_field lookup_key value value_loop append_escape octal_digits
    hex_digits trim_right skip_while
the_later_one = refl

parse_ini_section-IsLast_example :
    IsLast schema (pos 2) twice ((parse_ini_section schema twice).1 (pos 2))
parse_ini_section-IsLast_example = parse_ini_section-IsLast schema twice (pos 2)
