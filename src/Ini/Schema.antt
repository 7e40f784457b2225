-- ===== src/Ini/Schema.antt =====
-- Which settings of a section count: `IniSchema` of libtrn/IniSchema.cpp, `IniSectionValues` of
-- libtrn/IniSectionValues.cpp and `parse_ini_section` of libtrn/util.cpp, but for its message.
pub mod Last
use trn.Base.{
  Bool, true, false, not, ◌&&◌, ◌≡◌, refl, ap, sym, ◌∙◌, Option, none, some, List, [], ◌∷◌, Bytes,
  ◌==◌, if◌then◌else◌, equal, length, map, Bool-cases, Option-cases, inl, inr, arith,
}
use trn.Base.Int.{ℤ, eqb_ℤ}
use trn.Ini.{IniSetting, value}
use trn.Text.{to_lower}

pub record IniField : Type 0 where
  pub m_id : ℤ
  pub field_name : Bytes
  pub is_value : Bool

unfoldable pub lookup_key : Bytes → Bytes
lookup_key name = map to_lower name

-- The schema's lookup holds the last field that is a value and has the key.
unfoldable pub find_field : List IniField → Bytes → Option IniField
find_field [] name = none
find_field (field ∷ fields) name = elim (find_field fields name) [
  | some later ↦ some later
  | none ↦
      if field.is_value && equal (lookup_key field.field_name) (lookup_key name)
      then some field
      else none
]

-- `m_values`
abbrev pub IniSectionValues : Type 0
IniSectionValues = ℤ → Option Bytes

-- `IniSectionValues::set`
unfoldable pub set_value : IniSectionValues → IniField → Bytes → IniSectionValues
set_value values field text =
    if not field.is_value
    then values
    else (λ id. if eqb_ℤ id field.m_id then some text else values id)

-- What a setting whose value is not empty does.
unfoldable pub enter_setting : List IniField → IniSetting → IniSectionValues → IniSectionValues
enter_setting schema setting values = elim (find_field schema setting.m_name) [
  | none ↦ values
  | some field ↦ set_value values field (value setting.m_raw_value)
]

unfoldable pub parse_loop :
    List IniField → List IniSetting → Bool × IniSectionValues → Bool × IniSectionValues
parse_loop schema [] found = found
parse_loop schema (setting ∷ rest) found = parse_loop schema rest (
    if length (value setting.m_raw_value) == 0
    then found
    else (true, enter_setting schema setting found.1))

-- The result, and the values.
unfoldable pub parse_ini_section : List IniField → List IniSetting → Bool × IniSectionValues
parse_ini_section schema settings = parse_loop schema settings (false, λ id. none)

-- What one setting says of a field, and which setting counts: the last one that says something.
unfoldable pub said : List IniField → ℤ → IniSetting → Option Bytes
said schema id setting =
    let text = value setting.m_raw_value in
    elim (find_field schema setting.m_name) [
      | none ↦ none
      | some field ↦
          if (not (length text == 0) && field.is_value) && eqb_ℤ id field.m_id
          then some text
          else none
    ]

abbrev pub or_else : Option Bytes → Option Bytes → Option Bytes
or_else (some v) w = some v
or_else none w = w

unfoldable pub last_said : List IniField → ℤ → List IniSetting → Option Bytes
last_said schema id [] = none
last_said schema id (setting ∷ rest) = or_else (last_said schema id rest) (said schema id setting)

or_else_assoc : (a b c : Option Bytes) → or_else (or_else a b) c ≡ or_else a (or_else b c)
or_else_assoc (some v) b c = refl
or_else_assoc none b c = refl

module _ (schema : List IniField) (setting : IniSetting) (id : ℤ) where
  said-empty : (length (value setting.m_raw_value) == 0) ≡ true → said schema id setting ≡ none
  unfolding said
  said-empty empty = elim (Option-cases (find_field schema setting.m_name)) [
    | inl unknown ↦ rw (unknown, said) refl
    | inr (field, known) ↦ rw (known, empty, said) refl
  ]

  enter_setting-said :
      (values : IniSectionValues)
      → (length (value setting.m_raw_value) == 0) ≡ false
      → enter_setting schema setting values id ≡ or_else (said schema id setting) (values id)
  unfolding enter_setting said set_value
  enter_setting-said values given = elim (Option-cases (find_field schema setting.m_name)) [
    | inl unknown ↦ rw (unknown, said, enter_setting) refl
    | inr (field, known) ↦ rw (known, given, said, enter_setting) (by_field field)
  ]
    where
      by_field :
          (field : IniField)
          → set_value values field (value setting.m_raw_value) id
            ≡ or_else
                (if field.is_value && eqb_ℤ id field.m_id
                  then some (value setting.m_raw_value)
                  else none)
                (values id)
      by_field field = ground arith

-- One setting, and the rest.
module _ (schema : List IniField) (setting : IniSetting) (rest : List IniSetting)
    (found : Bool × IniSectionValues) where
  parse_loop-empty :
      (length (value setting.m_raw_value) == 0) ≡ true
      → parse_loop schema (setting ∷ rest) found ≡ parse_loop schema rest found
  unfolding parse_loop
  parse_loop-empty empty = rw (empty, parse_loop) refl

  parse_loop-given :
      (length (value setting.m_raw_value) == 0) ≡ false
      → parse_loop schema (setting ∷ rest) found
        ≡ parse_loop schema rest (true, enter_setting schema setting found.1)
  unfolding parse_loop
  parse_loop-given given = rw (given, parse_loop) refl

parse_loop-last_said :
    (schema : List IniField) (settings : List IniSetting) (found : Bool × IniSectionValues) (id : ℤ)
    → (parse_loop schema settings found).1 id ≡ or_else (last_said schema id settings) (found.1 id)
unfolding last_said
parse_loop-last_said schema [] found id = unfold parse_loop in refl
parse_loop-last_said schema (setting ∷ rest) found id =
    let l = last_said schema id rest in
    elim (Bool-cases (length (value setting.m_raw_value) == 0)) [
      | inl empty ↦
          ap (λ p. p.1 id) (parse_loop-empty schema setting rest found empty)
          ∙ parse_loop-last_said schema rest found id
          ∙ sym (or_else_assoc l none (found.1 id))
          ∙ ap (λ o. or_else (or_else l o) (found.1 id)) (sym (said-empty schema setting id empty))
      | inr given ↦
          ap (λ p. p.1 id) (parse_loop-given schema setting rest found given)
          ∙ parse_loop-last_said schema rest (true, enter_setting schema setting found.1) id
          ∙ ap (or_else l) (enter_setting-said schema setting id found.1 given)
          ∙ sym (or_else_assoc l (said schema id setting) (found.1 id))
    ]

-- The loop leaves what the last setting that says something says.
pub parse_ini_section-last_said :
    (schema : List IniField) (settings : List IniSetting) (id : ℤ)
    → (parse_ini_section schema settings).1 id ≡ last_said schema id settings
unfolding parse_ini_section
parse_ini_section-last_said schema settings id =
    parse_loop-last_said schema settings (false, λ i. none) id
    ∙ or_else-none (last_said schema id settings)
  where
    or_else-none : (o : Option Bytes) → or_else o none ≡ o
    or_else-none (some v) = refl
    or_else-none none = refl
