-- ===== src/Ini/Schema/Last.antt =====
-- What counts of the settings of a section, for `parse_ini_section` of libtrn/util.cpp and the lookup
-- of libtrn/IniSchema.cpp.
use trn.Base.{
  ℕ, ◌+◌, ◌≤◌, Bool, true, false, not, ◌&&◌, All, ◌≡◌, ◌⊎◌, ◌↔◌, refl, ap, sym, ◌∙◌, Option, none,
  some, List, [], ◌∷◌, Bytes, ◌==◌, if◌then◌else◌, equal, length, Bool-cases, Option-cases, inl,
  inr, arith,
}
use mathlib.Core.Option.{some-injective, none-ne-some}
use mathlib.Core.Path.{subst}
use trn.Base.Int.{ℤ, eqb_ℤ, eqb_ℤ_iff}
use trn.Ini.{IniSetting, value}
use trn.Ini.Schema.{
  IniField, lookup_key, find_field, said, last_said, parse_ini_section, parse_ini_section-last_said,
}
use trn.Text.{to_lower}

-- A letter and itself, or the same letter as a capital.
abbrev pub IsSameLetter : ℕ → ℕ → Type 0
IsSameLetter c d =
    (c ≡ d) ⊎ (((b'A' ≤ c) × (c ≤ b'Z') × (d ≡ c + 32)) ⊎ ((b'A' ≤ d) × (d ≤ b'Z') × (c ≡ d + 32)))

abbrev pub IsSameName : Bytes → Bytes → Type 0
IsSameName [] [] = Unit
IsSameName [] (d ∷ t) = ⊥
IsSameName (c ∷ s) [] = ⊥
IsSameName (c ∷ s) (d ∷ t) = IsSameLetter c d × IsSameName s t

-- The field is the last one of the schema that is a value and has the name.
abbrev pub IsMatch : Bytes → IniField → Type 0
IsMatch name field = (field.is_value ≡ true) × IsSameName field.field_name name

pub data IsField (name : Bytes) (field : IniField) : List IniField → Type 0 where
  here :
      (fields : List IniField)
      → IsMatch name field
      → All (λ later. ¬ IsMatch name later) fields
      → IsField name field (field ∷ fields)
  there :
      (first : IniField) {fields : List IniField}
      → IsField name field fields
      → IsField name field (first ∷ fields)

-- The setting names the field `id`, with a value that is not empty.
pub record Says (schema : List IniField) (id : ℤ) (setting : IniSetting) (text : Bytes)
    : Type 0 where
  pub ini_field : IniField
  pub is_field : IsField setting.m_name ini_field schema
  pub same_id : id ≡ ini_field.m_id
  pub given : (length text == 0) ≡ false
  pub same_text : value setting.m_raw_value ≡ text

-- The last setting that says something of the field counts.
pub data IsLast (schema : List IniField) (id : ℤ) : List IniSetting → Option Bytes → Type 0 where
  nothing : IsLast schema id [] none
  silent :
      (setting : IniSetting) {rest : List IniSetting}
      → ((text : Bytes) → ¬ Says schema id setting text)
      → IsLast schema id rest none
      → IsLast schema id (setting ∷ rest) none
  last :
      (setting : IniSetting) {rest : List IniSetting} (text : Bytes)
      → Says schema id setting text
      → IsLast schema id rest none
      → IsLast schema id (setting ∷ rest) (some text)
  later :
      (setting : IniSetting) {rest : List IniSetting} (text : Bytes)
      → IsLast schema id rest (some text)
      → IsLast schema id (setting ∷ rest) (some text)

same_letter : (c d : ℕ) → ((to_lower c == to_lower d) ≡ true) ↔ IsSameLetter c d
same_letter c d = ground arith

same_name : (a b : Bytes) → (equal (lookup_key a) (lookup_key b) ≡ true) ↔ IsSameName a b
unfolding lookup_key
same_name [] [] = (λ h. tt, λ h. refl)
same_name [] (d ∷ t) = (λ h. absurd (ground arith), λ h. absurd h)
same_name (c ∷ s) [] = (λ h. absurd (ground arith), λ h. absurd h)
same_name (c ∷ s) (d ∷ t) = (
  λ h. ((same_letter c d).0 (ground arith), (same_name s t).0 (ground arith)),
  λ (a, b). let x = (same_letter c d).1 a in let y = (same_name s t).1 b in ground (arith, x, y),
)

-- The test of a field in the lookup.
abbrev is_match : Bytes → IniField → Bool
is_match name field = field.is_value && equal (lookup_key field.field_name) (lookup_key name)

is_match_iff : (name : Bytes) (field : IniField) → (is_match name field ≡ true) ↔ IsMatch name field
is_match_iff name field = (
  λ h. (ground arith, (same_name field.field_name name).0 (ground arith)),
  λ (v, same). let e = (same_name field.field_name name).1 same in ground arith,
)

find_field-none :
    (fields : List IniField) (name : Bytes)
    → find_field fields name ≡ none
    → All (λ later. ¬ IsMatch name later) fields
unfolding find_field
find_field-none [] name h = tt
find_field-none (field ∷ fields) name h = elim (Option-cases (find_field fields name)) [
  | inl missing ↦ elim (Bool-cases (is_match name field)) [
    | inl match ↦ absurd (none-ne-some _ (sym (rw (missing, match, find_field) at h)))
    | inr other ↦ (
      λ m. let match = (is_match_iff name field).1 m in absurd (ground (arith, match, other)),
      find_field-none fields name missing,
    )
  ]
  | inr (f, found) ↦ absurd (none-ne-some _ (sym (rw (found, find_field) at h)))
]

find_field-missing :
    (fields : List IniField) (name : Bytes)
    → All (λ later. ¬ IsMatch name later) fields
    → find_field fields name ≡ none
unfolding find_field
find_field-missing [] name h = refl
find_field-missing (field ∷ fields) name (other, h) = elim (Bool-cases (is_match name field)) [
  | inl match ↦ absurd (other ((is_match_iff name field).0 match))
  | inr differs ↦ rw (find_field-missing fields name h, differs) refl
]

find_field-IsField :
    (name : Bytes) (field : IniField) {fields : List IniField}
    → IsField name field fields
    → find_field fields name ≡ some field
unfolding find_field
find_field-IsField name field (IsField.here fields match none_later) =
    rw (find_field-missing fields name none_later, (is_match_iff name field).1 match) refl
find_field-IsField name field (IsField.there first {fields} h) =
    rw (find_field-IsField name field h) refl

find_field-some :
    (fields : List IniField) (name : Bytes) (field : IniField)
    → find_field fields name ≡ some field
    → IsField name field fields
unfolding find_field
find_field-some [] name field h = absurd (none-ne-some _ h)
find_field-some (first ∷ fields) name field h = elim (Option-cases (find_field fields name)) [
  | inl missing ↦ elim (Bool-cases (is_match name first)) [
    | inl match ↦
        let same : first ≡ field = some-injective _ _ (rw (missing, match, find_field) at h) in
        subst (λ f. IsField name f (first ∷ fields)) same
          (IsField.here fields ((is_match_iff name first).0 match)
            (find_field-none fields name missing))
    | inr other ↦ absurd (none-ne-some _ (rw (missing, other, find_field) at h))
  ]
  | inr (f, found) ↦
      let same : f ≡ field = some-injective _ _ (rw (found, find_field) at h) in
      IsField.there first (find_field-some fields name field (found ∙ ap some same))
]

IsField-is_value :
    (name : Bytes) (field : IniField) {fields : List IniField}
    → IsField name field fields
    → field.is_value ≡ true
IsField-is_value name field (IsField.here fields match none_later) = match.0
IsField-is_value name field (IsField.there first h) = IsField-is_value name field h

module _ (schema : List IniField) (id : ℤ) (setting : IniSetting) where
  Says-said : (text : Bytes) → Says schema id setting text → said schema id setting ≡ some text
  unfolding said
  Says-said text says =
      let found = find_field-IsField setting.m_name says.ini_field says.is_field in
      let is_value = IsField-is_value setting.m_name says.ini_field says.is_field in
      let same_id : eqb_ℤ id says.ini_field.m_id ≡ true =
        (eqb_ℤ_iff id says.ini_field.m_id).1 says.same_id in
      rw (found, said) (rw (says.same_text, says.given, is_value, same_id) refl)

  said-Says : (text : Bytes) → said schema id setting ≡ some text → Says schema id setting text
  unfolding said
  said-Says text e = elim (Option-cases (find_field schema setting.m_name)) [
    | inl missing ↦ absurd (none-ne-some _ (rw (missing, said) at e))
    | inr (field, found) ↦ by_field field found (rw (found, said) at e)
  ]
    where
      by_field :
          (field : IniField)
          → find_field schema setting.m_name ≡ some field
          → (if (not (length (value setting.m_raw_value) == 0) && field.is_value)
                && eqb_ℤ id field.m_id
              then some (value setting.m_raw_value)
              else none)
            ≡ some text
          → Says schema id setting text
      by_field field found e' =
          elim (Bool-cases (
            (not (length (value setting.m_raw_value) == 0) && field.is_value)
            && eqb_ℤ id field.m_id)) [
              | inl speaks ↦
                  let same : value setting.m_raw_value ≡ text =
                    some-injective _ _ (rw speaks at e') in
                  record {
                    ini_field = field;
                    is_field = find_field-some schema setting.m_name field found;
                    same_id = (eqb_ℤ_iff id field.m_id).0 (ground arith);
                    given =
                        let full : (length (value setting.m_raw_value) == 0) ≡ false =
                          ground arith in
                        rw same at full;
                    same_text = same;
                  }
              | inr says_nothing ↦ absurd (none-ne-some _ (rw says_nothing at e'))
            ]

IsLast-last_said :
    (schema : List IniField) (id : ℤ) (settings : List IniSetting)
    → IsLast schema id settings (last_said schema id settings)
unfolding last_said
IsLast-last_said schema id [] = IsLast.nothing
IsLast-last_said schema id (setting ∷ rest) =
    let h = IsLast-last_said schema id rest in
    elim (Option-cases (last_said schema id rest)) [
      | inl none_later ↦ elim (Option-cases (said schema id setting)) [
        | inl silent_here ↦
            rw (none_later, silent_here)
              (IsLast.silent setting
                (λ text says.
                  absurd (none-ne-some _ (sym silent_here ∙ Says-said schema id setting text says)))
                (rw none_later at h))
        | inr (text, e) ↦
            rw (none_later, e)
              (IsLast.last setting text (said-Says schema id setting text e) (rw none_later at h))
      ]
      | inr (text, e) ↦ rw e (IsLast.later setting text (rw e at h))
    ]

-- The value of a field is that of the last setting that says something of it: it has a value that is
-- not empty, and of the schema's fields that are values and have its name, but for the case of the
-- letters, the field is the last one. Where no setting does, the field has no value.
pub parse_ini_section-IsLast :
    (schema : List IniField) (settings : List IniSetting) (id : ℤ)
    → IsLast schema id settings ((parse_ini_section schema settings).1 id)
parse_ini_section-IsLast schema settings id =
    subst (IsLast schema id settings) (sym (parse_ini_section-last_said schema settings id))
      (IsLast-last_said schema id settings)
