-- ===== src/Ini/Section.antt =====
-- Settings that are written into a section, for libtrn/IniSection.cpp.
use trn.Base.{
  ℕ, zero, suc, ◌≤◌, ◌<◌, Bool, true, false, not, ◌&&◌, some, List, [], ◌∷◌, ◌++◌, Bytes, All, ◌==◌,
  length, map, ◌≡◌, refl, ap, arith, append_assoc, length-append, Bool-cases, inl, inr,
}
use trn.Ini.{
  newline, IniSetting, ends_name, before, trim_right, find_value_end, advance, settings, value,
}
use trn.Ini.Value.{must_escape, escape, quoted, value-quoted}
use trn.Text.{is_space, front_is, skip_while, skip_space}

-- A name that can stand before an equals sign.
abbrev pub begins_name : ℕ → Bool
begins_name c = not (is_space c) && (not (c == b'[') && not (c == b'#'))

pub record IsName (name : Bytes) : Type 0 where
  pub front : front_is begins_name name ≡ true
  pub inner : All (λ c. ends_name c ≡ false) name
  pub ends : trim_right name ≡ name

-- A section's body with a line for each name and value.
unfoldable pub written : List (Bytes × Bytes) → Bytes
written [] = []
written ((name, v) ∷ l) = name ++ (b'=' ∷ (quoted v ++ (newline ∷ written l)))

before-name :
    (name s : Bytes)
    → All (λ c. ends_name c ≡ false) name
    → before ends_name (name ++ (b'=' ∷ s)) ≡ name
unfolding before
before-name [] s h = refl
before-name (c ∷ name) s h = rw h.0 (ap (◌∷◌ c) (before-name name s h.1))

skip-name :
    (name s : Bytes)
    → All (λ c. ends_name c ≡ false) name
    → skip_while (λ c. not (ends_name c)) (name ++ (b'=' ∷ s)) ≡ b'=' ∷ s
unfolding skip_while
skip-name [] s h = refl
skip-name (c ∷ name) s h = rw h.0 (skip-name name s h.1)

pub skip_space-name :
    (name s : Bytes) → front_is begins_name name ≡ true → skip_space (name ++ s) ≡ name ++ s
unfolding skip_while
skip_space-name [] s h = cc
skip_space-name (c ∷ name) s h =
    let no_space : is_space c ≡ false = ground arith in rw no_space refl

-- The value in quotes ends at the newline behind it.
module _ (c : ℕ) (s v rest : Bytes) where
  find_value_end-plain :
      must_escape c ≡ false
      → find_value_end false b'"' s ≡ (v, rest)
      → find_value_end false b'"' (c ∷ s) ≡ (c ∷ v, rest)
  unfolding find_value_end
  find_value_end-plain h e =
      let no_quote : (c == b'"') ≡ false = ground arith in
      let no_escape : (c == b'\\') ≡ false = ground arith in rw (no_quote, no_escape, e) refl

  find_value_end-special :
      find_value_end false b'"' s ≡ (v, rest)
      → find_value_end false b'"' (b'\\' ∷ c ∷ s) ≡ (b'\\' ∷ c ∷ v, rest)
  unfolding find_value_end
  find_value_end-special e = rw e refl

find_value_end-escape :
    (v rest : Bytes)
    → find_value_end false b'"' (escape v ++ (b'"' ∷ newline ∷ rest))
      ≡ (escape v ++ (b'"' ∷ []), newline ∷ rest)
unfolding escape
find_value_end-escape [] rest = unfold find_value_end in refl
find_value_end-escape (c ∷ v) rest = elim (Bool-cases (must_escape c)) [
  | inl special ↦
      rw special (find_value_end-special c _ _ (newline ∷ rest) (find_value_end-escape v rest))
  | inr plain ↦
      rw plain (find_value_end-plain c _ _ (newline ∷ rest) plain (find_value_end-escape v rest))
]

find_value_end-quoted :
    (v rest : Bytes)
    → find_value_end false 0 (quoted v ++ (newline ∷ rest)) ≡ (quoted v, newline ∷ rest)
unfolding find_value_end
find_value_end-quoted v rest = rw (append_assoc, find_value_end-escape v rest) refl

pub front_tests :
    (name s : Bytes)
    → front_is begins_name name ≡ true
    → ((length (name ++ s) == 0) ≡ false)
      × (front_is (λ c. c == b'[') (name ++ s) ≡ false)
      × (front_is (λ c. c == b'#') (name ++ s) ≡ false)
      × ((length name == 0) ≡ false)
front_tests [] s h = cc
front_tests (c ∷ name) s h = (ground arith, ground arith, ground arith, ground arith)

advance-written :
    (f : ℕ) (name v rest : Bytes)
    → IsName name
    → advance (suc f) (name ++ (b'=' ∷ (quoted v ++ (newline ∷ rest))))
      ≡ some (record { m_name = name; m_raw_value = quoted v }, rest)
unfolding advance
advance-written f name v rest h =
    let tail = quoted v ++ (newline ∷ rest) in
    let (some_text, no_section, no_comment, some_name) = front_tests name (b'=' ∷ tail) h.front in
    rw
      (
        skip_space-name name (b'=' ∷ tail) h.front,
        before-name name tail h.inner,
        skip-name name tail h.inner,
        h.ends,
        find_value_end-quoted v rest,
        some_text,
        no_section,
        no_comment,
        some_name,
      )
      refl

abbrev pub setting_of : Bytes × Bytes → IniSetting
setting_of x = record { m_name = x.0; m_raw_value = quoted x.1 }

settings-written :
    (l : List (Bytes × Bytes)) (f : ℕ)
    → length l < f
    → All (λ x. IsName x.0) l
    → settings f (written l) ≡ map setting_of l
unfolding written settings skip_while
settings-written l zero h names = absurd (omega arith)
settings-written [] (suc f) h names = unfold advance in refl
settings-written ((name, v) ∷ l) (suc f) h names =
    rw (advance-written _ name v (written l) names.0, settings)
      (ap (◌∷◌ (setting_of (name, v))) (settings-written l f (omega arith) names.1))

length-written : (l : List (Bytes × Bytes)) → length l ≤ length (written l)
unfolding written
length-written [] = omega arith
length-written ((name, v) ∷ l) = omega (
  arith,
  length-append {0} name (b'=' ∷ (quoted v ++ (newline ∷ written l))),
  length-append {0} (quoted v) (newline ∷ written l),
  length-written l,
)

map-setting_of :
    (l : List (Bytes × Bytes)) → map (λ x. (x.m_name, value x.m_raw_value)) (map setting_of l) ≡ l
map-setting_of [] = refl
map-setting_of ((name, v) ∷ l) = rw (value-quoted v) (ap (◌∷◌ (name, v)) (map-setting_of l))

-- A section that is written with a line for each setting, the name, an equals sign and the value in
-- quotes, is read as those settings, whatever bytes the values have; the names begin with no blank,
-- bracket or number sign, end in no blank, and have no equals sign and no newline.
pub settings-values :
    (l : List (Bytes × Bytes))
    → All (λ x. IsName x.0) l
    → map (λ s. (s.m_name, value s.m_raw_value)) (settings (suc (length (written l))) (written l))
      ≡ l
settings-values l names =
    rw (settings-written l (suc (length (written l))) (omega (arith, length-written l)) names)
      (map-setting_of l)
