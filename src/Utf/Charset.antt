-- ===== src/Utf/Charset.antt =====
-- The character sets of libtrn/utf.cpp and include/trn/utf.h: their names, and the code points of
-- the upper half of those of one byte.
use trn.Base.{
  ℕ, Bool, true, false, Option, none, some, List, [], ◌∷◌, Bytes, codes, if◌then◌else◌, get_elem?,
}
use trn.Text.Case.{string_case_equal}
use trn.Utf.Scalar.{invalid_code_point}

pub data CharsetType : Type 0 where
  ascii : CharsetType
  utf8 : CharsetType
  iso8859_1 : CharsetType
  iso8859_15 : CharsetType
  windows_1252 : CharsetType
  unknown : CharsetType

-- The bits 0x8000, 0x4000 and 0x2000 of the values. No value has the last.
abbrev pub is_utf8 : CharsetType → Bool
is_utf8 utf8 = true
is_utf8 _ = false

abbrev pub is_single_byte : CharsetType → Bool
is_single_byte iso8859_1 = true
is_single_byte iso8859_15 = true
is_single_byte windows_1252 = true
is_single_byte _ = false

abbrev pub is_double_byte : CharsetType → Bool
is_double_byte _ = false

unfoldable pub cp1252_himap : List ℕ
cp1252_himap =
    0x20ac ∷ invalid_code_point ∷ 0x201a ∷ 0x0192 ∷ 0x201e ∷ 0x2026 ∷ 0x2020 ∷ 0x2021 ∷ 0x02c6
    ∷ 0x2030 ∷ 0x0160 ∷ 0x2039 ∷ 0x0152 ∷ invalid_code_point ∷ 0x017d ∷ invalid_code_point
    ∷ invalid_code_point ∷ 0x2018 ∷ 0x2019 ∷ 0x201c ∷ 0x201d ∷ 0x00b7 ∷ 0x2013 ∷ 0x2014 ∷ 0x02dc
    ∷ 0x2122 ∷ 0x0161 ∷ 0x203a ∷ 0x0153 ∷ invalid_code_point ∷ 0x017e ∷ 0x0178 ∷ 0x00a0 ∷ 0x00a1
    ∷ 0x00a2 ∷ 0x00a3 ∷ 0x00a4 ∷ 0x00a5 ∷ 0x00a6 ∷ 0x00a7 ∷ 0x00a8 ∷ 0x00a9 ∷ 0x00aa ∷ 0x00ab
    ∷ 0x00ac ∷ invalid_code_point ∷ 0x00ae ∷ 0x00af ∷ 0x00b0 ∷ 0x00b1 ∷ 0x00b2 ∷ 0x00b3 ∷ 0x00b4
    ∷ 0x00b5 ∷ 0x00b6 ∷ 0x00b7 ∷ 0x00b8 ∷ 0x00b9 ∷ 0x00ba ∷ 0x00bb ∷ 0x00bc ∷ 0x00bd ∷ 0x00be
    ∷ 0x00bf ∷ 0x00c0 ∷ 0x00c1 ∷ 0x00c2 ∷ 0x00c3 ∷ 0x00c4 ∷ 0x00c5 ∷ 0x00c6 ∷ 0x00c7 ∷ 0x00c8
    ∷ 0x00c9 ∷ 0x00ca ∷ 0x00cb ∷ 0x00cc ∷ 0x00cd ∷ 0x00ce ∷ 0x00cf ∷ 0x00d0 ∷ 0x00d1 ∷ 0x00d2
    ∷ 0x00d3 ∷ 0x00d4 ∷ 0x00d5 ∷ 0x00d6 ∷ 0x00d7 ∷ 0x00d8 ∷ 0x00d9 ∷ 0x00da ∷ 0x00db ∷ 0x00dc
    ∷ 0x00dd ∷ 0x00de ∷ 0x00df ∷ 0x00e0 ∷ 0x00e1 ∷ 0x00e2 ∷ 0x00e3 ∷ 0x00e4 ∷ 0x00e5 ∷ 0x00e6
    ∷ 0x00e7 ∷ 0x00e8 ∷ 0x00e9 ∷ 0x00ea ∷ 0x00eb ∷ 0x00ec ∷ 0x00ed ∷ 0x00ee ∷ 0x00ef ∷ 0x00f0
    ∷ 0x00f1 ∷ 0x00f2 ∷ 0x00f3 ∷ 0x00f4 ∷ 0x00f5 ∷ 0x00f6 ∷ 0x00f7 ∷ 0x00f8 ∷ 0x00f9 ∷ 0x00fa
    ∷ 0x00fb ∷ 0x00fc ∷ 0x00fd ∷ 0x00fe ∷ 0x00ff ∷ []

unfoldable pub iso8859_1_himap : List ℕ
iso8859_1_himap =
    invalid_code_point ∷ invalid_code_point ∷ invalid_code_point ∷ invalid_code_point
    ∷ invalid_code_point ∷ invalid_code_point ∷ invalid_code_point ∷ invalid_code_point
    ∷ invalid_code_point ∷ invalid_code_point ∷ invalid_code_point ∷ invalid_code_point
    ∷ invalid_code_point ∷ invalid_code_point ∷ invalid_code_point ∷ invalid_code_point
    ∷ invalid_code_point ∷ invalid_code_point ∷ invalid_code_point ∷ invalid_code_point
    ∷ invalid_code_point ∷ invalid_code_point ∷ invalid_code_point ∷ invalid_code_point
    ∷ invalid_code_point ∷ invalid_code_point ∷ invalid_code_point ∷ invalid_code_point
    ∷ invalid_code_point ∷ invalid_code_point ∷ invalid_code_point ∷ invalid_code_point ∷ 0x00a0
    ∷ 0x00a1 ∷ 0x00a2 ∷ 0x00a3 ∷ 0x00a4 ∷ 0x00a5 ∷ 0x00a6 ∷ 0x00a7 ∷ 0x00a8 ∷ 0x00a9 ∷ 0x00aa
    ∷ 0x00ab ∷ 0x00ac ∷ invalid_code_point ∷ 0x00ae ∷ 0x00af ∷ 0x00b0 ∷ 0x00b1 ∷ 0x00b2 ∷ 0x00b3
    ∷ 0x00b4 ∷ 0x00b5 ∷ 0x00b6 ∷ 0x00b7 ∷ 0x00b8 ∷ 0x00b9 ∷ 0x00ba ∷ 0x00bb ∷ 0x00bc ∷ 0x00bd
    ∷ 0x00be ∷ 0x00bf ∷ 0x00c0 ∷ 0x00c1 ∷ 0x00c2 ∷ 0x00c3 ∷ 0x00c4 ∷ 0x00c5 ∷ 0x00c6 ∷ 0x00c7
    ∷ 0x00c8 ∷ 0x00c9 ∷ 0x00ca ∷ 0x00cb ∷ 0x00cc ∷ 0x00cd ∷ 0x00ce ∷ 0x00cf ∷ 0x00d0 ∷ 0x00d1
    ∷ 0x00d2 ∷ 0x00d3 ∷ 0x00d4 ∷ 0x00d5 ∷ 0x00d6 ∷ 0x00d7 ∷ 0x00d8 ∷ 0x00d9 ∷ 0x00da ∷ 0x00db
    ∷ 0x00dc ∷ 0x00dd ∷ 0x00de ∷ 0x00df ∷ 0x00e0 ∷ 0x00e1 ∷ 0x00e2 ∷ 0x00e3 ∷ 0x00e4 ∷ 0x00e5
    ∷ 0x00e6 ∷ 0x00e7 ∷ 0x00e8 ∷ 0x00e9 ∷ 0x00ea ∷ 0x00eb ∷ 0x00ec ∷ 0x00ed ∷ 0x00ee ∷ 0x00ef
    ∷ 0x00f0 ∷ 0x00f1 ∷ 0x00f2 ∷ 0x00f3 ∷ 0x00f4 ∷ 0x00f5 ∷ 0x00f6 ∷ 0x00f7 ∷ 0x00f8 ∷ 0x00f9
    ∷ 0x00fa ∷ 0x00fb ∷ 0x00fc ∷ 0x00fd ∷ 0x00fe ∷ 0x00ff ∷ []

unfoldable pub iso8859_15_himap : List ℕ
iso8859_15_himap =
    invalid_code_point ∷ invalid_code_point ∷ invalid_code_point ∷ invalid_code_point
    ∷ invalid_code_point ∷ invalid_code_point ∷ invalid_code_point ∷ invalid_code_point
    ∷ invalid_code_point ∷ invalid_code_point ∷ invalid_code_point ∷ invalid_code_point
    ∷ invalid_code_point ∷ invalid_code_point ∷ invalid_code_point ∷ invalid_code_point
    ∷ invalid_code_point ∷ invalid_code_point ∷ invalid_code_point ∷ invalid_code_point
    ∷ invalid_code_point ∷ invalid_code_point ∷ invalid_code_point ∷ invalid_code_point
    ∷ invalid_code_point ∷ invalid_code_point ∷ invalid_code_point ∷ invalid_code_point
    ∷ invalid_code_point ∷ invalid_code_point ∷ invalid_code_point ∷ invalid_code_point ∷ 0x00a0
    ∷ 0x00a1 ∷ 0x00a2 ∷ 0x00a3 ∷ 0x20ac ∷ 0x00a5 ∷ 0x0160 ∷ 0x00a7 ∷ 0x0161 ∷ 0x00a9 ∷ 0x00aa
    ∷ 0x00ab ∷ 0x00ac ∷ invalid_code_point ∷ 0x00ae ∷ 0x00af ∷ 0x00b0 ∷ 0x00b1 ∷ 0x00b2 ∷ 0x00b3
    ∷ 0x017d ∷ 0x00b5 ∷ 0x00b6 ∷ 0x00b7 ∷ 0x017e ∷ 0x00b9 ∷ 0x00ba ∷ 0x00bb ∷ 0x0152 ∷ 0x0153
    ∷ 0x0178 ∷ 0x00bf ∷ 0x00c0 ∷ 0x00c1 ∷ 0x00c2 ∷ 0x00c3 ∷ 0x00c4 ∷ 0x00c5 ∷ 0x00c6 ∷ 0x00c7
    ∷ 0x00c8 ∷ 0x00c9 ∷ 0x00ca ∷ 0x00cb ∷ 0x00cc ∷ 0x00cd ∷ 0x00ce ∷ 0x00cf ∷ 0x00d0 ∷ 0x00d1
    ∷ 0x00d2 ∷ 0x00d3 ∷ 0x00d4 ∷ 0x00d5 ∷ 0x00d6 ∷ 0x00d7 ∷ 0x00d8 ∷ 0x00d9 ∷ 0x00da ∷ 0x00db
    ∷ 0x00dc ∷ 0x00dd ∷ 0x00de ∷ 0x00df ∷ 0x00e0 ∷ 0x00e1 ∷ 0x00e2 ∷ 0x00e3 ∷ 0x00e4 ∷ 0x00e5
    ∷ 0x00e6 ∷ 0x00e7 ∷ 0x00e8 ∷ 0x00e9 ∷ 0x00ea ∷ 0x00eb ∷ 0x00ec ∷ 0x00ed ∷ 0x00ee ∷ 0x00ef
    ∷ 0x00f0 ∷ 0x00f1 ∷ 0x00f2 ∷ 0x00f3 ∷ 0x00f4 ∷ 0x00f5 ∷ 0x00f6 ∷ 0x00f7 ∷ 0x00f8 ∷ 0x00f9
    ∷ 0x00fa ∷ 0x00fb ∷ 0x00fc ∷ 0x00fd ∷ 0x00fe ∷ 0x00ff ∷ []

-- `himap[i]`, for an index below 128.
abbrev pub himap_at : List ℕ → ℕ → ℕ
himap_at himap i = elim (get_elem? himap i) [ none ↦ invalid_code_point | some c ↦ c ]

pub record CharsetDesc : Type 0 where
  pub name : Bytes
  pub id : CharsetType
  pub himap : Option (List ℕ)

abbrev desc : Bytes → CharsetType → Option (List ℕ) → CharsetDesc
desc name id himap = record { name = name; id = id; himap = himap }

abbrev pub charset_descs : List CharsetDesc
charset_descs =
    desc (codes "US") ascii none
    ∷ desc (codes "us-ascii") ascii none
    ∷ desc (codes "ascii") ascii none
    ∷ desc (codes "UTF") utf8 none
    ∷ desc (codes "utf-8") utf8 none
    ∷ desc (codes "utf8") utf8 none
    ∷ desc (codes "Latin1") iso8859_1 (some iso8859_1_himap)
    ∷ desc (codes "iso8859-1") iso8859_1 (some iso8859_1_himap)
    ∷ desc (codes "iso-8859-1") iso8859_1 (some iso8859_1_himap)
    ∷ desc (codes "Latin9") iso8859_15 (some iso8859_15_himap)
    ∷ desc (codes "iso8859-15") iso8859_15 (some iso8859_15_himap)
    ∷ desc (codes "iso-8859-15") iso8859_15 (some iso8859_15_himap)
    ∷ desc (codes "CP1252") windows_1252 (some cp1252_himap)
    ∷ desc (codes "cp1252") windows_1252 (some cp1252_himap)
    ∷ desc (codes "windows-1252") windows_1252 (some cp1252_himap)
    ∷ []

-- The loop of `find_charset`; an empty name fits none.
unfoldable pub find_charset_in : List CharsetDesc → Bytes → CharsetType
find_charset_in [] s = unknown
find_charset_in (d ∷ ds) s = if string_case_equal s d.name then d.id else find_charset_in ds s

unfoldable pub find_charset : Bytes → CharsetType
find_charset [] = unknown
find_charset (c ∷ s) = find_charset_in charset_descs (c ∷ s)

abbrev pub same_charset : CharsetType → CharsetType → Bool
same_charset ascii ascii = true
same_charset utf8 utf8 = true
same_charset iso8859_1 iso8859_1 = true
same_charset iso8859_15 iso8859_15 = true
same_charset windows_1252 windows_1252 = true
same_charset unknown unknown = true
same_charset _ _ = false

unfoldable pub find_charset_desc_in : List CharsetDesc → CharsetType → Option CharsetDesc
find_charset_desc_in [] id = none
find_charset_desc_in (d ∷ ds) id =
    if same_charset id d.id then some d else find_charset_desc_in ds id

abbrev pub find_charset_desc : CharsetType → Option CharsetDesc
find_charset_desc = find_charset_desc_in charset_descs
