-- ===== src/Tests/Charsets.antt =====
-- Texts in UTF-8 and other character sets, and comparisons but for case.
use trn.Base.{
  ◌≤◌, ◌<◌, false, ◌≡◌, ◌↔◌, refl, none, [], ◌∷◌, ◌++◌, Bytes, codes, All, arith, length, drop,
}
use trn.Base.Int.{pos}
use trn.Text.Case.{
  string_case_compare, string_case_equal, c_string_case_compare, IsPlain, c_string_case_compare_iff,
}
use trn.Utf.Charset.{CharsetType, find_charset, find_charset_in}
use trn.Utf.Decoder.{decode, decode_one, decode-decode, decode_lem}
use trn.Utf.Graphic.{GraphicState, byte_length_at}
use trn.Utf.Graphic.Bounds.{byte_length_at_bounds}
use trn.Utf.Scalar.{
  utf8_text, replaced, decode_utf8_scalar, encode_utf8_scalar, decode_tail, first_bits,
  checked_scalar,
}
use trn.Utf.Scalar.Canonical.{IsRead, decode_utf8_scalar-IsRead}
use trn.Utf.Scalar.RoundTrip.{decode_utf8_scalar-encode_utf8_scalar}

-- The euro sign, and a small letter e with an acute accent.
euro_text : encode_utf8_scalar 0x20ac ≡ 0xe2 ∷ 0x82 ∷ 0xac ∷ []
unfolding encode_utf8_scalar utf8_text
euro_text = refl

decode_utf8_scalar-encode_utf8_scalar_example :
    decode_utf8_scalar (encode_utf8_scalar 0x20ac ++ (65 ∷ []))
    ≡ record { code_point = 0x20ac; byte_count = length (encode_utf8_scalar 0x20ac) }
decode_utf8_scalar-encode_utf8_scalar_example =
    decode_utf8_scalar-encode_utf8_scalar 0x20ac (65 ∷ []) refl

abbrev euro : Bytes
euro = 0xe2 ∷ 0x82 ∷ 0xac ∷ 65 ∷ []

euro-small : All (λ d. d < 256) euro
euro-small = (ground arith, (ground arith, (ground arith, (ground arith, tt))))

euro_point : (decode_utf8_scalar euro).code_point ≡ 0x20ac
unfolding decode_utf8_scalar first_bits decode_tail checked_scalar
euro_point = refl

decode_utf8_scalar-IsRead_example : IsRead euro (decode_utf8_scalar euro)
decode_utf8_scalar-IsRead_example =
    decode_utf8_scalar-IsRead euro euro-small (λ e. ground (arith, euro_point))

-- Windows text: "€5".
abbrev windows : Bytes
windows = 0x80 ∷ 53 ∷ []

windows-small : All (λ d. d < 256) windows
windows-small = (ground arith, (ground arith, tt))

decode-decode_example :
    decode CharsetType.utf8 (decode CharsetType.windows_1252 windows)
    ≡ decode CharsetType.windows_1252 windows
decode-decode_example = decode-decode CharsetType.windows_1252 windows windows-small

decode_lem_example :
    decode CharsetType.windows_1252 windows
    ≡ encode_utf8_scalar (replaced (decode_one CharsetType.windows_1252 0x80 (53 ∷ [])).code_point)
      ++ decode CharsetType.windows_1252
          (drop (decode_one CharsetType.windows_1252 0x80 (53 ∷ [])).byte_count windows)
decode_lem_example = decode_lem CharsetType.windows_1252 0x80 (53 ∷ [])

abbrev terminal : GraphicState
terminal = record {
  in_set = CharsetType.utf8;
  out_set = CharsetType.utf8;
  himap_in = none;
  himap_out = none;
}

byte_length_at_bounds_example :
    (1 ≤ byte_length_at terminal euro) × (byte_length_at terminal euro ≤ 4)
byte_length_at_bounds_example = byte_length_at_bounds terminal 0xe2 (0x82 ∷ 0xac ∷ 65 ∷ [])

charset_named : find_charset (codes "UTF-8") ≡ CharsetType.utf8
unfolding find_charset find_charset_in string_case_equal string_case_compare
charset_named = refl

-- The table makes an opening bracket and an opening brace the same.
brackets_same : c_string_case_compare (codes "[") (codes "{") ≡ pos 0
unfolding c_string_case_compare
brackets_same = refl

brackets_differ : string_case_equal (codes "[") (codes "{") ≡ false
unfolding string_case_equal string_case_compare
brackets_differ = refl

ab-IsPlain : All IsPlain (codes "aB")
ab-IsPlain = ((ground arith, refl), ((ground arith, refl), tt))

c_string_case_compare_iff_example :
    (c_string_case_compare (codes "aB") (codes "aB") ≡ pos 0)
    ↔ (string_case_compare (codes "aB") (codes "aB") ≡ pos 0)
c_string_case_compare_iff_example =
    c_string_case_compare_iff (codes "aB") (codes "aB") ab-IsPlain ab-IsPlain
