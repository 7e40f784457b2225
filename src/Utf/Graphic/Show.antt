-- ===== src/Utf/Graphic/Show.antt =====
-- GraphicState of libtrn/utf.cpp: the width of a text, what is shown of a character, and the copy
-- of a text in UTF-8.
use trn.Base.{
  ℕ, zero, suc, ◌+◌, Bool, true, false, not, ◌&&◌, ◌||◌, none, some, [], ◌∷◌, ◌++◌, Bytes, ltb, leb,
  ◌==◌, if◌then◌else◌, bit_and, length, drop, take,
}
use trn.Utf.Charset.{CharsetType, is_utf8, same_charset, himap_at}
use trn.Utf.Graphic.{GraphicState, byte_length_at, code_point_at, visual_width_at}
use trn.Utf.Scalar.{invalid_code_point, utf8_text}

-- The loop of `visual_length_of`; each round takes a byte at least.
unfoldable pub width_loop : ℕ → GraphicState → ℕ → Bytes → ℕ
width_loop zero gs it text = it
width_loop (suc f) gs it [] = it
width_loop (suc f) gs it (b ∷ text) =
    let later =
      width_loop f gs (it + visual_width_at gs (b ∷ text))
        (drop (byte_length_at gs (b ∷ text)) (b ∷ text)) in
    if byte_length_at gs (b ∷ text) == 0 then it else later

unfoldable pub visual_length_of : GraphicState → Bytes → ℕ
visual_length_of gs text = width_loop (length text) gs 0 text

unfoldable pub insert_unicode_at : GraphicState → ℕ → Bytes
insert_unicode_at gs c =
    let mapped : Bytes = elim gs.himap_in [
      | none ↦ []
      | some himap ↦ utf8_text (himap_at himap (bit_and c 0x7F))
    ] in
    if is_utf8 gs.in_set then utf8_text c else if leb c 0x7F then c ∷ [] else mapped

unfoldable pub at_norm_char : GraphicState → Bytes → Bool
at_norm_char gs [] = false
at_norm_char gs (b ∷ text) =
    let c = code_point_at gs (b ∷ text) in
    let mapped : Bool = elim gs.himap_in [
      | none ↦ true
      | some himap ↦ not (himap_at himap (bit_and b 0x7F) == invalid_code_point)
    ] in
    if same_charset gs.in_set CharsetType.utf8
    then leb 0x20 c && (not (leb 0x7F c && ltb c 0xA0) && (not (c == 0x2028) && not (c == 0x2029)))
    else if ltb b 0x80
    then leb b' ' b && ltb b 0x7F
    else mapped

-- What is written, the width, and the rest of the text. A `char` is signed, so a byte above 127 is
-- not at least a space.
unfoldable pub put_char_adv : GraphicState → Bytes → Bool → Bytes × ℕ × Bytes
put_char_adv gs [] output_ok = ([], 0, [])
put_char_adv gs (b ∷ text) output_ok =
    let w = byte_length_at gs (b ∷ text) in
    let mapped : Bytes × ℕ × Bytes = elim gs.himap_in [
      | none ↦ ([], 0, b ∷ text)
      | some himap ↦ (utf8_text (himap_at himap (bit_and b 0x7F)), 1, text)
    ] in
    if same_charset gs.in_set CharsetType.utf8 || (leb b' ' b && ltb b 0x7F)
    then (
      if output_ok then take w (b ∷ text) else [],
      visual_width_at gs (b ∷ text),
      drop w (b ∷ text),
    )
    else mapped

-- The second loop of `create_utf8_copy`; the first only counts the bytes to reserve.
unfoldable pub copy_loop : ℕ → GraphicState → Bytes → Bytes
copy_loop zero gs text = []
copy_loop (suc f) gs [] = []
copy_loop (suc f) gs (b ∷ text) =
    let later = copy_loop f gs (drop (byte_length_at gs (b ∷ text)) (b ∷ text)) in
    if byte_length_at gs (b ∷ text) == 0
    then []
    else utf8_text (code_point_at gs (b ∷ text)) ++ later

unfoldable pub create_utf8_copy : GraphicState → Bytes → Bytes
create_utf8_copy gs text = copy_loop (length text) gs text
