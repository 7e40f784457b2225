-- ===== src/Utf/Graphic/Bounds.antt =====
-- The length of a character, for GraphicState of libtrn/utf.cpp.
use trn.Base.{
  ℕ, zero, suc, ◌≤◌, Bool, true, false, ◌&&◌, [], ◌∷◌, ◌++◌, Bytes, ltb, ◌==◌, if◌then◌else◌,
  if_both, bit_and, length, drop, length-drop, ◌≡◌, refl, ap, arith, Bool-cases, inl, inr, not,
}
use trn.Utf.Charset.{is_utf8, is_single_byte, is_double_byte}
use trn.Utf.Graphic.{
  GraphicState, is_utf8_continuation, continuations, utf8_length_at, byte_length_at, code_point_at,
}
use trn.Utf.Graphic.Show.{copy_loop, create_utf8_copy}
use trn.Utf.Scalar.{utf8_text}

abbrev IsWithin : Bytes → ℕ → Type 0
IsWithin text w = (1 ≤ w) × (w ≤ length text)

is_utf8_continuation-inside :
    (text : Bytes) (i : ℕ) → is_utf8_continuation text i ≡ true → suc i ≤ length text
is_utf8_continuation-inside [] i e = absurd (ground arith)
is_utf8_continuation-inside (b ∷ text) zero e = omega arith
is_utf8_continuation-inside (b ∷ text) (suc i) e =
    omega (arith, is_utf8_continuation-inside text i e)

continuations-inside :
    (n : ℕ) (text : Bytes) → continuations (suc n) text ≡ true → suc (suc n) ≤ length text
unfolding continuations
continuations-inside n text e = is_utf8_continuation-inside text (suc n) (ground arith)

-- A branch that needs a first byte and as many further ones.
IsWithin-if :
    (lead : Bool) (n : ℕ) (text : Bytes) {w : ℕ}
    → IsWithin text w
    → IsWithin text (if lead && continuations (suc n) text then suc (suc n) else w)
IsWithin-if lead n text within = elim (Bool-cases (lead && continuations (suc n) text)) [
  | inl wide ↦ rw wide (omega arith, continuations-inside n text (ground arith))
  | inr other ↦ rw other within
]

utf8_length_at-IsWithin : (b : ℕ) (text : Bytes) → IsWithin (b ∷ text) (utf8_length_at b (b ∷ text))
unfolding utf8_length_at
utf8_length_at-IsWithin b text =
    let one : IsWithin (b ∷ text) 1 = (omega arith, omega arith) in
    if_both (IsWithin (b ∷ text)) (bit_and b 0x80 == 0) one (
      IsWithin-if (bit_and b 0xE0 == 0xC0) 0 (b ∷ text) (
        IsWithin-if (bit_and b 0xF0 == 0xE0) 1 (b ∷ text) (
          IsWithin-if (bit_and b 0xF8 == 0xF0) 2 (b ∷ text) (
            IsWithin-if (bit_and b 0xFC == 0xF8) 3 (b ∷ text)
              (IsWithin-if (bit_and b 0xFE == 0xFC) 4 (b ∷ text) one)))))

-- In every character set a text that is not empty begins with a character of one byte at least,
-- and of no more bytes than the text has.
pub byte_length_at_bounds :
    (gs : GraphicState) (b : ℕ) (text : Bytes)
    → (1 ≤ byte_length_at gs (b ∷ text)) × (byte_length_at gs (b ∷ text) ≤ suc (length text))
unfolding byte_length_at
byte_length_at_bounds gs b text =
    let P = IsWithin (b ∷ text) in
    let one : IsWithin (b ∷ text) 1 = (omega arith, omega arith) in
    let two : P (if not (bit_and b 0x80 == 0) && ltb 1 (suc (length text)) then 2 else 1) =
      ground arith in
    if_both P (is_utf8 gs.in_set) (utf8_length_at-IsWithin b text)
      (if_both P (is_single_byte gs.in_set) one (if_both P (is_double_byte gs.in_set) two one))

copy_loop-enough :
    (f g : ℕ) (gs : GraphicState) (text : Bytes)
    → length text ≤ f
    → length text ≤ g
    → copy_loop f gs text ≡ copy_loop g gs text
unfolding copy_loop
copy_loop-enough zero zero gs text p q = refl
copy_loop-enough zero (suc g) gs [] p q = refl
copy_loop-enough zero (suc g) gs (b ∷ text) p q = absurd (omega arith)
copy_loop-enough (suc f) zero gs [] p q = refl
copy_loop-enough (suc f) zero gs (b ∷ text) p q = absurd (omega arith)
copy_loop-enough (suc f) (suc g) gs [] p q = refl
copy_loop-enough (suc f) (suc g) gs (b ∷ text) p q =
    let w = byte_length_at gs (b ∷ text) in
    let (positive, _) = byte_length_at_bounds gs b text in
    let shorter = length-drop w (b ∷ text) in
    rw (copy_loop-enough f g gs (drop w (b ∷ text)) (omega arith) (omega arith)) refl

-- The copy of a text is the copy of its first character and then of the rest: the loop never stops
-- early, and the fuel is enough.
pub create_utf8_copy_lem :
    (gs : GraphicState) (b : ℕ) (text : Bytes)
    → create_utf8_copy gs (b ∷ text)
      ≡ utf8_text (code_point_at gs (b ∷ text))
        ++ create_utf8_copy gs (drop (byte_length_at gs (b ∷ text)) (b ∷ text))
unfolding create_utf8_copy copy_loop
create_utf8_copy_lem gs b text =
    let w = byte_length_at gs (b ∷ text) in
    let (positive, _) = byte_length_at_bounds gs b text in
    let more : (w == 0) ≡ false = ground arith in
    let shorter = length-drop w (b ∷ text) in
    rw more (
      ap (λ t. utf8_text (code_point_at gs (b ∷ text)) ++ t)
        (copy_loop-enough (length text) (length (drop w (b ∷ text))) gs (drop w (b ∷ text))
          (omega arith) (omega arith)))
