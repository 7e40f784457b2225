-- ===== src/Uudecode/Prescan/Slash.antt =====
-- The section line with a slash between the part and the total.
use trn.Base.{
  ℕ, ◌+◌, true, false, none, some, [], ◌∷◌, Bytes, ◌==◌, drop, codes, ◌≡◌, inl, inr, refl,
  Bool-cases, arith,
}
use trn.Text.{is_digit, starts_with, front_is}
use trn.Uudecode.Prescan.{
  Part, parse_number, byte_at, digit_at, section_slash, is_begin, section, uue_prescan,
}

digit-not_slash : (s : Bytes) → front_is (λ d. d == b'/') s ≡ true → front_is is_digit s ≡ false
digit-not_slash [] e = refl
digit-not_slash (c ∷ s) e = let same : c ≡ b'/' = ground arith in rw same refl

parse_number-slash :
    (text : Bytes) (position : ℕ)
    → byte_at text position b'/' ≡ true
    → parse_number text position ≡ none
unfolding parse_number
parse_number-slash text position e = rw (digit-not_slash (drop position text) e) refl

parse_number-digit :
    (text : Bytes) (offset : ℕ) {found : ℕ × ℕ}
    → digit_at text offset ≡ false
    → parse_number text offset ≡ some found
    → ⊥
unfolding parse_number
parse_number-digit text offset bare e =
    let refused : parse_number text offset ≡ none = rw bare refl in ground arith

of-not_slash :
    (s : Bytes) → front_is (λ d. d == b'/') s ≡ true → starts_with s (codes " of ") ≡ false
of-not_slash [] e = refl
of-not_slash (c ∷ s) e = let same : c ≡ b'/' = ground arith in rw same refl

section_slash-none :
    (text : Bytes) (part position : ℕ)
    → byte_at text position b'/' ≡ true
    → section_slash text part position ≡ none
unfolding section_slash
section_slash-none text part position slash = rw (parse_number-slash text position slash) refl

section-slash :
    (text : Bytes) (p : Part) (part position : ℕ)
    → byte_at text position b'/' ≡ true
    → digit_at text (position + 1) ≡ true
    → section text p part position ≡ (false, p)
unfolding section
section-slash text p part position slash digit = elim (Bool-cases (part == 0)) [
  | inl zero_part ↦ rw zero_part refl
  | inr some_part ↦
      rw
        (
          some_part,
          of-not_slash (drop position text) slash,
          slash,
          digit,
          section_slash-none text part position slash,
        )
        refl
]

section-not_begin :
    (text : Bytes) → starts_with text (codes "section ") ≡ true → is_begin text ≡ false
unfolding is_begin
section-not_begin [] e = absurd (ground arith)
section-not_begin (c ∷ s) e = let same : c ≡ b's' = ground arith in rw same refl

-- A section line whose number has a slash and a digit behind it is not recognized, and leaves the
-- arguments as they are: the total is read from the slash on, where there is no digit.
pub uue_prescan-slash :
    (text : Bytes) (p : Part) (part position : ℕ)
    → starts_with text (codes "section ") ≡ true
    → parse_number text 8 ≡ some (part, position)
    → byte_at text position b'/' ≡ true
    → digit_at text (position + 1) ≡ true
    → uue_prescan text p ≡ (false, p)
unfolding uue_prescan
uue_prescan-slash text p part position label number slash digit =
    elim (Bool-cases (digit_at text 8)) [
      | inl numbered ↦
          rw (section-not_begin text label, label, numbered, number)
            (section-slash text p part position slash digit)
      | inr bare ↦ absurd (parse_number-digit text 8 bare number)
    ]
