-- ===== src/Reply/Strip.antt =====
-- The loop of `subject_has_re` of libtrn/rt-util.cpp.
use trn.Base.{
  ℕ, zero, suc, ◌≤◌, ◌<◌, Bool, true, false, ◌&&◌, [], ◌∷◌, Bytes, ◌==◌, if◌then◌else◌, length, ◌≡◌,
  refl, ap, arith, Bool-cases, inl, inr,
}
use trn.Text.{front_is, skip_digits, skip_while, is_digit, remove_one}
use trn.Utf.Graphic.{GraphicState}
use trn.Reply.{
  at_grey_space, skip_grey, eq_ignore_case, skip_power, strip_colon, strip_letters, strip_one_re,
  strip_loop, subject_has_re,
}

pub skip_grey-length : (gs : GraphicState) (s : Bytes) → length (skip_grey gs s) ≤ length s
unfolding skip_grey
skip_grey-length gs [] = omega arith
skip_grey-length gs (c ∷ s) = elim (Bool-cases (at_grey_space gs (c ∷ s))) [
  | inl grey ↦ rw grey (omega (arith, skip_grey-length gs s))
  | inr norm ↦ rw norm (omega arith)
]

pub skip_grey-skip_grey :
    (gs : GraphicState) (s : Bytes) → skip_grey gs (skip_grey gs s) ≡ skip_grey gs s
unfolding skip_grey
skip_grey-skip_grey gs [] = refl
skip_grey-skip_grey gs (c ∷ s) = elim (Bool-cases (at_grey_space gs (c ∷ s))) [
  | inl grey ↦ rw grey (skip_grey-skip_grey gs s)
  | inr norm ↦ rw (norm, skip_grey) (rw norm refl)
]

skip_digits-length : (s : Bytes) → length (skip_digits s) ≤ length s
unfolding skip_while
skip_digits-length [] = omega arith
skip_digits-length (c ∷ s) = elim (Bool-cases (is_digit c)) [
  | inl digit ↦ rw digit (omega (arith, skip_digits-length s))
  | inr other ↦ rw other (omega arith)
]

remove_one-length : (s : Bytes) → length (remove_one s) ≤ length s
remove_one-length [] = omega arith
remove_one-length (c ∷ s) = omega arith

skip_power-length : (s : Bytes) → length (skip_power s) ≤ length s
skip_power-length s = elim (Bool-cases (front_is (λ c. c == b'^') s)) [
  | inl power ↦ rw power (omega (arith, skip_digits-length (remove_one s), remove_one-length s))
  | inr plain ↦ rw plain (omega arith)
]

strip_colon-length :
    (gs : GraphicState) (subject rest : Bytes)
    → (strip_colon gs subject rest).0 ≡ true
    → length (strip_colon gs subject rest).1 ≤ length rest
unfolding strip_colon
strip_colon-length gs subject rest e =
    elim (Bool-cases (front_is (λ c. c == b':') (skip_power rest))) [
      | inl colon ↦ rw colon (
          omega (
            arith,
            skip_grey-length gs (remove_one (skip_power rest)),
            remove_one-length (skip_power rest),
            skip_power-length rest,
          ))
      | inr none ↦ absurd (ground arith)
    ]

-- A "Re:" that is stripped makes the subject shorter.
strip_letters-length :
    (gs : GraphicState) (s : Bytes)
    → (strip_letters gs s).0 ≡ true
    → length (strip_letters gs s).1 < length s
unfolding strip_letters
strip_letters-length gs [] e = absurd (ground arith)
strip_letters-length gs (c ∷ []) e = absurd (ground arith)
strip_letters-length gs (c ∷ d ∷ rest) e =
    elim (Bool-cases (eq_ignore_case c b'r' && eq_ignore_case d b'e')) [
      | inl letters ↦ rw letters (
          omega
            (arith, strip_colon-length gs (c ∷ d ∷ rest) rest (rw (letters, strip_letters) at e)))
      | inr other ↦
          let false_true : ◌≡◌ {A = Bool} false true = rw (other, strip_letters) at e in
          absurd (ground arith)
    ]

-- Without a "Re:" nothing but the grey space is dropped.
pub strip_letters-none :
    (gs : GraphicState) (s : Bytes)
    → (strip_letters gs s).0 ≡ false
    → strip_letters gs s ≡ (false, s)
unfolding strip_letters strip_colon
strip_letters-none gs [] e = refl
strip_letters-none gs (c ∷ []) e = refl
strip_letters-none gs (c ∷ d ∷ rest) e =
    elim (Bool-cases (eq_ignore_case c b'r' && eq_ignore_case d b'e')) [
      | inl letters ↦ elim (Bool-cases (front_is (λ c. c == b':') (skip_power rest))) [
        | inl colon ↦
            let true_false : ◌≡◌ {A = Bool} true false =
              rw (letters, colon, strip_letters, strip_colon) at e in
            absurd (ground arith)
        | inr none ↦ rw (letters, none) refl
      ]
      | inr other ↦ rw other refl
    ]

strip_one_re-length :
    (gs : GraphicState) (s : Bytes)
    → (strip_one_re gs s).0 ≡ true
    → length (strip_one_re gs s).1 < length s
unfolding strip_one_re
strip_one_re-length gs s e =
    omega (arith, strip_letters-length gs (skip_grey gs s) e, skip_grey-length gs s)

strip_one_re-none :
    (gs : GraphicState) (s : Bytes)
    → (strip_one_re gs s).0 ≡ false
    → strip_one_re gs (strip_one_re gs s).1 ≡ (false, (strip_one_re gs s).1)
unfolding strip_one_re
strip_one_re-none gs s e =
    let same = strip_letters-none gs (skip_grey gs s) e in
    rw (same, skip_grey-skip_grey gs s, same) refl

-- The loop strips every "Re:".
pub strip_loop-none :
    (f : ℕ) (gs : GraphicState) (s : Bytes)
    → length s < f
    → strip_one_re gs (strip_loop f gs s).1 ≡ (false, (strip_loop f gs s).1)
unfolding strip_loop
strip_loop-none zero gs s h = absurd (omega arith)
strip_loop-none (suc f) gs s h = elim (Bool-cases (strip_one_re gs s).0) [
  | inl more ↦
      rw more
        (strip_loop-none f gs (strip_one_re gs s).1 (omega (arith, strip_one_re-length gs s more)))
  | inr last ↦ rw last (strip_one_re-none gs s last)
]

settled :
    (gs : GraphicState) (s : Bytes)
    → strip_one_re gs s ≡ (false, s)
    → subject_has_re gs s ≡ (false, s)
unfolding subject_has_re strip_loop
settled gs s e = rw e refl

-- `subject_has_re` ends with a subject of which no further "Re:" can be stripped and that has no grey
-- space at its start: a second call finds none and changes nothing.
subject_has_re-subject_has_re :
    (gs : GraphicState) (subject : Bytes)
    → subject_has_re gs (subject_has_re gs subject).1 ≡ (false, (subject_has_re gs subject).1)
unfolding subject_has_re
subject_has_re-subject_has_re gs subject =
    settled gs (strip_loop (suc (length subject)) gs subject).1
      (strip_loop-none (suc (length subject)) gs subject (omega arith))

-- Fuel beyond the length of the subject changes nothing.
strip_loop-enough :
    (f g : ℕ) (gs : GraphicState) (s : Bytes)
    → length s < f
    → length s < g
    → strip_loop f gs s ≡ strip_loop g gs s
unfolding strip_loop
strip_loop-enough zero g gs s p q = absurd (omega arith)
strip_loop-enough (suc f) zero gs s p q = absurd (omega arith)
strip_loop-enough (suc f) (suc g) gs s p q = elim (Bool-cases (strip_one_re gs s).0) [
  | inl more ↦
      let shorter = strip_one_re-length gs s more in
      rw (more, strip_loop-enough f g gs (strip_one_re gs s).1 (omega arith) (omega arith)) refl
  | inr last ↦ rw last refl
]

-- Where a "Re:" is stripped, `subject_has_re` answers yes and goes on with what remains, and it
-- answers with the result of `strip_one_re` where there is none.
pub subject_has_re_lem :
    (gs : GraphicState) (subject : Bytes)
    → subject_has_re gs subject ≡ (
        if (strip_one_re gs subject).0
        then (true, (subject_has_re gs (strip_one_re gs subject).1).1)
        else strip_one_re gs subject)
unfolding subject_has_re strip_loop
subject_has_re_lem gs subject = elim (Bool-cases (strip_one_re gs subject).0) [
  | inl more ↦
      let shorter = strip_one_re-length gs subject more in
      rw more (
        ap (λ r. (true, r.1))
          (strip_loop-enough (length subject) (suc (length (strip_one_re gs subject).1)) gs
            (strip_one_re gs subject).1 (omega arith) (omega arith)))
  | inr last ↦ rw last refl
]
