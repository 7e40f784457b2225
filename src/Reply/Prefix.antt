-- ===== src/Reply/Prefix.antt =====
-- What `subject_has_re` of libtrn/rt-util.cpp takes off a subject: grey space and "Re:"s.
use trn.Base.{
  ℕ, zero, suc, Bool, true, false, ◌&&◌, All, [], ◌∷◌, ◌++◌, Bytes, ◌==◌, length, ◌≡◌, ◌⊎◌, refl,
  ap, sym, ◌∙◌, arith, Bool-cases, inl, inr,
}
use mathlib.Core.Path.{subst}
use trn.Text.{front_is, skip_digits, skip_while, is_digit, remove_one}
use trn.Utf.Graphic.{GraphicState}
use trn.Reply.{
  at_grey_space, skip_grey, eq_ignore_case, skip_power, strip_colon, strip_letters, strip_one_re,
  strip_loop, subject_has_re,
}
use trn.Reply.Strip.{skip_grey-length, strip_letters-none, strip_loop-none}

-- "^2", or nothing.
abbrev pub IsPower : Bytes → Type 0
IsPower [] = Unit
IsPower (c ∷ s) = (c ≡ b'^') × All (λ d. is_digit d ≡ true) s

-- A text that is a "Re:", in capitals or not, and the rest.
pub record IsRe (s rest : Bytes) : Type 0 where
  pub c : ℕ
  pub d : ℕ
  pub power : Bytes
  pub letter_r : (c ≡ b'R') ⊎ (c ≡ b'r')
  pub letter_e : (d ≡ b'E') ⊎ (d ≡ b'e')
  pub is_power : IsPower power
  pub text : s ≡ c ∷ d ∷ (power ++ (b':' ∷ rest))

-- The text is grey space and "Re:"s, and what remains; the test says whether there is a "Re:".
pub data IsStripped (gs : GraphicState) : Bool → Bytes → Bytes → Type 0 where
  nothing : (s : Bytes) → IsStripped gs false s s
  grey :
      {found : Bool} (c : ℕ) (s : Bytes) {r : Bytes}
      → at_grey_space gs (c ∷ s) ≡ true
      → IsStripped gs found s r
      → IsStripped gs found (c ∷ s) r
  re :
      {found : Bool} {s rest r : Bytes}
      → IsRe s rest
      → IsStripped gs found rest r
      → IsStripped gs true s r

skip_digits-colon :
    (s : Bytes)
    → front_is (λ c. c == b':') (skip_digits s) ≡ true
    → (ds : Bytes) × All (λ d. is_digit d ≡ true) ds
      × (s ≡ ds ++ (b':' ∷ remove_one (skip_digits s)))
unfolding skip_while
skip_digits-colon [] h = absurd (ground arith)
skip_digits-colon (c ∷ s) h = elim (Bool-cases (is_digit c)) [
  | inl digit ↦
      let (ds, all, same) = skip_digits-colon s (rw digit at h) in
      rw digit (c ∷ ds, (digit, all), ap (λ t. c ∷ t) same)
  | inr other ↦ let colon : c ≡ b':' = ground arith in rw other ([], tt, ap (λ x. x ∷ s) colon)
]

skip_power-IsPower :
    (s : Bytes)
    → front_is (λ c. c == b':') (skip_power s) ≡ true
    → (p : Bytes) × IsPower p × (s ≡ p ++ (b':' ∷ remove_one (skip_power s)))
skip_power-IsPower [] h = absurd (ground arith)
skip_power-IsPower (c ∷ s) h = elim (Bool-cases (c == b'^')) [
  | inl power ↦
      let (ds, all, same) = skip_digits-colon s (rw power at h) in
      let hat : c ≡ b'^' = ground arith in rw power (c ∷ ds, (hat, all), ap (λ t. c ∷ t) same)
  | inr plain ↦ let colon : c ≡ b':' = ground arith in rw plain ([], tt, ap (λ x. x ∷ s) colon)
]

-- A "Re:" that is found is one.
strip_letters-IsRe :
    (gs : GraphicState) (s : Bytes)
    → (strip_letters gs s).0 ≡ true
    → (rest : Bytes) × IsRe s rest × (strip_letters gs s ≡ (true, skip_grey gs rest))
unfolding strip_letters strip_colon
strip_letters-IsRe gs [] e = absurd (ground arith)
strip_letters-IsRe gs (c ∷ []) e = absurd (ground arith)
strip_letters-IsRe gs (c ∷ d ∷ s) e =
    elim (Bool-cases (eq_ignore_case c b'r' && eq_ignore_case d b'e')) [
      | inl letters ↦ elim (Bool-cases (front_is (λ x. x == b':') (skip_power s))) [
        | inl colon ↦
            let (p, is_power, same) = skip_power-IsPower s colon in
            (
              remove_one (skip_power s),
              record {
                c = c;
                d = d;
                power = p;
                letter_r = ground arith;
                letter_e = ground arith;
                is_power = is_power;
                text = ap (λ t. c ∷ d ∷ t) same;
              },
              rw (letters, colon) refl,
            )
        | inr none ↦
            let false_true : ◌≡◌ {A = Bool} false true =
              rw (letters, none, strip_letters, strip_colon) at e in
            absurd (ground arith)
      ]
      | inr other ↦
          let false_true : ◌≡◌ {A = Bool} false true = rw (other, strip_letters) at e in
          absurd (ground arith)
    ]

skip_digits-append :
    (ds t : Bytes) → All (λ d. is_digit d ≡ true) ds → skip_digits (ds ++ (b':' ∷ t)) ≡ b':' ∷ t
unfolding skip_while
skip_digits-append [] t h = refl
skip_digits-append (d ∷ ds) t (digit, all) = rw digit (skip_digits-append ds t all)

skip_power-append : (p t : Bytes) → IsPower p → skip_power (p ++ (b':' ∷ t)) ≡ b':' ∷ t
skip_power-append [] t h = refl
skip_power-append (c ∷ ds) t (hat, all) = rw hat (skip_digits-append ds t all)

-- And one that is there is found.
IsRe-strip_letters :
    (gs : GraphicState) (s rest : Bytes) → IsRe s rest → (strip_letters gs s).0 ≡ true
unfolding strip_letters strip_colon
IsRe-strip_letters gs s rest r =
    let letters : (eq_ignore_case r.c b'r' && eq_ignore_case r.d b'e') ≡ true =
      ground (arith, r.letter_r, r.letter_e) in
    rw (r.text, letters, skip_power-append r.power rest r.is_power) refl

skip_grey-IsStripped :
    (gs : GraphicState) (s r : Bytes) {found : Bool}
    → IsStripped gs found (skip_grey gs s) r
    → IsStripped gs found s r
unfolding skip_grey
skip_grey-IsStripped gs [] r h = h
skip_grey-IsStripped gs (c ∷ s) r h = elim (Bool-cases (at_grey_space gs (c ∷ s))) [
  | inl is_grey ↦ IsStripped.grey c s is_grey (skip_grey-IsStripped gs s r (rw is_grey at h))
  | inr norm ↦ rw norm at h
]

strip_loop-IsStripped :
    (f : ℕ) (gs : GraphicState) (s : Bytes)
    → IsStripped gs (strip_loop f gs s).0 s (strip_loop f gs s).1
unfolding strip_loop strip_one_re
strip_loop-IsStripped zero gs s = IsStripped.nothing s
strip_loop-IsStripped (suc f) gs s = elim (Bool-cases (strip_one_re gs s).0) [
  | inl more ↦
      let (rest, r, same) = strip_letters-IsRe gs (skip_grey gs s) more in
      let later = strip_loop-IsStripped f gs (strip_one_re gs s).1 in
      let after : IsStripped gs (strip_loop f gs (strip_one_re gs s).1).0 (skip_grey gs rest)
          (strip_loop f gs (strip_one_re gs s).1).1 =
        subst
          (λ t.
            IsStripped gs (strip_loop f gs (strip_one_re gs s).1).0 t
              (strip_loop f gs (strip_one_re gs s).1).1)
          (ap (λ x. x.1) same) later in
      rw more (skip_grey-IsStripped gs s _ (IsStripped.re r (skip_grey-IsStripped gs rest _ after)))
  | inr last ↦
      let same = strip_letters-none gs (skip_grey gs s) last in
      rw (last, same) (skip_grey-IsStripped gs s _ (IsStripped.nothing (skip_grey gs s)))
]

-- Nothing is left of the grey space that was dropped.
skip_grey-same : (gs : GraphicState) (s : Bytes) → skip_grey gs s ≡ s → at_grey_space gs s ≡ false
unfolding skip_grey at_grey_space
skip_grey-same gs [] e = refl
skip_grey-same gs (c ∷ s) e = elim (Bool-cases (at_grey_space gs (c ∷ s))) [
  | inl is_grey ↦
      let longer : skip_grey gs s ≡ c ∷ s = rw is_grey at e in
      absurd (omega (arith, skip_grey-length gs s, ap (λ (t : Bytes). length t) longer))
  | inr norm ↦ norm
]

-- `subject_has_re` takes grey space and "Re:"s off the start of a subject, each of them an R and an E,
-- in capitals or not, with "^" and digits behind them or not, and a colon. It answers whether there
-- was a "Re:". What remains begins neither with grey space nor with a "Re:".
pub subject_has_re-IsStripped :
    (gs : GraphicState) (subject : Bytes)
    → IsStripped gs (subject_has_re gs subject).0 subject (subject_has_re gs subject).1
      × (at_grey_space gs (subject_has_re gs subject).1 ≡ false)
      × ((rest : Bytes) → ¬ IsRe (subject_has_re gs subject).1 rest)
unfolding subject_has_re strip_one_re
subject_has_re-IsStripped gs subject =
    let f = suc (length subject) in
    let r = (strip_loop f gs subject).1 in
    let ended : strip_letters gs (skip_grey gs r) ≡ (false, r) =
      strip_loop-none f gs subject (omega arith) in
    let first : (strip_letters gs (skip_grey gs r)).0 ≡ false =
      ap (λ (x : Bool × Bytes). x.0) ended in
    let same : skip_grey gs r ≡ r =
      ap (λ x. x.1) (sym (strip_letters-none gs (skip_grey gs r) first) ∙ ended) in
    (
      strip_loop-IsStripped f gs subject,
      skip_grey-same gs r same,
      λ rest begins.
          let found = IsRe-strip_letters gs r rest begins in
          let missing : (strip_letters gs r).0 ≡ false = rw same at first in
          absurd (ground (arith, found, missing)),
    )
