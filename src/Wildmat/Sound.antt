-- ===== src/Wildmat/Sound.antt =====
-- From what the matcher of wildmat/wildmat.cpp accepts to the texts that match.
use trn.Base.{
  ℕ, zero, suc, Bool, true, false, ◌&&◌, ◌||◌, ◌≡◌, refl, sym, ◌∙◌, [], ◌∷◌, Bytes, ◌==◌,
  Bool-cases, inl, inr, length, arith, equal, equal_iff,
}
use trn.Text.{front_is, remove_one, skip_while, skip_eq}
use trn.Wildmat.Spec.{IsPlain, Matches, empty, plain, escaped, any, class, skip, take, take_all}
use trn.Wildmat.{backslash, class_match, is_empty, star_loop, match_byte, do_match, wildcard_match}

and_true : (a b : Bool) → (a && b) ≡ true → (a ≡ true) × (b ≡ true)
and_true a b h = ground arith

-- Stars in a row act like one.
skip_eq-Matches :
    {b : ℕ} (p t : Bytes) → b ≡ b'*' → Matches (b ∷ skip_eq p b'*') t → Matches (b ∷ p) t
unfolding skip_while
skip_eq-Matches [] t e m = m
skip_eq-Matches {b} (c ∷ p) t e m = elim (Bool-cases (c == b'*')) [
  | inr other ↦ rw other at m
  | inl star ↦
      let c_star : c ≡ b'*' = ground arith in
      let same : b ≡ c = e ∙ sym c_star in
      skip e (skip_eq-Matches p t c_star (rw same at (rw star at m)))
]

star_loop-Matches :
    {b : ℕ} {p : Bytes} (try : Bytes → Bool) (t : Bytes)
    → b ≡ b'*'
    → ((u : Bytes) → try u ≡ true → Matches p u)
    → star_loop try t ≡ true
    → Matches (b ∷ p) t
unfolding star_loop
star_loop-Matches try [] e sound h = cc
star_loop-Matches try (x ∷ t) e sound h = elim (Bool-cases (try (x ∷ t))) [
  | inl here ↦ skip e (sound (x ∷ t) here)
  | inr later ↦ take e (star_loop-Matches try t e sound (rw later at h))
]

match_byte-Matches :
    (next : Bytes → Bytes → Bool) (x : ℕ) (t : Bytes) (c : ℕ) (p : Bytes)
    → ((u q : Bytes) → next u q ≡ true → Matches q u)
    → (c == b'*') ≡ false
    → match_byte next x t c p ≡ true
    → Matches (c ∷ p) (x ∷ t)
unfolding match_byte
match_byte-Matches next x t c p sound star h = elim (Bool-cases (c == backslash)) [
  | inl escape ↦ escape_case p (ground arith) (rw escape at h)
  | inr e1 ↦ elim (Bool-cases (c == b'?')) [
    | inl one ↦ any (ground arith) (sound t p (rw (e1, one) at h))
    | inr e2 ↦ elim (Bool-cases (c == b'[')) [
      | inl bracket ↦
          let (ok, rest) =
            and_true (class_match x p).0 (next t (class_match x p).1) (rw (e1, e2, bracket) at h) in
          class (ground arith) ok (sound t (class_match x p).1 rest)
      | inr e3 ↦
          let (same, rest) = and_true (x == c) (next t p) (rw (e1, e2, e3) at h) in
          let xc : x ≡ c = ground arith in
          let kind : IsPlain c = ground arith in rw xc (plain kind (sound t p rest))
    ]
  ]
]
  where
    escape_case :
        (q : Bytes)
        → c ≡ backslash
        → (front_is (λ d. x == d) q && next t (remove_one q)) ≡ true
        → Matches (c ∷ q) (x ∷ t)
    escape_case [] e k = cc
    escape_case (d ∷ q) e k =
        let (same, rest) = and_true (x == d) (next t q) k in
        let xd : x ≡ d = ground arith in rw xd (escaped e (sound t q rest))

do_match-Matches : (f : ℕ) (t p : Bytes) → do_match f t p ≡ true → Matches p t
unfolding do_match
do_match-Matches zero t p h = cc
do_match-Matches (suc f) [] [] h = empty
do_match-Matches (suc f) (x ∷ t) [] h = cc
do_match-Matches (suc f) [] (c ∷ p) h = elim (Bool-cases (c == b'*')) [
  | inr other ↦ cc (rw other at h)
  | inl star ↦
      let e : c ≡ b'*' = ground arith in
      skip_eq-Matches p [] e (all_stars (skip_eq p b'*') e (rw star at h))
]
  where
    all_stars : (q : Bytes) → c ≡ b'*' → is_empty q ≡ true → Matches (c ∷ q) []
    all_stars [] e k = take_all [] e
    all_stars (d ∷ q) e k = cc
do_match-Matches (suc f) (x ∷ t) (c ∷ p) h = elim (Bool-cases (c == b'*')) [
  | inr other ↦ match_byte-Matches (do_match f) x t c p (do_match-Matches f) other (rw other at h)
  | inl star ↦
      let e : c ≡ b'*' = ground arith in
      skip_eq-Matches p (x ∷ t) e
        (star_case (skip_eq p b'*') e (λ q u. do_match-Matches f u q) (rw star at h))
]
  where
    star_case :
        (q : Bytes)
        → c ≡ b'*'
        → ((r u : Bytes) → do_match f u r ≡ true → Matches r u)
        → (is_empty q || star_loop (λ u. do_match f u q) (x ∷ t)) ≡ true
        → Matches (c ∷ q) (x ∷ t)
    star_case [] e sound k = take_all (x ∷ t) e
    star_case (d ∷ q) e sound k =
        star_loop-Matches (λ u. do_match f u (d ∷ q)) (x ∷ t) e (sound (d ∷ q)) k

equal-star : (p t : Bytes) → equal p (b'*' ∷ []) ≡ true → Matches p t
equal-star p t h = rw ((equal_iff p (b'*' ∷ [])).0 h) (take_all t refl)

pub wildcard_match-Matches : (t p : Bytes) → wildcard_match t p ≡ true → Matches p t
unfolding wildcard_match
wildcard_match-Matches t p h = elim (Bool-cases (equal p (b'*' ∷ []))) [
  | inl star ↦ equal-star p t star
  | inr other ↦ do_match-Matches (suc (length p)) t p (rw other at h)
]
