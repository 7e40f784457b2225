-- ===== src/Wildmat/Complete.antt =====
-- From the texts that match a pattern to the matcher of wildmat/wildmat.cpp.
use trn.Base.{
  ℕ, zero, suc, ◌+◌, ◌%◌, ◌≤◌, ◌<◌, Bool, true, false, ◌&&◌, ◌||◌, ◌≡◌, ◌≢◌, refl, ◌↔◌, [], ◌∷◌,
  Bytes, leb, ◌==◌, if◌then◌else◌, Bool-cases, inl, inr, length, arith, equal,
}
use trn.Text.{front_is, remove_one, skip_while, skip_eq}
use trn.Wildmat.Sound.{wildcard_match-Matches}
use trn.Wildmat.Spec.{Matches, empty, plain, escaped, any, class, skip, take}
use trn.Wildmat.{class_scan, class_match, is_empty, star_loop, match_byte, do_match, wildcard_match}

length-class_scan-le :
    (x : ℕ) (matched : Bool) (last : ℕ) (p : Bytes)
    → length (class_scan x matched last p).1 ≤ length p
unfolding class_scan
length-class_scan-le x matched last [] = omega arith
length-class_scan-le x matched last (ch ∷ []) = ground arith
length-class_scan-le x matched last (ch ∷ e ∷ p) = ground (
  arith,
  length-class_scan-le x
      (matched || (leb ((x + 128) % 256) ((e + 128) % 256) && leb last ((x + 128) % 256)))
      ((e + 128) % 256) p,
  length-class_scan-le x (matched || x == ch) ((ch + 128) % 256) (e ∷ p),
)

length-remove_one-le : (s : Bytes) → length (remove_one s) ≤ length s
length-remove_one-le [] = omega arith
length-remove_one-le (c ∷ s) = omega arith

length-class_match-le : (x : ℕ) (p : Bytes) → length (class_match x p).1 ≤ length p
unfolding class_match
length-class_match-le x p =
    let reverse = front_is (λ c. c == b'^') p in
    let body = if reverse then remove_one p else p in
    let rest = (class_scan x false 256 body).1 in
    ground (
      arith,
      length-remove_one-le p,
      length-remove_one-le rest,
      length-class_scan-le x false 256 p,
      length-class_scan-le x false 256 (remove_one p),
    )

length-skip_eq-le : (p : Bytes) (c : ℕ) → length (skip_eq p c) ≤ length p
unfolding skip_while
length-skip_eq-le [] c = omega arith
length-skip_eq-le (d ∷ p) c = ground (arith, length-skip_eq-le p c)

-- A rest of a text.
data IsRest (u : Bytes) : Bytes → Type 0 where
  here : IsRest u u
  later : {x : ℕ} {t : Bytes} → IsRest u t → IsRest u (x ∷ t)

star_of_empty : {c : ℕ} {p : Bytes} → Matches (c ∷ p) [] → c ≡ b'*'
star_of_empty (skip e m) = e

skip_eq_star : (c : ℕ) (p : Bytes) → c ≡ b'*' → skip_eq (c ∷ p) b'*' ≡ skip_eq p b'*'
unfolding skip_while
skip_eq_star c p e = ground arith

skip_eq_other : (c : ℕ) (p : Bytes) → c ≢ b'*' → skip_eq (c ∷ p) b'*' ≡ c ∷ p
unfolding skip_while
skip_eq_other c p e = ground arith

-- What follows the stars in front of a pattern matches some rest of the text.
skip_stars : {p t : Bytes} → Matches p t → (u : Bytes) × IsRest u t × Matches (skip_eq p b'*') u
skip_stars empty = ([], here, unfold skip_while in empty)
skip_stars (plain {c} {p} {t} k m) = (c ∷ t, here, rw (skip_eq_other c p k.not_star) (plain k m))
skip_stars (escaped {b} {c} {p} {t} e m) =
    (c ∷ t, here, rw (skip_eq_other b (c ∷ p) (omega arith)) (escaped e m))
skip_stars (any {b} {x} {p} {t} e m) = (x ∷ t, here, rw (skip_eq_other b p (omega arith)) (any e m))
skip_stars (class {b} {x} {p} {t} e a m) =
    (x ∷ t, here, rw (skip_eq_other b p (omega arith)) (class e a m))
skip_stars (skip {b} {p} e m) = let (u, r, k) = skip_stars m in (u, r, rw (skip_eq_star b p e) k)
skip_stars (take e m) = let (u, r, k) = skip_stars m in (u, later r, k)

star_loop_found :
    (try : Bytes → Bool) (x : ℕ) (u : Bytes) {t : Bytes}
    → IsRest (x ∷ u) t
    → try (x ∷ u) ≡ true
    → star_loop try t ≡ true
unfolding star_loop
star_loop_found try x u here h = rw h
star_loop_found try x u (later {x = y} {t = t} r) h = ground (arith, star_loop_found try x u r h)

module _ (next : Bytes → Bytes → Bool) (n : ℕ)
    (complete : (u q : Bytes) → length q ≤ n → Matches q u → next u q ≡ true) where
  match_byte_complete :
      {c x : ℕ} {p t : Bytes}
      → c ≢ b'*'
      → length p ≤ n
      → Matches (c ∷ p) (x ∷ t)
      → match_byte next x t c p ≡ true
  unfolding match_byte
  match_byte_complete ne le (plain {c} {p} {t} k m) =
      ground (arith, k.not_escape, k.not_any, k.not_class, complete t p le m)
  match_byte_complete ne le (escaped {b} {c} {p} {t} e m) =
      ground (arith, complete t p (omega arith) m)
  match_byte_complete ne le (any {b} {x} {p} {t} e m) = ground (arith, complete t p le m)
  match_byte_complete ne le (class {b} {x} {p} {t} e a m) =
      ground (arith, complete t (class_match x p).1 (omega (arith, length-class_match-le x p)) m)
  match_byte_complete ne le (skip e m) = absurd (ne e)
  match_byte_complete ne le (take e m) = absurd (ne e)

  -- The star: either nothing follows, or the loop finds the rest of the text.
  star_complete :
      (q : Bytes) {t u : Bytes}
      → length q ≤ n
      → front_is (λ c. c == b'*') q ≡ false
      → IsRest u t
      → Matches q u
      → (is_empty q || star_loop (λ v. next v q) t) ≡ true
  star_complete [] le no_star r m = refl
  star_complete (d ∷ q) {t} {u} le no_star r m = go u r m
    where
      go : (v : Bytes) → IsRest v t → Matches (d ∷ q) v → star_loop (λ w. next w (d ∷ q)) t ≡ true
      go [] s k = absurd (ground (arith, star_of_empty k))
      go (x ∷ v) s k = star_loop_found (λ w. next w (d ∷ q)) x v s (complete (x ∷ v) (d ∷ q) le k)

front-skip_eq : (p : Bytes) → front_is (λ c. c == b'*') (skip_eq p b'*') ≡ false
unfolding skip_while
front-skip_eq [] = refl
front-skip_eq (c ∷ p) = elim (Bool-cases (c == b'*')) [
  | inl star ↦ rw star (front-skip_eq p)
  | inr other ↦ rw other other
]

-- Only stars match the empty text.
empty_text : (q : Bytes) → front_is (λ c. c == b'*') q ≡ false → Matches q [] → is_empty q ≡ true
empty_text [] h m = refl
empty_text (c ∷ q) h (skip e m) = absurd (ground arith)

rest_of_empty : {u : Bytes} (q : Bytes) → IsRest u [] → Matches q u → Matches q []
rest_of_empty q here m = m

do_match_complete : (f : ℕ) (t p : Bytes) → length p < f → Matches p t → do_match f t p ≡ true
unfolding do_match
do_match_complete zero t p h m = absurd (omega arith)
do_match_complete (suc f) [] [] h m = refl
do_match_complete (suc f) (x ∷ t) [] h m = elim m [ ]
do_match_complete (suc f) [] (c ∷ p) h (skip e m) =
    let (u, r, k) = skip_stars m in
    let all_stars = empty_text (skip_eq p b'*') (front-skip_eq p) (rest_of_empty _ r k) in
    ground arith
do_match_complete (suc f) (x ∷ t) (c ∷ p) h m =
    let complete =
      λ (u q : Bytes) (le : length q ≤ length p). do_match_complete f u q (omega arith) in
    elim (Bool-cases (c == b'*')) [
      | inr other ↦
          rw other
            (match_byte_complete (do_match f) (length p) complete (ground arith) (omega arith) m)
      | inl star ↦
          let (u, r, k) = skip_stars m in
          let no_star = skip_eq_star c p (ground arith) in
          rw star (
            star_complete (do_match f) (length p) complete (skip_eq p b'*')
              (length-skip_eq-le p b'*') (front-skip_eq p) r (rw no_star at k))
    ]

-- The matcher answers true exactly on the texts that match the pattern: its cuts of the search and
-- the short way for the pattern "*" change nothing.
pub wildcard_match_iff :
    (text pattern : Bytes) → (wildcard_match text pattern ≡ true) ↔ Matches pattern text
unfolding wildcard_match
wildcard_match_iff text pattern = (
  wildcard_match-Matches text pattern,
  λ m. elim (Bool-cases (equal pattern (b'*' ∷ []))) [
    | inl star ↦ rw star
    | inr other ↦ rw other (do_match_complete (suc (length pattern)) text pattern (omega arith) m)
  ],
)
