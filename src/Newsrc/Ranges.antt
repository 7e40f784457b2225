-- ===== src/Newsrc/Ranges.antt =====
-- The abstract view of the numbers on a .newsrc line: a list of ranges, its text, and the articles
-- that it covers. This is the specification that the code on texts is compared with.
use trn.Base.{
  ℕ, ◌^◌, ◌≤◌, ◌<◌, Bool, true, false, ◌&&◌, ◌||◌, ◌≡◌, refl, List, [], ◌∷◌, ◌++◌, Bytes, leb, ◌==◌,
  length, length-append, arith, append_assoc, append-nil,
}
use trn.Text.{is_digit, front_is, skip_while, skip_non_digits}
use trn.Text.Decimal.{decimal, decimal-front}

pub data Range : Type 0 where
  single : ℕ → Range
  span : ℕ → ℕ → Range

abbrev pub low : Range → ℕ
low (single n) = n
low (span lo hi) = lo

abbrev pub high : Range → ℕ
high (single n) = n
high (span lo hi) = hi

abbrev pub in_range : Range → ℕ → Bool
in_range (single n) a = a == n
in_range (span lo hi) a = leb lo a && leb a hi

abbrev pub covers : List Range → ℕ → Bool
covers [] a = false
covers (r ∷ rs) a = in_range r a || covers rs a

abbrev pub render_range : Range → Bytes
render_range (single n) = decimal n
render_range (span lo hi) = decimal lo ++ (b'-' ∷ decimal hi)

-- The text after a range: a comma before each further one.
abbrev pub render_behind : List Range → Bytes
render_behind [] = []
render_behind (r ∷ rs) = b',' ∷ (render_range r ++ render_behind rs)

abbrev pub render : List Range → Bytes
render [] = []
render (r ∷ rs) = render_range r ++ render_behind rs

-- The ranges begin in ascending order, from `k` on, and their numbers fit a `long`.
abbrev pub IsAscending : ℕ → List Range → Type 0
IsAscending k [] = Unit
IsAscending k (r ∷ rs) = (k ≤ low r) × (low r < 2 ^ 63) × (high r < 2 ^ 63) × IsAscending (low r) rs

-- No article below the start is covered.
pub covers-below : (k a : ℕ) (rs : List Range) → IsAscending k rs → a < k → covers rs a ≡ false
covers-below k a [] h b = refl
covers-below k a (single n ∷ rs) h b = ground (arith, covers-below n a rs)
covers-below k a (span lo hi ∷ rs) h b = ground (arith, covers-below lo a rs)

pub render_range-front :
    (r : Range) (rest : Bytes) → front_is is_digit (render_range r ++ rest) ≡ true
render_range-front (single n) rest = decimal-front n rest
render_range-front (span lo hi) rest =
    rw append_assoc (decimal-front lo (b'-' ∷ (decimal hi ++ rest)))

pub render_behind_stops : (rs : List Range) → front_is is_digit (render_behind rs) ≡ false
render_behind_stops [] = refl
render_behind_stops (r ∷ rs) = refl

skip_non_digits_stop : (s : Bytes) → front_is is_digit s ≡ true → skip_non_digits s ≡ s
unfolding skip_while
skip_non_digits_stop [] h = refl
skip_non_digits_stop (c ∷ s) h = rw h

pub skip-render_behind : (rs : List Range) → skip_non_digits (render_behind rs) ≡ render rs
unfolding skip_while
skip-render_behind [] = refl
skip-render_behind (r ∷ rs) = skip_non_digits_stop _ (render_range-front r (render_behind rs))

length-pos : (s : Bytes) → front_is is_digit s ≡ true → 0 < length s
length-pos [] h = cc
length-pos (c ∷ s) h = omega arith

length-render_behind-le : (rs : List Range) → length rs ≤ length (render_behind rs)
length-render_behind-le [] = omega arith
length-render_behind-le (r ∷ rs) =
    omega (arith, length-append {0} (render_range r) (render_behind rs), length-render_behind-le rs)

length-render_range-pos : (r : Range) → 0 < length (render_range r)
length-render_range-pos r = length-pos _ (rw append-nil at (render_range-front r []))

pub length-render-le : (rs : List Range) → length rs ≤ length (render rs)
length-render-le [] = omega arith
length-render-le (r ∷ rs) = omega (
  arith,
  length-append {0} (render_range r) (render_behind rs),
  length-render_range-pos r,
  length-render_behind-le rs,
)
