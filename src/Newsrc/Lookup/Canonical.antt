-- ===== src/Newsrc/Lookup/Canonical.antt =====
-- `was_read_group` of libtrn/rcln.cpp on the text of a list of ranges.
use trn.Base.{
  ℕ, zero, suc, ◌^◌, ◌<◌, true, false, ◌≡◌, ◌≢◌, refl, ◌∙◌, some, List, [], ◌∷◌, ◌++◌, Bytes, leb,
  ◌==◌, if◌then◌else◌, length, arith, append_assoc,
}
use trn.Base.Int.{pos, leb_ℤ, ltb_ℤ, eqb_ℤ, eqb_ℤ_iff}
use trn.Newsrc.{NewsgroupData, tr_bogus, rc_numbers}
use trn.Text.{is_digit, front_is, skip_while, skip_eq, skip_non_digits}
use trn.Text.Decimal.{
  decimal, decimal-front, parse_long-decimal, skip_digits-decimal, skip_digits_stop,
}
use trn.Newsrc.Lookup.{was_read_loop, was_read_group}
use trn.Newsrc.Ranges.{
  Range, single, span, covers, render, render_behind, IsAscending, covers-below, skip-render_behind,
  render_behind_stops, render_range-front, length-render-le,
}

module _ (f a : ℕ) (t : Bytes) (stop : front_is is_digit t ≡ false) where
  was_read_loop-span :
      (lo hi : ℕ)
      → lo < 2 ^ 63
      → hi < 2 ^ 63
      → was_read_loop (suc f) (pos a) (decimal lo ++ (b'-' ∷ (decimal hi ++ t))) ≡ (
          if leb lo a
          then if leb a hi then some true else was_read_loop f (pos a) (skip_non_digits t)
          else some false)
  unfolding was_read_loop
  was_read_loop-span lo hi bl bh =
      rw
        (
          parse_long-decimal lo (b'-' ∷ (decimal hi ++ t)) bl refl,
          skip_digits-decimal lo (b'-' ∷ (decimal hi ++ t)),
          decimal-front lo (b'-' ∷ (decimal hi ++ t)),
          skip_digits_stop (b'-' ∷ (decimal hi ++ t)) refl,
          parse_long-decimal hi t bh stop,
          skip_digits-decimal hi t,
          skip_digits_stop t stop,
        )
        (ground arith)

  was_read_loop-single :
      (n : ℕ)
      → n < 2 ^ 63
      → front_is (λ c. c == b'-') t ≡ false
      → was_read_loop (suc f) (pos a) (decimal n ++ t) ≡ (
          if leb n a
          then if a == n then some true else was_read_loop f (pos a) (skip_non_digits t)
          else some false)
  unfolding was_read_loop
  was_read_loop-single n b dash =
      rw
        (
          parse_long-decimal n t b stop,
          skip_digits-decimal n t,
          decimal-front n t,
          skip_digits_stop t stop,
          dash,
        )
        (ground arith)

render_behind-dash : (rs : List Range) → front_is (λ c. c == b'-') (render_behind rs) ≡ false
render_behind-dash [] = refl
render_behind-dash (r ∷ rs) = refl

was_read_loop-render :
    (f k a : ℕ) (rs : List Range)
    → length rs < f
    → IsAscending k rs
    → was_read_loop f (pos a) (render rs) ≡ some (covers rs a)
was_read_loop-render zero k a rs h v = elim h [ ]
was_read_loop-render (suc f) k a [] h v = unfold was_read_loop in refl
was_read_loop-render (suc f) k a (single n ∷ rs) h v =
    let stop = render_behind_stops rs in
    let rest = rw (← skip-render_behind rs) at (was_read_loop-render f n a rs (omega arith) v.3) in
    was_read_loop-single f a (render_behind rs) stop n v.1 (render_behind-dash rs)
    ∙ ground (arith, rest, covers-below n a rs)
was_read_loop-render (suc f) k a (span lo hi ∷ rs) h v =
    let stop = render_behind_stops rs in
    let rest = rw (← skip-render_behind rs) at (was_read_loop-render f lo a rs (omega arith) v.3) in
    rw append_assoc (
      was_read_loop-span f a (render_behind rs) stop lo hi v.1 v.2
      ∙ ground (arith, rest, covers-below lo a rs))

render-skip_eq : (rs : List Range) → skip_eq (b' ' ∷ render rs) b' ' ≡ render rs
unfolding skip_while
render-skip_eq [] = refl
render-skip_eq (r ∷ rs) = skip_blank _ (render_range-front r (render_behind rs))
  where
    skip_blank : (s : Bytes) → front_is is_digit s ≡ true → skip_eq s b' ' ≡ s
    skip_blank [] h = refl
    skip_blank (c ∷ s) h = ground arith

-- On a group that is not bogus, whose line holds a blank and the text of an ascending list of
-- ranges that fit a `long`, an article number from 1 up to the group's highest is reported as read
-- exactly when a range of the list covers it.
pub was_read_group-render :
    (np : NewsgroupData) (rs : List Range) (k a : ℕ)
    → rc_numbers np ≡ b' ' ∷ render rs
    → IsAscending k rs
    → np.num_offset ≢ 0
    → np.to_read ≢ tr_bogus
    → a ≢ 0
    → leb_ℤ (pos a) np.ng_max ≡ true
    → was_read_group (pos a) (some np) ≡ some (covers rs a)
unfolding was_read_group
was_read_group-render np rs k a e v off bogus nz max =
    let bogus_test : eqb_ℤ np.to_read tr_bogus ≡ false =
      ground (arith, eqb_ℤ_iff np.to_read tr_bogus) in
    let off_test : (np.num_offset == 0) ≡ false = ground arith in
    let nz_test : eqb_ℤ (pos a) (pos 0) ≡ false = ground arith in
    let max_test : ltb_ℤ np.ng_max (pos a) ≡ false = ground arith in
    rw (nz_test, off_test, bogus_test, max_test, e, render-skip_eq rs)
      (was_read_loop-render _ k a rs (omega (arith, length-render-le rs)) v)
