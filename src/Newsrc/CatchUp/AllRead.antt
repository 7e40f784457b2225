-- ===== src/Newsrc/CatchUp/AllRead.antt =====
-- A group that is caught up with, for libtrn/rcln.cpp.
use trn.Base.{
  append-nil, ℕ, suc, ◌-◌, ◌^◌, ◌<◌, true, false, some, [], ◌∷◌, ◌++◌, Bytes, ◌==◌, if◌then◌else◌,
  length, drop, min, leb, ◌≡◌, ◌≢◌, refl, ◌∙◌, ap, sym, arith, length-append, Bool-cases, inl, inr,
  ◌||◌,
}
use trn.Base.Int.{ℤ, pos, leb_ℤ, ltb_ℤ, eqb_ℤ, eqb_ℤ_iff}
use trn.Newsrc.CatchUp.{read_all, catch_up}
use trn.Newsrc.Lookup.{was_read_group}
use trn.Newsrc.Lookup.Canonical.{was_read_group-render}
use trn.Newsrc.Ranges.{span, render}
use trn.Newsrc.Rewrite.Text.{drop-set_byte, length-set_byte}
use trn.Newsrc.ToRead.{Totals, newsgroup_size}
use trn.Newsrc.{
  NewsgroupData, tr_none, tr_bogus, visible_line, rc_numbers, set_byte, hide_subscribe_char,
  mark_changed,
}
use trn.Text.Decimal.{decimal, format_long-pos, decimal_one}

module _ (np : NewsgroupData) (name : Bytes) (size : ℕ) (off : np.num_offset ≢ 0)
    (fits : length name ≡ np.num_offset - 1) where
  read_all-fields :
      ((read_all name (pos size) np).num_offset ≡ np.num_offset)
      × ((read_all name (pos size) np).ng_max ≡ np.ng_max)
      × ((read_all name (pos size) np).to_read ≡ tr_none)
  unfolding read_all hide_subscribe_char mark_changed
  read_all-fields = elim (Bool-cases (np.num_offset == 0)) [
    | inl zero_there ↦ absurd (ground arith)
    | inr there ↦ rw there (refl, refl, refl)
  ]

  rc_numbers-read_all : rc_numbers (read_all name (pos size) np) ≡ b' ' ∷ render (span 1 size ∷ [])
  unfolding read_all hide_subscribe_char mark_changed rc_numbers
  rc_numbers-read_all =
      let there : (np.num_offset == 0) ≡ false = ground arith in
      let numbers : Bytes = b' ' ∷ b'1' ∷ b'-' ∷ decimal size in
      let hidden = set_byte (name ++ (b':' ∷ numbers)) (np.num_offset - 1) 0 in
      let room : min np.num_offset (length hidden) ≡ np.num_offset = omega (
        arith,
        length-set_byte (name ++ (b':' ∷ numbers)) (np.num_offset - 1) 0,
        length-append {0} name (b':' ∷ numbers),
        fits,
      ) in
      let past : np.num_offset ≡ suc (np.num_offset - 1) = omega arith in
      rw (there, format_long-pos, room, decimal_one, append-nil)
        (ap (λ (k : ℕ). drop k hidden) past
          ∙ drop-set_byte name numbers b':' 0 (np.num_offset - 1) fits)

above_max :
    (a : ℕ) (np : NewsgroupData)
    → a ≢ 0
    → np.num_offset ≢ 0
    → np.to_read ≢ tr_bogus
    → ltb_ℤ np.ng_max (pos a) ≡ true
    → was_read_group (pos a) (some np) ≡ some false
unfolding was_read_group
above_max a np nz off known over =
    let bogus_test : eqb_ℤ np.to_read tr_bogus ≡ false =
      ground (arith, eqb_ℤ_iff np.to_read tr_bogus) in
    let off_test : (np.num_offset == 0) ≡ false = ground arith in
    let nz_test : eqb_ℤ (pos a) (pos 0) ≡ false = ground arith in
    rw (nz_test, off_test, bogus_test, over) refl

-- What is read once all is.
read_all-was_read :
    (np : NewsgroupData) (name : Bytes) (size a : ℕ)
    → np.num_offset ≢ 0
    → length name ≡ np.num_offset - 1
    → np.ng_max ≡ pos size
    → size < 2 ^ 63
    → a ≢ 0
    → was_read_group (pos a) (some (read_all name (pos size) np)) ≡ some (leb a size)
read_all-was_read np name size a off fits top small nz =
    let (same_offset, same_max, none_left) = read_all-fields np name size off fits in
    elim (Bool-cases (leb a size)) [
      | inl within ↦
          let inside : leb_ℤ (pos a) (read_all name (pos size) np).ng_max ≡ true =
            rw (same_max, top) (ground arith) in
          rw within (
            was_read_group-render (read_all name (pos size) np) (span 1 size ∷ []) 0 a
              (rc_numbers-read_all np name size off fits) (omega arith, omega arith, small, tt)
              (λ e. off (sym same_offset ∙ e)) (λ e. absurd (ground (arith, none_left, e))) nz
              inside
            ∙ ground arith)
      | inr beyond ↦ rw beyond (
          above_max a (read_all name (pos size) np) nz (λ e. off (sym same_offset ∙ e))
            (λ e. absurd (ground (arith, none_left, e))) (rw (same_max, top) (ground arith)))
    ]

abbrev greater : ℕ → ℕ → ℕ
greater high m = if leb high m then m else high

-- The size found is the greater of the two highest numbers, and the group's from then on.
record IsSized (np : NewsgroupData) (g : Totals) (n : ℕ) (r : NewsgroupData × Totals × ℤ)
    : Type 0 where
  same_offset : r.0.num_offset ≡ np.num_offset
  top : r.0.ng_max ≡ pos n
  size : r.2 ≡ pos n

newsgroup_size-IsSized :
    (np : NewsgroupData) (g : Totals) (low : ℤ) (high m : ℕ)
    → np.ng_max ≡ pos m
    → IsSized np g (greater high m) (newsgroup_size (some (low, pos high)) g np)
unfolding newsgroup_size
newsgroup_size-IsSized np g low high m top = record {
  same_offset = ground arith;
  top = ground (arith, top);
  size = ground (arith, top);
}

-- A group whose mark is hidden behind a name without a NUL, and that the active file has from `low`
-- to `high`: `catch_up` without articles to leave gives a group in which nothing is to read, and in which an article from
-- 1 on counts as read exactly when it is not above the highest number known, be it the group's or
-- that of the active file.
pub catch_up-was_read :
    (np : NewsgroupData) (g : Totals) (low : ℤ) (high m : ℕ)
    → np.num_offset ≢ 0
    → length (visible_line np) ≡ np.num_offset - 1
    → np.ng_max ≡ pos m
    → high < 2 ^ 63
    → m < 2 ^ 63
    → (np' : NewsgroupData) × (g' : Totals) × (catch_up 0 (some (low, pos high)) g np
        ≡ some (np', g'))
      × (np'.to_read ≡ tr_none)
      × ((a : ℕ) → a ≢ 0 → was_read_group (pos a) (some np') ≡ some (leb a high || leb a m))
unfolding catch_up
catch_up-was_read np g low high m off fits top small small' =
    let r = newsgroup_size (some (low, pos high)) g np in
    let n = greater high m in
    let sized = newsgroup_size-IsSized np g low high m top in
    let here : r.0.num_offset ≢ 0 = λ e. off (sym sized.same_offset ∙ e) in
    let long : length (visible_line np) ≡ r.0.num_offset - 1 =
      fits ∙ ap (λ (k : ℕ). k - 1) (sym sized.same_offset) in
    (
      read_all (visible_line np) r.2 r.0,
      _,
      refl,
      rw sized.size (read_all-fields r.0 (visible_line np) n here long).2,
      λ a nz.
          let both : leb a n ≡ leb a high || leb a m = ground arith in
          rw (sized.size, ← both)
            (read_all-was_read r.0 (visible_line np) n a here long sized.top (ground arith) nz),
    )
