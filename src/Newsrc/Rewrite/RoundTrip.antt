-- ===== src/Newsrc/Rewrite/RoundTrip.antt =====
-- What `bits_to_rc` (libtrn/bits.cpp) writes, and `was_read_group` on it.
use trn.Base.{
  ℕ, suc, ◌+◌, ◌-◌, ◌^◌, ◌≤◌, ◌<◌, Bool, true, false, ◌≡◌, ◌≢◌, refl, ◌∙◌, ap, sym, some, List, [],
  ◌∷◌, ◌++◌, append_assoc, Bytes, leb, ltb, ◌==◌, if◌then◌else◌, All, drop, length, length-append,
  length-take, min, Bool-cases, inl, inr, arith,
}
use trn.Base.Int.{pos, leb_ℤ, article_before}
use trn.Cache.{Article, Articles, IsOrdered, was_read, first}
use trn.Cache.Bounds.{was_read-first, first-le, first-fits}
use trn.Newsrc.{
  NewsgroupData, rc_numbers, rc_name, set_rc_line, tr_bogus, tr_unsub, set_byte, unsubscribed_char,
}
use trn.Newsrc.Lookup.{was_read_group}
use trn.Newsrc.Lookup.Canonical.{was_read_group-render}
use trn.Newsrc.Ranges.{Range, span, covers, render, IsAscending}
use trn.Newsrc.Rewrite.{first_unread, write_runs, drop_comma, bits_to_rc}
use trn.Newsrc.Rewrite.Head.{first_unread-ge, was_read-first_unread, first_unread-fits}
use trn.Newsrc.Rewrite.Tail.{
  with_commas, tail_ranges, count_unread, write_runs-line, covers-tail_ranges,
  tail_ranges-IsAscending, write_runs-count, count_unread-skip, count_unread-zero, write_runs-past,
}
use trn.Newsrc.Rewrite.Text.{drop_comma-with_commas, drop-set_byte, length-set_byte}
use trn.Text.Decimal.{format_long, format_long-pos, decimal_one}

-- The first number that the prefix does not cover, and the ranges written.
abbrev start : Articles → ℕ → ℕ → ℕ
start l abs_first last_art =
    first_unread l last_art (suc (suc last_art)) (first l last_art abs_first)

abbrev ranges : Articles → ℕ → ℕ → List Range
ranges l abs_first last_art =
    let i = start l abs_first last_art in
    span 1 (i - 1) ∷ tail_ranges l last_art (suc (suc last_art)) i

article_before-pos : (i : ℕ) → 1 ≤ i → article_before (pos i) ≡ pos (i - 1)
article_before-pos i h = ground arith

prefix-with_commas :
    (i : ℕ)
    → 1 ≤ i
    → b'1' ∷ b'-' ∷ (format_long (article_before (pos i)) ++ (b',' ∷ []))
      ≡ with_commas (span 1 (i - 1) ∷ [])
prefix-with_commas i h = rw (article_before-pos i h, format_long-pos, decimal_one)

module _ (np : NewsgroupData) (l : Articles) (abs_first last_art : ℕ) where
  abbrev head : Bytes
  head =
      rc_name np
      ++ (np.subscribe_char
          ∷ b' '
          ∷ b'1'
          ∷ b'-'
          ∷ (format_long (article_before (pos (start l abs_first last_art))) ++ (b',' ∷ [])))

  -- The line before its mark is hidden.
  abbrev line : Bytes
  line = rc_name np ++ (np.subscribe_char ∷ b' ' ∷ render (ranges l abs_first last_art))

  written :
      1 ≤ start l abs_first last_art
      → drop_comma
          (write_runs l last_art (suc (suc last_art)) (start l abs_first last_art) 0 head).0
        ≡ line
  written h =
      let i = start l abs_first last_art in
      let tail = tail_ranges l last_art (suc (suc last_art)) i in
      let front = rc_name np ++ (np.subscribe_char ∷ b' ' ∷ []) in
      rw (write_runs-line l last_art (suc (suc last_art)) i 0 head, prefix-with_commas i h)
        (simp append_assoc
          (simp append_assoc at (drop_comma-with_commas front (span 1 (i - 1)) tail)))

  rc_name-length :
      np.num_offset ≢ 0
      → np.num_offset ≤ length np.rc_line
      → suc (length (rc_name np)) ≡ np.num_offset
  unfolding rc_name
  rc_name-length nz fits =
      let test : (np.num_offset == 0) ≡ false = ground arith in
      rw test (omega (arith, length-take {0} (np.num_offset - 1) np.rc_line))

  rc_numbers-line :
      (q : NewsgroupData)
      → np.num_offset ≢ 0
      → np.num_offset ≤ length np.rc_line
      → q.num_offset ≡ np.num_offset
      → q.rc_line ≡ set_byte line (np.num_offset - 1) 0
      → rc_numbers q ≡ b' ' ∷ render (ranges l abs_first last_art)
  unfolding rc_numbers
  rc_numbers-line q nz fits eo el =
      let off = np.num_offset in
      let hidden = set_byte line (off - 1) 0 in
      let rest = b' ' ∷ render (ranges l abs_first last_art) in
      let size = rc_name-length nz fits in
      let room : min off (length hidden) ≡ off = omega (
        arith,
        length-set_byte line (off - 1) 0,
        length-append {0} (rc_name np) (np.subscribe_char ∷ rest),
        size,
      ) in
      let past : off ≡ suc (off - 1) = omega arith in
      rw (eo, el, room)
        (ap (λ (k : ℕ). drop k hidden) past
          ∙ drop-set_byte (rc_name np) rest np.subscribe_char 0 (off - 1) (omega (arith, size)))

module _ (l : Articles) (abs_first last_art : ℕ) (ordered : IsOrdered l) where
  start-ge : abs_first ≤ suc last_art → abs_first ≤ start l abs_first last_art
  start-ge h = omega (
    arith,
    first-le l last_art abs_first h,
    first_unread-ge l last_art (suc (suc last_art)) (first l last_art abs_first),
  )

  -- What the prefix passes over was read.
  was_read-start :
      (a : ℕ) → abs_first ≤ a → a ≤ last_art → a < start l abs_first last_art → was_read l a ≡ true
  was_read-start a lo hi below = elim (Bool-cases (ltb a (first l last_art abs_first))) [
    | inl early ↦ was_read-first l last_art abs_first a ordered lo (ground arith) hi
    | inr late ↦
        was_read-first_unread l last_art (suc (suc last_art)) (first l last_art abs_first) a ordered
          (ground arith) below hi
  ]

  covers-ranges :
      (a : ℕ)
      → 1 ≤ abs_first
      → abs_first ≤ a
      → a ≤ last_art
      → covers (ranges l abs_first last_art) a ≡ was_read l a
  covers-ranges a pos_first lo hi =
      let i = start l abs_first last_art in
      let tail = covers-tail_ranges l last_art (suc (suc last_art)) i a (omega arith) in
      let beyond = start-ge (omega arith) in
      elim (Bool-cases (ltb a i)) [
        | inl early ↦ ground (arith, tail, was_read-start a lo hi (ground arith))
        | inr late ↦ ground (arith, tail)
      ]

  ranges-IsAscending :
      1 ≤ abs_first
      → suc last_art < 2 ^ 63
      → abs_first ≤ suc last_art
      → All (λ (a : Article). a.num ≤ 2 ^ 63 - 1) l
      → IsAscending 0 (ranges l abs_first last_art)
  ranges-IsAscending pos_first b h fits = (
    omega arith,
    omega arith,
    omega (
      arith,
      first_unread-fits l last_art (2 ^ 63 - 1) (suc (suc last_art)) (first l last_art abs_first)
          (omega arith) fits (first-fits l last_art abs_first (2 ^ 63 - 1) (omega arith) fits),
    ),
    tail_ranges-IsAscending l last_art (suc (suc last_art)) 1 (start l abs_first last_art)
        (omega arith) (omega (arith, start-ge h)),
  )

module _ (np : NewsgroupData) (l : Articles) (abs_first last_art : ℕ) where
  bits_to_rc-fields :
      np.num_offset ≢ 0
      → ((bits_to_rc np l abs_first last_art).num_offset ≡ np.num_offset)
        × ((bits_to_rc np l abs_first last_art).ng_max ≡ np.ng_max)
        × ((bits_to_rc np l abs_first last_art).to_read ≡ (
            if np.subscribe_char == unsubscribed_char
            then tr_unsub
            else pos
                (write_runs l last_art
                  (suc (suc last_art))
                  (start l abs_first last_art)
                  0
                  (head np l abs_first last_art)).1))
        × ((bits_to_rc np l abs_first last_art).rc_line
            ≡ set_byte
                (drop_comma
                  (write_runs l last_art
                    (suc (suc last_art))
                    (start l abs_first last_art)
                    0
                    (head np l abs_first last_art)).0)
                (np.num_offset - 1)
                0)
  unfolding bits_to_rc set_rc_line
  bits_to_rc-fields nz =
      let test : (np.num_offset == 0) ≡ false = ground arith in rw test (refl, refl, refl, refl)

-- A group that is being read: the line has a place for the mark, the articles stand in the order
-- of a map, numbers start from 1, and all of them fit a `long`.
pub record IsCurrent (np : NewsgroupData) (l : Articles) (abs_first last_art : ℕ) : Type 0 where
  pub has_numbers : np.num_offset ≢ 0
  pub offset_fits : np.num_offset ≤ length np.rc_line
  pub ordered : IsOrdered l
  pub first_pos : 1 ≤ abs_first
  pub first_fits : abs_first ≤ suc last_art
  pub last_fits : suc last_art < 2 ^ 63
  pub keys_fit : All (λ (a : Article). a.num ≤ 2 ^ 63 - 1) l

bogus_ne : (b : Bool) (n : ℕ) → (if b then tr_unsub else pos n) ≢ tr_bogus
bogus_ne true n = λ e. cc
bogus_ne false n = λ e. cc

-- In a current group whose highest number is at least `a`, after `bits_to_rc` the line says of each
-- article `a` from `abs_first` to `last_art` what its flags say: `was_read_group` answers `was_read`.
pub bits_to_rc-was_read :
    {np : NewsgroupData} {l : Articles} {abs_first last_art : ℕ}
    → IsCurrent np l abs_first last_art
    → (a : ℕ) → abs_first ≤ a
    → a ≤ last_art
    → leb_ℤ (pos a) np.ng_max ≡ true
    → was_read_group (pos a) (some (bits_to_rc np l abs_first last_art)) ≡ some (was_read l a)
bits_to_rc-was_read {np} {l} {abs_first} {last_art} c a lo hi max =
    let q = bits_to_rc np l abs_first last_art in
    let (off, top, unread, text) = bits_to_rc-fields np l abs_first last_art c.has_numbers in
    let begun = start-ge l abs_first last_art c.ordered c.first_fits in
    let line_is = written np l abs_first last_art (omega arith) in
    let numbers =
      rc_numbers-line np l abs_first last_art q c.has_numbers c.offset_fits off
        (rw line_is at text) in
    was_read_group-render q (ranges l abs_first last_art) 0 a numbers
      (ranges-IsAscending l abs_first last_art c.ordered c.first_pos c.last_fits c.first_fits
        c.keys_fit)
      (rw off c.has_numbers) (rw unread (bogus_ne (np.subscribe_char == unsubscribed_char) _))
      (omega arith) (rw top max)
    ∙ ap some (covers-ranges l abs_first last_art c.ordered a c.first_pos lo hi)

counted :
    (l : Articles) (abs_first last_art : ℕ)
    → IsOrdered l
    → abs_first ≤ suc last_art
    → (line : Bytes)
    → (write_runs l last_art (suc (suc last_art)) (start l abs_first last_art) 0 line).1
      ≡ count_unread l last_art (suc last_art - abs_first) abs_first
counted l abs_first last_art v h line =
    let i = start l abs_first last_art in
    let n = suc last_art - abs_first in
    let begun = start-ge l abs_first last_art v h in
    let seen = was_read-start l abs_first last_art v in
    elim (Bool-cases (leb i (suc last_art))) [
      | inl within ↦
          let top : i ≤ suc last_art = ground arith in
          omega (
            arith,
            write_runs-count l last_art (suc (suc last_art)) i (suc last_art - i) 0 line
                (omega arith) (omega arith),
            count_unread-skip l last_art n abs_first (suc last_art - i) i (omega arith) begun
                (λ j lo hi. seen j lo (omega arith) hi),
          )
      | inr past ↦
          let above : suc last_art < i = ground arith in
          write_runs-past l last_art (suc last_art) i 0 line (omega arith)
          ∙ sym (
              count_unread-skip l last_art n abs_first 0 (abs_first + n) (omega arith) (omega arith)
                (λ j lo hi. seen j lo (omega arith) (omega arith))
              ∙ count_unread-zero l last_art (abs_first + n))
    ]

-- In a current group `bits_to_rc` sets the number of articles to read to the count of the articles
-- from `abs_first` to `last_art` that are unread, or to -1 where the group is unsubscribed.
pub bits_to_rc-to_read :
    {np : NewsgroupData} {l : Articles} {abs_first last_art : ℕ}
    → IsCurrent np l abs_first last_art
    → (bits_to_rc np l abs_first last_art).to_read ≡ (
        if np.subscribe_char == unsubscribed_char
        then tr_unsub
        else pos (count_unread l last_art (suc last_art - abs_first) abs_first))
bits_to_rc-to_read {np} {l} {abs_first} {last_art} c =
    rw
      (
        (bits_to_rc-fields np l abs_first last_art c.has_numbers).2,
        counted l abs_first last_art c.ordered c.first_fits (head np l abs_first last_art),
      )
      refl
