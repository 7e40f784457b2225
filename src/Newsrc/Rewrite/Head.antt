-- ===== src/Newsrc/Rewrite/Head.antt =====
-- The first loop of `bits_to_rc` (libtrn/bits.cpp).
use trn.Base.{
  ℕ, zero, suc, ◌+◌, ◌≤◌, ◌<◌, true, ◌≡◌, ◌⊎◌, inl, inr, leb, ltb, ◌==◌, Bool-cases, All, arith,
}
use trn.Cache.{Article, Articles, IsOrdered, unread, was_read, next}
use trn.Cache.Bounds.{was_read-next, next-lt, next-fits, was_read-unread}
use trn.Newsrc.Rewrite.{first_unread}

module _ (l : Articles) (last_art : ℕ) where
  pub first_unread-ge : (f i : ℕ) → i ≤ first_unread l last_art f i
  unfolding first_unread
  first_unread-ge zero i = omega arith
  first_unread-ge (suc f) i = elim (Bool-cases (leb i last_art)) [
    | inr past ↦ rw past (omega arith)
    | inl within ↦
        let move = next-lt l last_art i (ground arith) in
        ground (arith, first_unread-ge f (next l last_art i))
  ]

  pub was_read-first_unread :
      (f i j : ℕ)
      → IsOrdered l
      → i ≤ j
      → j < first_unread l last_art f i
      → j ≤ last_art
      → was_read l j ≡ true
  unfolding first_unread
  was_read-first_unread zero i j v h b e = absurd (omega arith)
  was_read-first_unread (suc f) i j v h b e =
      let within : leb i last_art ≡ true = ground arith in
      elim (Bool-cases (unread l i)) [
        | inl unseen ↦ absurd (omega (arith, rw (within, unseen) at b))
        | inr seen ↦ elim (Bool-cases (j == i)) [
          | inl same ↦ ground (arith, was_read-unread l i)
          | inr other ↦ elim (Bool-cases (ltb j (next l last_art i))) [
            | inl between ↦ was_read-next l last_art i j v (ground arith) (ground arith) e
            | inr beyond ↦
                was_read-first_unread f (next l last_art i) j v (ground arith)
                  (rw (within, seen) at b) e
          ]
        ]
      ]

  pub first_unread-fits :
      (m f i : ℕ)
      → suc last_art ≤ m
      → All (λ (a : Article). a.num ≤ m) l
      → i ≤ m
      → first_unread l last_art f i ≤ m
  unfolding first_unread
  first_unread-fits m zero i h v b = b
  first_unread-fits m (suc f) i h v b =
      ground (arith, first_unread-fits m f (next l last_art i) h v (next-fits l last_art i m h v))

  -- If the number it starts from and the fuel together exceed the highest number plus one, as in
  -- `bits_to_rc`, the first loop ends by its test: at an unread article, or above the last one.
  pub first_unread-stops :
      (f i : ℕ)
      → suc last_art < f + i
      → (last_art < first_unread l last_art f i) ⊎ (unread l (first_unread l last_art f i) ≡ true)
  unfolding first_unread
  first_unread-stops zero i h = inl (omega arith)
  first_unread-stops (suc f) i h = elim (Bool-cases (leb i last_art)) [
    | inr past ↦ rw past (inl (ground arith))
    | inl within ↦ elim (Bool-cases (unread l i)) [
      | inl unseen ↦ rw (within, unseen) (inr unseen)
      | inr seen ↦
          let move = next-lt l last_art i (ground arith) in
          rw (within, seen) (first_unread-stops f (next l last_art i) (omega arith))
    ]
  ]
