-- ===== src/Newsrc/Rewrite/Tail.antt =====
-- What the two loops of `bits_to_rc` (libtrn/bits.cpp) write, as a list of ranges.
use trn.Base.{
  ℕ, zero, suc, ◌+◌, ◌-◌, ◌^◌, ◌≤◌, ◌<◌, true, false, not, ◌&&◌, ◌||◌, ◌≡◌, refl, ◌∙◌, ap, List, [],
  ◌∷◌, ◌++◌, append_assoc, append-nil, Bytes, leb, ltb, ◌==◌, if◌then◌else◌, Bool-cases, inl, inr,
  arith,
}
use trn.Cache.{Articles, was_read}
use trn.Newsrc.Ranges.{Range, single, span, covers, render_range, IsAscending, in_range, low, high}
use trn.Newsrc.Rewrite.{run_end, run_text, write_runs}

-- The range of the read articles from `i` to `e`.
abbrev run : ℕ → ℕ → Range
run i e = if ltb i e then span i e else single i

low-run : (i e : ℕ) → low (run i e) ≡ i
low-run i e = ground arith

high-run-le : (i e : ℕ) → i ≤ e → high (run i e) ≤ e
high-run-le i e h = ground arith

-- The ranges, each followed by a comma.
abbrev pub with_commas : List Range → Bytes
with_commas [] = []
with_commas (r ∷ rs) = render_range r ++ (b',' ∷ with_commas rs)

module _ (l : Articles) (last_art : ℕ) where
  pub tail_ranges : ℕ → ℕ → List Range
  tail_ranges zero i = []
  tail_ranges (suc f) i =
      let after = run_end l last_art (last_art - i) (suc i) in
      let later = tail_ranges f (suc i) in
      let runs = run i (after - 1) ∷ tail_ranges f (suc (after - 1)) in
      if leb i last_art then if not (was_read l i) then later else runs else []

  -- The unread articles among the `left` numbers from `i` on.
  pub count_unread : ℕ → ℕ → ℕ
  count_unread zero i = 0
  count_unread (suc left) i = (if was_read l i then 0 else 1) + count_unread left (suc i)

  run_end-ge : (left i : ℕ) → i ≤ run_end l last_art left i
  unfolding run_end
  run_end-ge zero i = omega arith
  run_end-ge (suc left) i = ground (arith, run_end-ge left (suc i))

  run_end-le : (left i : ℕ) → run_end l last_art left i ≤ i + left
  unfolding run_end
  run_end-le zero i = omega arith
  run_end-le (suc left) i = ground (arith, run_end-le left (suc i))

  was_read-run_end : (left i j : ℕ) → i ≤ j → j < run_end l last_art left i → was_read l j ≡ true
  unfolding run_end
  was_read-run_end zero i j h b = absurd (omega arith)
  was_read-run_end (suc left) i j h b = elim (Bool-cases (j == i)) [
    | inl same ↦ ground arith
    | inr other ↦ ground (arith, was_read-run_end left (suc i) j)
  ]

  run_text-run : (i e : ℕ) → run_text l last_art i e ≡ render_range (run i e) ++ (b',' ∷ [])
  run_text-run i e = elim (Bool-cases (ltb i e)) [
    | inl more ↦ rw (more, append_assoc)
    | inr one ↦ rw one
  ]

  pub write_runs-line :
      (f i count : ℕ) (line : Bytes)
      → (write_runs l last_art f i count line).0 ≡ line ++ with_commas (tail_ranges f i)
  unfolding write_runs tail_ranges
  write_runs-line zero i count line = rw append-nil
  write_runs-line (suc f) i count line = elim (Bool-cases (leb i last_art)) [
    | inr past ↦ rw (past, append-nil)
    | inl within ↦ elim (Bool-cases (was_read l i)) [
      | inr unseen ↦ rw (within, unseen) (write_runs-line f (suc i) (suc count) line)
      | inl seen ↦
          let e = run_end l last_art (last_art - i) (suc i) - 1 in
          rw (within, seen)
            (write_runs-line f (suc e) count (line ++ run_text l last_art i e)
              ∙ rw (run_text-run i e, append_assoc, append_assoc))
    ]
  ]

  -- The articles from a read one up to the end of its run were read.
  was_read-within :
      (i j : ℕ)
      → was_read l i ≡ true
      → i ≤ j
      → j < run_end l last_art (last_art - i) (suc i)
      → was_read l j ≡ true
  was_read-within i j seen lo hi = elim (Bool-cases (j == i)) [
    | inl same ↦ ground arith
    | inr other ↦ was_read-run_end (last_art - i) (suc i) j (ground arith) hi
  ]

  covers-run :
      (i e a : ℕ)
      → i ≤ e
      → e ≤ last_art
      → ((j : ℕ) → i ≤ j → j ≤ e → was_read l j ≡ true)
      → (in_range (run i e) a || (leb (suc e) a && leb a last_art && was_read l a))
        ≡ (leb i a && leb a last_art && was_read l a)
  covers-run i e a h b seen = ground (arith, seen a)

  pub covers-tail_ranges :
      (f i a : ℕ)
      → suc last_art < f + i
      → covers (tail_ranges f i) a ≡ (leb i a && leb a last_art && was_read l a)
  unfolding tail_ranges
  covers-tail_ranges zero i a h = ground arith
  covers-tail_ranges (suc f) i a h = elim (Bool-cases (leb i last_art)) [
    | inr past ↦ rw past (ground arith)
    | inl within ↦ elim (Bool-cases (was_read l i)) [
      | inr unseen ↦ rw (within, unseen) (ground (arith, covers-tail_ranges f (suc i) a))
      | inl seen ↦
          let e = run_end l last_art (last_art - i) (suc i) - 1 in
          let ge = run_end-ge (last_art - i) (suc i) in
          let le = run_end-le (last_art - i) (suc i) in
          rw (within, seen, covers-tail_ranges f (suc e) a (omega arith))
            (covers-run i e a (omega arith) (ground arith)
              (λ j lo hi. was_read-within i j seen lo (ground arith)))
    ]
  ]

  pub tail_ranges-IsAscending :
      (f k i : ℕ) → last_art < 2 ^ 63 → k ≤ i → IsAscending k (tail_ranges f i)
  unfolding tail_ranges
  tail_ranges-IsAscending zero k i b h = tt
  tail_ranges-IsAscending (suc f) k i b h = elim (Bool-cases (leb i last_art)) [
    | inr past ↦ rw past tt
    | inl within ↦ elim (Bool-cases (was_read l i)) [
      | inr unseen ↦ rw (within, unseen) (tail_ranges-IsAscending f k (suc i) b (omega arith))
      | inl seen ↦
          let e = run_end l last_art (last_art - i) (suc i) - 1 in
          let ge = run_end-ge (last_art - i) (suc i) in
          let le = run_end-le (last_art - i) (suc i) in
          let top : i ≤ last_art = ground arith in
          rw (within, seen)
            (
              rw low-run h,
              rw low-run (omega arith),
              omega (arith, high-run-le i e (omega arith)),
              rw low-run (tail_ranges-IsAscending f i (suc e) b (omega arith)),
            )
    ]
  ]

  count_unread-run :
      (left i left' : ℕ)
      → run_end l last_art left i + left' ≡ i + left
      → count_unread left i ≡ count_unread left' (run_end l last_art left i)
  unfolding run_end count_unread
  count_unread-run zero i zero h = refl
  count_unread-run zero i (suc left') h = absurd (omega arith)
  count_unread-run (suc left) i left' h = elim (Bool-cases (was_read l i)) [
    | inl seen ↦
        let h' : run_end l last_art left (suc i) + left' ≡ suc i + left = ground arith in
        rw seen (omega (arith, count_unread-run left (suc i) left' h'))
    | inr unseen ↦
        let all_left : left' ≡ suc left = ground arith in
        rw (unseen, all_left) (unfold count_unread in rw unseen)
  ]

  pub write_runs-count :
      (f i left count : ℕ) (line : Bytes)
      → suc last_art < f + i
      → left + i ≡ suc last_art
      → (write_runs l last_art f i count line).1 ≡ count + count_unread left i
  unfolding write_runs count_unread
  write_runs-count zero i left count line h total = absurd (omega arith)
  write_runs-count (suc f) i zero count line h total =
      let past : leb i last_art ≡ false = ground arith in rw past (omega arith)
  write_runs-count (suc f) i (suc left) count line h total =
      let within : leb i last_art ≡ true = ground arith in
      elim (Bool-cases (was_read l i)) [
        | inr unseen ↦
            rw (within, unseen)
              (omega (
                arith,
                write_runs-count f (suc i) left (suc count) line (omega arith) (omega arith),
              ))
        | inl seen ↦
            let after = run_end l last_art (last_art - i) (suc i) in
            let ge : suc i ≤ after = run_end-ge (last_art - i) (suc i) in
            let le : after ≤ suc i + (last_art - i) = run_end-le (last_art - i) (suc i) in
            let left' = suc last_art - after in
            let same : last_art - i ≡ left = omega arith in
            let back : suc (after - 1) ≡ after = omega arith in
            let rest =
              write_runs-count f (suc (after - 1)) left' count
                (line ++ run_text l last_art i (after - 1)) (omega arith) (omega arith) in
            let skipped = count_unread-run (last_art - i) (suc i) left' (omega arith) in
            rw (within, seen)
              (rest
                ∙ (rw back (omega (arith, skipped, ap (λ (n : ℕ). count_unread n (suc i)) same))))
      ]

  -- Read articles do not count.
  pub count_unread-skip :
      (n i left e : ℕ)
      → left + e ≡ n + i
      → i ≤ e
      → ((j : ℕ) → i ≤ j → j < e → was_read l j ≡ true)
      → count_unread n i ≡ count_unread left e
  unfolding count_unread
  count_unread-skip zero i zero e h le seen = refl
  count_unread-skip zero i (suc left) e h le seen = absurd (omega arith)
  count_unread-skip (suc n) i left e h le seen = elim (Bool-cases (e == i)) [
    | inl same ↦
        let start : e ≡ i = ground arith in
        let whole : left ≡ suc n = omega arith in rw (start, whole)
    | inr other ↦
        let first_read : was_read l i ≡ true = seen i (omega arith) (ground arith) in
        rw first_read (
          omega (
            arith,
            count_unread-skip n (suc i) left e (omega arith) (ground arith)
                (λ j lo hi. seen j (omega arith) hi),
          ))
  ]

  pub count_unread-zero : (i : ℕ) → count_unread 0 i ≡ 0
  unfolding count_unread
  count_unread-zero i = refl

  -- Above the last article the second loop writes nothing.
  pub write_runs-past :
      (f i count : ℕ) (line : Bytes)
      → last_art < i
      → (write_runs l last_art (suc f) i count line).1 ≡ count
  unfolding write_runs
  write_runs-past f i count line h = let past : leb i last_art ≡ false = ground arith in rw past
