-- ===== src/EditDistance/Rows.antt =====
-- The rows that `edit_distn` fills beside the distance of libtrn/edit_dist.cpp's comment.
use native.Mathlib.Nat.{mod-eq_of_lt}
use trn.Base.{
  ℕ, zero, suc, ◌+◌, ◌-◌, ◌*◌, ◌≤◌, ◌<◌, ◌%◌, ◌==◌, if◌then◌else◌, Bytes, length, arith, ◌≡◌, refl,
  Bool-cases, inl, inr, ltb, sym, ◌∙◌, ap, min,
}
use trn.EditDistance.{
  Scratch, at, min3, min_dist, change_cost, put_first, first_cell, first_row, cell, columns, rows,
  fill,
}
use trn.Hash.{replicate}
use trn.EditDistance.Distance.{dist, low_row-IsOver, later_row-over}
use trn.EditDistance.Ring.{write-IsRing, mod-back}
use trn.EditDistance.Cells.{IsAt, past_rows, length-row_past, at-row_past, cell_value-dist}

low-last-le : (v low y : ℕ) → (if ltb v low then v else if y == 0 then v else low) ≤ v
low-last-le v low y = ground arith

low-earlier-le :
    (v low y d : ℕ) → 0 < y → low ≤ d → (if ltb v low then v else if y == 0 then v else low) ≤ d
low-earlier-le v low y d pos le = ground arith

length-replicate {ℓ} : {A : Type ℓ} (n : ℕ) (x : A) → length (replicate n x) ≡ n
unfolding replicate
length-replicate zero x = refl
length-replicate (suc n) x = omega (arith, length-replicate n x)

module _ (from to : Bytes) where
  -- The state in row `x + 1` behind column `y`: the buffer, and `low` bounds the row so far.
  record IsFilling (x y : ℕ) (st : Scratch) : Type 0 where
    ring : IsAt from to x y st
    below : (c : ℕ) → c < y → st.low ≤ dist from to (suc x) (suc c)

  cell-IsFilling :
      (st : Scratch) (x y : ℕ)
      → y < length from
      → IsFilling (suc x) y st
      → IsFilling (suc x) (suc y) (cell (2 * length from + 3) from to (suc x) y st)
  unfolding cell
  cell-IsFilling st x y h filling =
      let value = cell_value-dist from to st x y h filling.ring in
      record {
        ring = rw value (
            write-IsRing (2 * length from + 3) (dist from to (suc (suc x)) (suc y)) st.buffer
              st.index _ filling.ring);
        below = λ c l. rw value (lower c l);
      }
    where
      lower :
          (c : ℕ)
          → c < suc y
          → (let v = dist from to (suc (suc x)) (suc y) in
              (if ltb v st.low then v else if y == 0 then v else st.low)
              ≤ dist from to (suc (suc x)) (suc c))
      lower c l = elim (Bool-cases (c == y)) [
        | inl here ↦
            let e : c ≡ y = ground arith in
            rw e (low-last-le (dist from to (suc (suc x)) (suc y)) st.low y)
        | inr before ↦
            low-earlier-le (dist from to (suc (suc x)) (suc y)) st.low y _ (ground arith)
              (filling.below c (ground arith))
      ]

  columns-IsFilling :
      (k x y : ℕ) (st : Scratch)
      → y + k ≡ length from
      → IsFilling (suc x) y st
      → IsFilling (suc x) (length from) (columns (2 * length from + 3) from to k (suc x) y st)
  unfolding columns
  columns-IsFilling zero x y st e filling =
      let same : length from ≡ y = omega arith in rw same filling
  columns-IsFilling (suc k) x y st e filling =
      columns-IsFilling k x (suc y) _ (omega arith) (cell-IsFilling st x y (omega arith) filling)

  IsAt-column : (x y z : ℕ) (st : Scratch) → y ≡ z → IsAt from to x z st → IsAt from to x y st
  IsAt-column x y z st e ring = rw e ring

  -- The value behind the index is the last one of the row.
  last_value :
      (x y : ℕ) (st : Scratch)
      → y < length from
      → IsAt from to x (suc y) st
      → at st.buffer ((st.index + (2 * length from + 3) - 1) % (2 * length from + 3))
        ≡ dist from to (suc x) (suc y)
  last_value x y st h ring =
      let same : st.index + (2 * length from + 3) - 1 ≡ st.index + (2 * length from + 3) - 1 - 0 =
        omega arith in
      rw same (
        ring.holds 0 (omega arith)
          (omega (arith, length-row_past from to x (suc y) (past_rows from to x)))
        ∙ at-row_past from to x (suc y) 0 y (past_rows from to x) (omega arith))

  put_first-IsAt :
      (y low : ℕ) (st : Scratch)
      → suc y < 2 * length from + 3
      → st.index ≡ y
      → IsAt from to 0 y st
      → IsAt from to 0 (suc y) (put_first (dist from to 1 (suc y)) low st)
  put_first-IsAt y low st h e ring =
      let small : suc st.index % (2 * length from + 3) ≡ suc st.index =
        mod-eq_of_lt (omega arith) in
      rw small at
        (write-IsRing (2 * length from + 3) (dist from to 1 (suc y)) st.buffer st.index _ ring)

  first_value :
      (y : ℕ) (st : Scratch)
      → suc y < length from
      → st.index ≡ suc y
      → IsAt from to 0 (suc y) st
      → at st.buffer (st.index - 1) ≡ dist from to 1 (suc y)
  first_value y st h e ring =
      let back : (st.index + (2 * length from + 3) - 1) % (2 * length from + 3) ≡ st.index - 1 =
        ground (arith, mod-back (2 * length from + 3) st.index 0 ring.inside) in
      sym (ap (at st.buffer) back) ∙ last_value 0 y st (omega arith) ring

  first_row-dist :
      (y : ℕ)
      → dist from to 1 (suc y)
        ≡ min3 (y + change_cost (at from y) (at to 0)) (suc y + 1) (dist from to 1 y + 1)
  unfolding dist
  first_row-dist y = refl

  first_cell-dist : dist from to 1 1 ≡ min 2 (change_cost (at from 0) (at to 0))
  unfolding dist
  first_cell-dist = ground arith

  first_row-IsAt :
      (k y : ℕ) (st : Scratch)
      → suc y + k ≡ length from
      → st.index ≡ suc y
      → IsAt from to 0 (suc y) st
      → IsAt from to 0 (length from) (first_row (2 * length from + 3) from to k (suc y) st)
  unfolding first_row
  first_row-IsAt zero y st e i ring = IsAt-column 0 (length from) (suc y) st (omega arith) ring
  first_row-IsAt (suc k) y st e i ring =
      let read = first_value y st (omega arith) i ring in
      let value = sym (first_row-dist (suc y)) in
      first_row-IsAt k (suc y) _ (omega arith) (ap suc i) (
        rw (read, value)
          (put_first-IsAt (suc y) (min (dist from to 1 (suc (suc y))) st.low) st (omega arith) i
            ring))

  fresh_ring :
      IsAt from to 0 0 (record { buffer = replicate (2 * length from + 3) 0; index = 0; low = 0 })
  fresh_ring = record {
    size = length-replicate {A = ℕ} (2 * length from + 3) 0;
    inside = omega arith;
    holds = λ k l m. absurd (omega arith);
  }

  first_cell-IsAt :
      (st : Scratch)
      → st.index ≡ 0
      → IsAt from to 0 0 st
      → IsAt from to 0 1 (first_cell (2 * length from + 3) from to st)
  unfolding first_cell
  first_cell-IsAt st e ring =
      rw (← first_cell-dist) (put_first-IsAt 0 (dist from to 1 1) st (omega arith) e ring)

  abbrev result : Scratch → ℕ
  result st = at st.buffer ((st.index + (2 * length from + 3) - 1) % (2 * length from + 3))

  row_value :
      (x y : ℕ) (st : Scratch)
      → length from ≡ suc y
      → IsAt from to x (length from) st
      → result st ≡ dist from to (suc x) (suc y)
  row_value x y st e ring =
      last_value x y st (omega arith) (IsAt-column x (suc y) (length from) st (sym e) ring)

  first_cell-index :
      (st : Scratch) → (first_cell (2 * length from + 3) from to st).index ≡ suc st.index
  unfolding first_cell
  first_cell-index st = refl

  -- The rows that are left, and the value read at the end.
  rows-dist :
      (k x y z : ℕ) (st : Scratch)
      → length from ≡ suc y
      → z ≡ k + x
      → IsAt from to x (length from) st
      → min (suc min_dist) (result (rows (2 * length from + 3) from to k (suc x) st))
        ≡ min (suc min_dist) (dist from to (suc z) (suc y))
  unfolding rows
  rows-dist zero x y z st e s ring =
      let same : z ≡ x = omega arith in rw same (ap (min (suc min_dist)) (row_value x y st e ring))
  rows-dist (suc k) x y z st e s ring =
      let filled = columns (2 * length from + 3) from to (length from) (suc x) 0 st in
      let filling =
        columns-IsFilling (length from) x 0 st (omega arith)
          (record { ring = ring; below = λ c l. absurd (omega arith) }) in
      elim (Bool-cases (ltb min_dist filled.low)) [
        | inl high ↦
            let over =
              low_row-IsOver from to min_dist (length from) (suc x) (omega arith)
                (λ c l. ground (arith, filling.below c l)) in
            rw high (
              omega (
                arith,
                later_row-over from to min_dist (length from) 0 (suc x) y (suc x) over (omega arith)
                    (omega arith),
                later_row-over from to min_dist (length from) k (suc x) y z over (omega arith)
                    (omega arith),
                row_value (suc x) y filled e filling.ring,
              ))
        | inr low ↦ rw low (rows-dist k (suc x) y z filled e (omega arith) filling.ring)
      ]

  pub fill-dist :
      (x y : ℕ)
      → length from ≡ suc y
      → length to ≡ suc x
      → min (suc min_dist) (fill (2 * length from + 3) from to)
        ≡ min (suc min_dist) (dist from to (suc x) (suc y))
  unfolding fill
  fill-dist x y e f =
      let ey : length from - 1 ≡ y = omega arith in
      let ex : length to - 1 ≡ x = omega arith in
      rw (ey, ex)
        (rows-dist x 0 y x _ e (omega arith) (
          first_row-IsAt y 0 _ (omega arith) (first_cell-index _)
            (first_cell-IsAt _ refl fresh_ring)))
