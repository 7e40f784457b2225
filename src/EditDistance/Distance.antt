-- ===== src/EditDistance/Distance.antt =====
-- The distance that the comment in libtrn/edit_dist.cpp defines, as a recursion on the numbers of
-- bytes of `to` (the row) and `from` (the column) that are compared, with what bounds it.
use trn.Base.{
  ℕ, zero, suc, ◌+◌, ◌≤◌, ◌<◌, Bool, true, false, ◌&&◌, ◌==◌, if◌then◌else◌, Bytes, min, arith, ◌≡◌,
  refl,
}
use trn.EditDistance.{at, min3, change_cost}

over_if :
    {b p q r s : ℕ} (c : Bool)
    → b < p
    → b < q
    → b < r
    → b ≤ s
    → b < (if c then min (min3 p (q + 1) (r + 1)) (s + 1) else min3 p (q + 1) (r + 1))
over_if true hp hq hr hs = omega arith
over_if false hp hq hr hs = omega arith

over_change : {b p : ℕ} (c : ℕ) → b < p → b < p + c
over_change c h = omega arith

module _ (from to : Bytes) where
  -- Do the bytes `y` and `y + 1` of `from` stand in `to` the other way round, at `x` and `x + 1`?
  abbrev pub is_swap : ℕ → ℕ → Bool
  is_swap x y = (at from (suc y) == at to x) && (at from y == at to (suc x))

  unfoldable pub dist : ℕ → ℕ → ℕ
  dist zero y = y
  dist (suc x) zero = suc x
  dist (suc zero) (suc y) =
      min3 (dist zero y + change_cost (at from y) (at to 0)) (dist zero (suc y) + 1)
        (dist (suc zero) y + 1)
  dist (suc (suc x)) (suc zero) =
      min3 (suc x + change_cost (at from 0) (at to (suc x))) (dist (suc x) (suc zero) + 1)
        (suc (suc x) + 1)
  dist (suc (suc x)) (suc (suc y)) =
      let changed = dist (suc x) (suc y) + change_cost (at from (suc y)) (at to (suc x)) in
      let inserted = dist (suc x) (suc (suc y)) + 1 in
      let deleted = dist (suc (suc x)) (suc y) + 1 in
      let swapped = dist x y + 1 in
      let plain = min3 changed inserted deleted in if is_swap x y then min plain swapped else plain

  pub dist-le-insert : (x y : ℕ) → dist (suc x) y ≤ dist x y + 1
  unfolding dist
  dist-le-insert zero zero = omega arith
  dist-le-insert zero (suc y) = omega arith
  dist-le-insert (suc x) zero = omega arith
  dist-le-insert (suc x) (suc zero) = omega arith
  dist-le-insert (suc x) (suc (suc y)) = ground arith

  dist_column-le : (x : ℕ) → dist (suc x) 1 ≤ suc x
  unfolding dist
  dist_column-le zero = ground arith
  dist_column-le (suc x) = omega (arith, dist-le-insert (suc x) 1, dist_column-le x)

  -- A row `x + 1` whose columns from 1 to `m` all exceed a bound.
  pub record IsOver (b m x : ℕ) : Type 0 where
    row : b ≤ x
    cells : (y : ℕ) → y < m → b < dist (suc x) (suc y)
    above : (y : ℕ) → y ≤ m → b ≤ dist x y

  dist-zero : (x : ℕ) → dist x 0 ≡ x
  unfolding dist
  dist-zero zero = refl
  dist-zero (suc x) = refl

  pub low_row-IsOver :
      (b m x : ℕ) → 0 < m → ((y : ℕ) → y < m → b < dist (suc x) (suc y)) → IsOver b m x
  low_row-IsOver b m x h cells =
      let row : b ≤ x = omega (arith, cells 0 h, dist_column-le x) in
      record { row = row; cells = cells; above = above row }
    where
      above : b ≤ x → (y : ℕ) → y ≤ m → b ≤ dist x y
      above row zero le = omega (arith, dist-zero x)
      above row (suc y) le = omega (arith, cells y (omega arith), dist-le-insert x (suc y))

  next_cell-over : (b m x y : ℕ) → IsOver b m x → y < m → b < dist (suc (suc x)) (suc y)
  unfolding dist
  next_cell-over b m x zero o h = ground (arith, o.cells 0 h, o.row)
  next_cell-over b m x (suc y) o h =
      over_if (is_swap x y) (over_change _ (o.cells y (omega arith))) (o.cells (suc y) h)
        (next_cell-over b m x y o (omega arith)) (o.above y (omega arith))

  -- Every later row exceeds the bound, too.
  pub next_row-IsOver : (b m x : ℕ) → IsOver b m x → IsOver b m (suc x)
  next_row-IsOver b m x o = record {
    row = omega (arith, o.row);
    cells = λ y h. next_cell-over b m x y o h;
    above = above;
  }
    where
      above : (y : ℕ) → y ≤ m → b ≤ dist (suc x) y
      above zero le = omega (arith, dist-zero (suc x), o.row)
      above (suc y) le = omega (arith, o.cells y (omega arith))

  pub later_row-over :
      (b m k x y z : ℕ) → IsOver b m x → y < m → z ≡ k + x → b < dist (suc z) (suc y)
  later_row-over b m zero x y z o h e = let same : z ≡ x = omega arith in rw same (o.cells y h)
  later_row-over b m (suc k) x y z o h e =
      later_row-over b m k (suc x) y z (next_row-IsOver b m x o) h (omega arith)
