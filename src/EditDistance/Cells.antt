-- ===== src/EditDistance/Cells.antt =====
-- What a cell of `edit_distn` reads back from the buffer, and the value that it gets.
use trn.Base.{
  ℕ, zero, suc, ◌+◌, ◌-◌, ◌*◌, ◌≤◌, ◌<◌, ◌%◌, true, List, [], ◌∷◌, Bytes, length, arith, ◌≡◌, refl,
  ltb, ◌∙◌, ap,
}
use trn.EditDistance.{Scratch, at, ar, cell_value}
use trn.EditDistance.Distance.{dist}
use trn.EditDistance.Ring.{IsRing, at-cons_zero, at-cons_suc}

module _ (from to : Bytes) where
  -- The values of row `x + 1` up to column `y`, the last one first, before what was written earlier.
  abbrev pub row_past : ℕ → ℕ → List ℕ → List ℕ
  row_past x zero past = past
  row_past x (suc y) past = dist from to (suc x) (suc y) ∷ row_past x y past

  abbrev pub past_rows : ℕ → List ℕ
  past_rows zero = []
  past_rows (suc x) = row_past x (length from) (past_rows x)

  pub length-row_past : (x y : ℕ) (past : List ℕ) → length (row_past x y past) ≡ y + length past
  length-row_past x zero past = omega arith
  length-row_past x (suc y) past = omega (arith, length-row_past x y past)

  -- A value of the row itself, and one from before it.
  pub at-row_past :
      (x y k d : ℕ) (past : List ℕ)
      → y ≡ k + suc d
      → at (row_past x y past) k ≡ dist from to (suc x) (suc d)
  at-row_past x zero k d past h = absurd (omega arith)
  at-row_past x (suc y) zero d past h = let e : y ≡ d = omega arith in rw e (at-cons_zero _ _)
  at-row_past x (suc y) (suc k) d past h =
      at-cons_suc _ _ k ∙ at-row_past x y k d past (omega arith)

  at-row_past_before : (x y k : ℕ) (past : List ℕ) → at (row_past x y past) (y + k) ≡ at past k
  at-row_past_before x zero k past = ap (at past) (omega arith)
  at-row_past_before x (suc y) k past =
      ap (at (row_past x (suc y) past)) {y = suc (y + k)} (omega arith)
      ∙ at-cons_suc _ _ (y + k)
      ∙ at-row_past_before x y k past

  at_above :
      (x y d k : ℕ)
      → d < length from
      → k + suc d ≡ y + length from
      → at (row_past (suc x) y (past_rows (suc x))) k ≡ dist from to (suc x) (suc d)
  at_above x y d k h e =
      ap (at (row_past (suc x) y (past_rows (suc x)))) {y = y + (length from - suc d)} (omega arith)
      ∙ at-row_past_before (suc x) y (length from - suc d) (past_rows (suc x))
      ∙ at-row_past x (length from) (length from - suc d) d (past_rows x) (omega arith)

  at_two_above :
      (x y d k : ℕ)
      → d < length from
      → k + suc d ≡ y + length from + length from
      → at (row_past (suc (suc x)) y (past_rows (suc (suc x)))) k ≡ dist from to (suc x) (suc d)
  at_two_above x y d k h e =
      let j = length from - suc d in
      ap (at (row_past (suc (suc x)) y (past_rows (suc (suc x))))) {y = y + (length from + j)}
        (omega arith)
      ∙ at-row_past_before (suc (suc x)) y (length from + j) (past_rows (suc (suc x)))
      ∙ at-row_past_before (suc x) (length from) j (past_rows (suc x))
      ∙ at-row_past x (length from) j d (past_rows x) (omega arith)

  ar-zero : (r : ℕ) (buffer : List ℕ) (y i : ℕ) → ar r buffer 0 y i ≡ dist from to 0 y
  unfolding ar dist
  ar-zero r buffer y i = refl

  ar-column : (r : ℕ) (buffer : List ℕ) (x i : ℕ) → ar r buffer x 0 i ≡ dist from to x 0
  unfolding ar dist
  ar-column r buffer zero i = refl
  ar-column r buffer (suc x) i = ground arith

  ar-inner :
      (r : ℕ) (buffer : List ℕ) (x y i : ℕ) → ar r buffer (suc x) (suc y) i ≡ at buffer (i % r)
  unfolding ar
  ar-inner r buffer x y i = ground arith

  -- The state while row `x + 1` is filled, up to column `y`.
  abbrev pub IsAt : ℕ → ℕ → Scratch → Type 0
  IsAt x y st = IsRing (2 * length from + 3) st.buffer st.index (row_past x y (past_rows x))

  module _ (st : Scratch) (x y : ℕ) (h : y < length from) (ring : IsAt (suc x) y st) where
    pub look_back :
        (k : ℕ) (i : ℕ)
        → k < 2 * length from + 3
        → k < length (row_past (suc x) y (past_rows (suc x)))
        → i + k + 1 ≡ st.index + (2 * length from + 3)
        → at st.buffer (i % (2 * length from + 3)) ≡ at (row_past (suc x) y (past_rows (suc x))) k
    look_back k i inside written e =
        let same : i ≡ st.index + (2 * length from + 3) - 1 - k = omega arith in
        rw same (ring.holds k inside written)

    long_past : y + length from ≤ length (row_past (suc x) y (past_rows (suc x)))
    long_past = omega (
      arith,
      length-row_past (suc x) y (past_rows (suc x)),
      length-row_past x (length from) (past_rows x),
    )

    n_lem :
        ar (2 * length from + 3) st.buffer (suc x) (suc y) (st.index + length from + 3)
        ≡ dist from to (suc x) (suc y)
    n_lem =
        ar-inner _ st.buffer x y (st.index + length from + 3)
        ∙ look_back (length from - 1) _ (omega arith) (omega (arith, long_past)) (omega arith)
        ∙ at_above x y y (length from - 1) h (omega arith)

  module _ (st : Scratch) (x y : ℕ) (h : suc y < length from) (ring : IsAt (suc x) (suc y) st) where
    nw_lem :
        ar (2 * length from + 3) st.buffer (suc x) (suc y) (st.index + length from + 2)
        ≡ dist from to (suc x) (suc y)
    nw_lem =
        ar-inner _ st.buffer x y (st.index + length from + 2)
        ∙ look_back st x (suc y) h ring (length from) _ (omega arith)
            (omega (arith, long_past st x (suc y) h ring)) (omega arith)
        ∙ at_above x (suc y) y (length from) (omega arith) (omega arith)

    w_lem :
        ar
          (2 * length from + 3)
          st.buffer
          (suc (suc x))
          (suc y)
          (st.index + (2 * length from + 3) - 1)
        ≡ dist from to (suc (suc x)) (suc y)
    w_lem =
        ar-inner _ st.buffer (suc x) y (st.index + (2 * length from + 3) - 1)
        ∙ look_back st x (suc y) h ring 0 _ (omega arith)
            (omega (arith, long_past st x (suc y) h ring)) (omega arith)
        ∙ at-row_past (suc x) (suc y) 0 y (past_rows (suc x)) (omega arith)

  nnww_lem :
      (st : Scratch) (x y : ℕ)
      → suc y < length from
      → IsAt (suc x) (suc y) st
      → ar (2 * length from + 3) st.buffer x y (st.index + 1) ≡ dist from to x y
  nnww_lem st zero y h ring = ar-zero _ st.buffer y _
  nnww_lem st (suc x) zero h ring = ar-column _ st.buffer (suc x) _
  nnww_lem st (suc x) (suc y) h ring =
      ar-inner _ st.buffer x y (st.index + 1)
      ∙ look_back st (suc x) (suc (suc y)) h ring (2 * length from + 1) _ (omega arith)
          (omega (
            arith,
            length-row_past (suc (suc x)) (suc (suc y)) (past_rows (suc (suc x))),
            length-row_past (suc x) (length from) (past_rows (suc x)),
            length-row_past x (length from) (past_rows x),
          ))
          (omega arith)
      ∙ at_two_above x (suc (suc y)) y (2 * length from + 1) (omega arith) (omega arith)

  pub cell_value-dist :
      (st : Scratch) (x y : ℕ)
      → y < length from
      → IsAt (suc x) y st
      → cell_value (2 * length from + 3) from to (suc x) y st ≡ dist from to (suc (suc x)) (suc y)
  unfolding cell_value dist
  cell_value-dist st x zero h ring =
      rw (ar-column, ar-column, n_lem st x 0 h ring, dist) (ground arith)
  cell_value-dist st x (suc y) h ring =
      let ex : suc x - 1 ≡ x = omega arith in
      let ey : suc y - 1 ≡ y = omega arith in
      let pos_test : ltb 0 (suc y) ≡ true = ground arith in
      rw
        (
          ex,
          ey,
          nw_lem st x y h ring,
          n_lem st x (suc y) h ring,
          w_lem st x y h ring,
          nnww_lem st x y h ring,
          pos_test,
        )
        refl
