-- ===== src/EditDistance.antt =====
-- The edit distance of libtrn/edit_dist.cpp: `edit_distn` with TRN_SPEEDUP, whose costs are all 1.
-- Two rows of the matrix are kept in a buffer that is indexed modulo `radix`; a row is dealt with
-- for `to`, a column for `from`. The lengths stand for themselves: no `int` is exceeded.
pub mod Distance
pub mod Ring
pub mod Cells
pub mod Rows
pub mod Edits
pub mod Reached
pub mod Least
use trn.Base.{
  ℕ, zero, suc, ◌+◌, ◌-◌, ◌*◌, ◌%◌, Bool, ◌&&◌, none, some, List, Bytes, ltb, ◌==◌, if◌then◌else◌,
  length, get_elem?, min,
}
use trn.Hash.{update_at, replicate}

-- `buffer[i]` and `from[i]`, which are read within their bounds.
unfoldable pub at : List ℕ → ℕ → ℕ
at s i = elim (get_elem? s i) [ none ↦ 0 | some v ↦ v ]

-- MIN_DIST of config/common.h and STRLENTHRESHOLD.
abbrev pub min_dist : ℕ
min_dist = 7

abbrev pub str_len_threshold : ℕ
str_len_threshold = 498

abbrev pub min3 : ℕ → ℕ → ℕ → ℕ
min3 x y z = min (min x y) z

-- `buffer`, `index` and `low`.
pub record Scratch : Type 0 where
  pub buffer : List ℕ
  pub index : ℕ
  pub low : ℕ

abbrev pub change_cost : ℕ → ℕ → ℕ
change_cost a b = if a == b then 0 else 1

-- `ar(x, y, index)`, with the implicit row 0 and column 0.
unfoldable pub ar : ℕ → List ℕ → ℕ → ℕ → ℕ → ℕ
ar radix buffer x y index = if x == 0 then y else if y == 0 then x else at buffer (index % radix)

-- `buffer[index++] = v`, before the index can reach the radix.
abbrev pub put_first : ℕ → ℕ → Scratch → Scratch
put_first v low st = record {
  buffer = update_at st.index (λ _. v) st.buffer;
  index = suc st.index;
  low = low;
}

module _ (radix : ℕ) (from to : Bytes) where
  -- The first cell of row 1, and the columns behind it, of which `k` are left.
  unfoldable pub first_cell : Scratch → Scratch
  first_cell st = let v = min 2 (change_cost (at from 0) (at to 0)) in put_first v v st

  unfoldable pub first_row : ℕ → ℕ → Scratch → Scratch
  first_row zero col st = st
  first_row (suc k) col st =
      let v =
        min3 (col + change_cost (at from col) (at to 0)) (suc col + 1)
          (at st.buffer (st.index - 1) + 1) in
      first_row k (suc col) (put_first v (min v st.low) st)

  -- One cell of a further row: its value, and the state behind it.
  unfoldable pub cell_value : ℕ → ℕ → Scratch → ℕ
  cell_value row col st =
      let nw = ar radix st.buffer row col (st.index + length from + 2) in
      let n = ar radix st.buffer row (suc col) (st.index + length from + 3) in
      let w = ar radix st.buffer (suc row) col (st.index + radix - 1) in
      let nnww = ar radix st.buffer (row - 1) (col - 1) (st.index + 1) in
      let plain = min3 (nw + change_cost (at from col) (at to row)) (n + 1) (w + 1) in
      let swapped =
        (at from col == at to (row - 1)) && (ltb 0 col && (at from (col - 1) == at to row)) in
      if swapped then min plain (nnww + 1) else plain

  unfoldable pub cell : ℕ → ℕ → Scratch → Scratch
  cell row col st =
      let v = cell_value row col st in
      record {
        buffer = update_at st.index (λ _. v) st.buffer;
        index = suc st.index % radix;
        low = if ltb v st.low then v else if col == 0 then v else st.low;
      }

  unfoldable pub columns : ℕ → ℕ → ℕ → Scratch → Scratch
  columns zero row col st = st
  columns (suc k) row col st = columns k row (suc col) (cell row col st)

  -- The further rows, of which `k` are left; a row without a value up to MIN_DIST is the last.
  unfoldable pub rows : ℕ → ℕ → Scratch → Scratch
  rows zero row st = st
  rows (suc k) row st =
      let filled = columns (length from) row 0 st in
      let more = rows k (suc row) filled in if ltb min_dist filled.low then filled else more

  -- The part on two texts that are not empty.
  unfoldable pub fill : ℕ
  fill =
      let fresh : Scratch = record { buffer = replicate radix 0; index = 0; low = 0 } in
      let first = first_row (length from - 1) 1 (first_cell fresh) in
      let last = rows (length to - 1) 1 first in at last.buffer ((last.index + radix - 1) % radix)

-- The radix is computed before the texts may be swapped.
unfoldable pub edit_distn : Bytes → Bytes → ℕ
edit_distn from to =
    let radix = 2 * length from + 3 in
    if length from == 0
    then length to
    else if length to == 0
    then length from
    else if ltb (length to) (length from) && ltb str_len_threshold (length from)
    then fill radix to from
    else fill radix from to
