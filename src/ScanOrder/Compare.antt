-- ===== src/ScanOrder/Compare.antt =====
-- The comparison of two entries of a scan: `s_compare` of libtrn/sorder.cpp and `sa_compare` of
-- libtrn/samisc.cpp. The scores of the articles are an argument; they stay as they are in a sort.
use trn.Base.{ℕ, ◌-◌, ◌^◌, ◌%◌, Bool, true, not, ltb, if◌then◌else◌, arith}
use trn.Base.Int.{ℤ, pos, negsuc, sub_ℕ, ltb_ℤ}
use trn.ScanOrder.Heap.{IsComparison}

-- Whether the order is SA_ORDER_DESCENDING, what `g_cache.scored` and `g_scoring.score_art` give for
-- the article of an entry, and `g_score_new_first`.
pub record Scores : Type 0 where
  pub descending : Bool
  pub scored : ℕ → Bool
  pub score_art : ℕ → ℤ
  pub score_new_first : Bool

-- "keep ordering consistent"
abbrev by_number : ℕ → ℕ → ℤ
by_number a b = if ltb a b then negsuc 0 else pos 1

unfoldable pub sa_compare : Scores → ℕ → ℕ → ℤ
sa_compare g a b =
    let i = g.score_art a in
    let j = g.score_art b in
    if not g.descending
    then by_number a b
    else if not (g.scored a)
    then if not (g.scored b) then by_number a b else pos 1
    else if not (g.scored b)
    then negsuc 0
    else if ltb_ℤ i j
    then pos 1
    else if ltb_ℤ j i
    then negsuc 0
    else if g.score_new_first
    then if ltb a b then pos 1 else negsuc 0
    else by_number a b

-- A `long` that is returned as an `int` of 32 bits.
abbrev to_int : ℤ → ℤ
to_int (pos n) = let m = n % 2 ^ 32 in if ltb m (2 ^ 31) then pos m else negsuc (2 ^ 32 - 1 - m)
to_int (negsuc n) = let m = n % 2 ^ 32 in if ltb m (2 ^ 31) then negsuc m else pos (2 ^ 32 - 1 - m)

-- Whether the type of the scan is S_ART, and the scores.
unfoldable pub s_compare : Bool → Scores → ℕ → ℕ → ℤ
s_compare is_art g a b = if is_art then sa_compare g a b else to_int (sub_ℕ a b)

-- The comparison of a scan of articles has the laws that the sort needs.
pub s_compare-IsComparison : (g : Scores) → IsComparison (s_compare true g)
unfolding s_compare sa_compare
s_compare-IsComparison g = record {
  swapped = λ a b other h. ground arith;
  transitive = λ a b c h k. ground arith;
}
