-- ===== src/Tests/Scans.antt =====
-- The order of the entries of a scan.
use trn.Base.{
  true, false, not, ◌-◌, ◌^◌, ◌==◌, ltb, if◌then◌else◌, ℕ, ◌≡◌, refl, none, some, List, [], ◌∷◌,
  length, get_elem?,
}
use trn.Base.Int.{ℤ, pos, negsuc}
use trn.EditDistance.{at}
use trn.Hash.{update_at, replicate}
use trn.ScanOrder.{
  Order, entry, put, readjust, build, extract, sort_basic, index_of, grow, order_add, sort, next,
  prev,
}
use trn.ScanOrder.Compare.{Scores, s_compare, sa_compare, s_compare-IsComparison}
use trn.ScanOrder.Heap.{IsComparison, IsMoved}
use trn.ScanOrder.Sort.{IsSorted, sort_basic-IsSorted}
use trn.ScanOrder.Reach.{Reached, IsKept, Reached-IsKept}
use trn.ScanOrder.Walk.{next-prev}

-- The article 9 has no score, and the others have two different ones.
abbrev scores : Scores
scores = record {
  descending = true;
  scored = λ e. not (e == 9);
  score_art = λ e. if ltb e 5 then pos 1 else pos 2;
  score_new_first = false;
}

abbrev by_score : ℕ → ℕ → ℤ
by_score = s_compare true scores

by_score-IsComparison : IsComparison by_score
by_score-IsComparison = s_compare-IsComparison scores

-- Outside of a scan of articles a difference of 2 ^ 31 is cut to a negative number.
cut_difference : s_compare false scores (2 ^ 31) 0 ≡ negsuc (2 ^ 31 - 1)
unfolding s_compare
cut_difference = refl

abbrev entries : List ℕ
entries = 5 ∷ 2 ∷ 9 ∷ 4 ∷ 7 ∷ 1 ∷ 8 ∷ []

sorted_entries : sort_basic by_score entries ≡ 5 ∷ 7 ∷ 8 ∷ 1 ∷ 2 ∷ 4 ∷ 9 ∷ []
unfolding sort_basic build extract readjust put entry at update_at s_compare sa_compare
sorted_entries = refl

sort_basic-IsSorted_example :
    IsSorted by_score by_score-IsComparison (sort_basic by_score entries)
    × IsMoved (length entries) entries (sort_basic by_score entries)
sort_basic-IsSorted_example = sort_basic-IsSorted by_score by_score-IsComparison entries

abbrev empty_order : Order
empty_order = record { ent_sort = []; ent_index = []; ent_sorted_max = none; order_changed = false }

-- Three entries are added, and the order is sorted.
abbrev three_added : Order
three_added = order_add 3 (order_add 1 (order_add 2 empty_order))

three_added-Reached : Reached by_score by_score-IsComparison three_added
three_added-Reached = Reached.added 3 (Reached.added 1 (Reached.added 2 Reached.started))

Reached-IsKept_example : IsKept by_score by_score-IsComparison (sort by_score three_added)
Reached-IsKept_example =
    Reached-IsKept by_score by_score-IsComparison (Reached.sorted_now three_added-Reached)

two_at_one : get_elem? (sort by_score three_added).ent_sort 1 ≡ some 2
unfolding sort sort_basic build extract readjust put entry at update_at s_compare sa_compare
    order_add index_of grow replicate
two_at_one = refl

three_at_two : get_elem? (sort by_score three_added).ent_sort 2 ≡ some 3
unfolding sort sort_basic build extract readjust put entry at update_at s_compare sa_compare
    order_add index_of grow replicate
three_at_two = refl

not_changed : (sort by_score three_added).order_changed ≡ false
unfolding sort
not_changed = refl

next-prev_example :
    (next by_score 2 (sort by_score three_added) ≡ (3, sort by_score three_added))
    × (prev by_score 3 (sort by_score three_added) ≡ (2, sort by_score three_added))
next-prev_example =
    next-prev by_score by_score-IsComparison (sort by_score three_added) 1 2 3
      (Reached-IsKept by_score by_score-IsComparison (Reached.sorted_now three_added-Reached))
      not_changed two_at_one three_at_two
