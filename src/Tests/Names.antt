-- ===== src/Tests/Names.antt =====
-- The edit distance of names.
use trn.Base.{arith, ◌≡◌, ◌↔◌, refl, ◌∷◌, [], codes}
use trn.EditDistance.{
  edit_distn, fill, at, rows, columns, cell, cell_value, ar, first_row, first_cell,
}
use trn.EditDistance.Edits.{IsLeast}
use trn.EditDistance.Least.{edit_distn-IsLeast}
use trn.Hash.{replicate, update_at}

swapped_letters : edit_distn (codes "rec.humor") (codes "rec.huomr") ≡ 1
unfolding edit_distn fill at rows columns cell cell_value ar update_at first_row first_cell
    replicate
swapped_letters = refl

far_apart : edit_distn (codes "comp.lang.c") (codes "rec.humor.funny") ≡ 10
unfolding edit_distn fill at rows columns cell cell_value ar update_at first_row first_cell
    replicate
far_apart = refl

-- A `from` of more than 498 bytes is swapped after the radix is computed, and cells that were not
-- written are read: 499 bytes turn into one at the cost of 1.
long_name : edit_distn (replicate 499 b'a') (b'b' ∷ []) ≡ 1
unfolding edit_distn fill at rows columns cell cell_value ar update_at first_row first_cell
    replicate
long_name = refl

edit_distn-IsLeast_example :
    (edit_distn (codes "news.answrs") (codes "news.answers") ≡ 1)
    ↔ IsLeast (codes "news.answrs") (codes "news.answers") 1
edit_distn-IsLeast_example =
    edit_distn-IsLeast (codes "news.answrs") (codes "news.answers") 1 refl (omega arith)
