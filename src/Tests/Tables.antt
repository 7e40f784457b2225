-- ===== src/Tests/Tables.antt =====
-- Hash tables, and the order of newsgroups.
use trn.Base.{ℕ, ◌≡◌, refl, none, some, List, [], ◌∷◌, Bytes, codes, length, take, equal, get_elem?}
use trn.Base.Int.{pos}
use trn.Hash.{default_same, new_table, fetch}
use trn.Hash.Refine.{TableOp, perform_all, changes, fetch-perform_all}
use trn.NewsgroupOrder.{NewsgroupOrder, Links, append, move, take_out}
use trn.NewsgroupOrder.Moves.{IsOrdered}
use trn.NewsgroupOrder.Reach.{
  Reached, IsMade, append_newsgroup, empty_order, Reached-IsOrdered, move-numbers,
}

-- The datum of a key is the text behind its pointer, which begins with the key.
abbrev key_of : ℕ → Bytes → Bytes
key_of n text = take n text

default_tells : (key datum : Bytes) → default_same key datum ≡ equal key (key_of (length key) datum)
default_tells key datum = refl

abbrev ops : List (TableOp Bytes)
ops =
    TableOp.store_op (codes "ab") (codes "ab:1")
    ∷ TableOp.store_op (codes "ba") (codes "ba:2")
    ∷ TableOp.store_op (codes "ab") (codes "ab:3")
    ∷ TableOp.erase_op (codes "ba")
    ∷ []

fetch-perform_all_example :
    (fetch default_same (perform_all default_same ops (new_table Bytes 3)) (codes "ab")).1
    ≡ changes ops (λ key. none) (codes "ab")
fetch-perform_all_example =
    fetch-perform_all default_same key_of default_tells 3 ops (codes "ab")
      (refl, (refl, (refl, (tt, tt))))

abbrev unlinked : Links
unlinked = record { m_prev = λ x. none; m_next = λ x. none }

abbrev nothing : NewsgroupOrder
nothing = empty_order unlinked (λ x. 0)

abbrev two_groups : NewsgroupOrder
two_groups = append 1 (append 0 nothing)

two_groups-Reached : Reached (λ order. order) 2 two_groups
unfolding append_newsgroup
two_groups-Reached =
    Reached.reach_append 1 (append 0 nothing)
      (Reached.reach_append 0 nothing (Reached.reach_empty unlinked (λ x. 0)))

Reached-IsOrdered_example : IsOrdered two_groups × IsMade (λ order. order) 2 two_groups
Reached-IsOrdered_example =
    Reached-IsOrdered (λ order. order) (λ x order. refl) 2 two_groups two_groups-Reached

found : take_out 1 two_groups.order ≡ some (0 ∷ [])
unfolding append take_out
found = refl

move-numbers_example :
    (get_elem? (move 1 (pos 0) two_groups).1.order 0 ≡ some 1)
    × ((i x : ℕ)
        → get_elem? (move 1 (pos 0) two_groups).1.order i ≡ some x
        → (move 1 (pos 0) two_groups).1.m_num x ≡ i)
move-numbers_example =
    move-numbers 1 (pos 0) two_groups (0 ∷ [])
      (Reached-IsOrdered (λ order. order) (λ x order. refl) 2 two_groups two_groups-Reached).0 found
