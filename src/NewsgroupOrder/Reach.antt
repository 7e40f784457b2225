-- ===== src/NewsgroupOrder/Reach.antt =====
-- The orders that the program can reach, and the numbers after a move.
use trn.Base.{
  ℕ, zero, suc, ◌+◌, ◌≤◌, false, none, some, List, [], ◌∷◌, ◌==◌, length, get_elem?, min, ◌≡◌, refl,
  sym, ◌∙◌, arith, ==_refl,
}
use trn.Base.Int.{ℤ}
use trn.NewsgroupOrder.{
  Links, NewsgroupOrder, clear, append, pop, move, sort, number_from, renumber, sync_links,
  with_order, insert_at, target_pos, take_out, assign, count, IsDistinct,
}
use mathlib.Core.Option.{none-ne-some, some-injective}
use trn.NewsgroupOrder.Chain.{IsDistinct-head, IsDistinct-tail}
use trn.NewsgroupOrder.Moves.{
  IsOrdered, append-IsOrdered, pop-IsOrdered, move-IsOrdered, sort-IsOrdered, sync_links-IsOrdered,
  count-append, pop-count, move-count, sort-count,
}

-- `NewsgroupOrder{}`, whatever the groups' fields hold.
abbrev pub empty_order : Links → (ℕ → ℕ) → NewsgroupOrder
empty_order links m_num = record {
  order = [];
  first_newsgroup = none;
  last_newsgroup = none;
  links = links;
  m_num = m_num;
}

-- A group is its index in `g_newsgroup_data`, of which there are `made`. The callers in
-- libtrn/rcstuff.cpp append the group that `append_newsgroup_data` has just made.
unfoldable pub append_newsgroup : ℕ → NewsgroupOrder → ℕ × NewsgroupOrder
append_newsgroup made ng = (suc made, append made ng)

module _ (sorted : List ℕ → List ℕ) where
  pub data Reached : ℕ → NewsgroupOrder → Type 0 where
    reach_empty : (links : Links) (m_num : ℕ → ℕ) → Reached 0 (empty_order links m_num)
    reach_clear : (made : ℕ) (ng : NewsgroupOrder) → Reached made ng → Reached 0 (clear ng)
    reach_append :
        (made : ℕ) (ng : NewsgroupOrder)
        → Reached made ng
        → Reached (append_newsgroup made ng).0 (append_newsgroup made ng).1
    reach_sync : (made : ℕ) (ng : NewsgroupOrder) → Reached made ng → Reached made (sync_links ng)
    reach_pop : (made : ℕ) (ng : NewsgroupOrder) → Reached made ng → Reached made (pop ng)
    reach_move :
        (np : ℕ) (newnum : ℤ) (made : ℕ) (ng : NewsgroupOrder)
        → Reached made ng
        → Reached made (move np newnum ng).1
    reach_sort : (made : ℕ) (ng : NewsgroupOrder) → Reached made ng → Reached made (sort sorted ng)

  -- Every group in the order was made.
  abbrev pub IsMade : ℕ → NewsgroupOrder → Type 0
  IsMade made ng = (x : ℕ) → made ≤ x → count x ng.order ≡ 0

  empty_order-IsOrdered : (links : Links) (m_num : ℕ → ℕ) → IsOrdered (empty_order links m_num)
  empty_order-IsOrdered links m_num = record {
    distinct = λ x. refl;
    begins = refl;
    ends = refl;
    linked = tt;
  }

  clear-IsOrdered : (ng : NewsgroupOrder) → IsOrdered (clear ng)
  unfolding clear
  clear-IsOrdered ng = record { distinct = λ x. refl; begins = refl; ends = refl; linked = tt }

  clear-IsMade : (ng : NewsgroupOrder) → IsMade 0 (clear ng)
  unfolding clear
  clear-IsMade ng x h = refl

  sync_links-IsMade :
      (made : ℕ) (ng : NewsgroupOrder) → IsMade made ng → IsMade made (sync_links ng)
  unfolding sync_links
  sync_links-IsMade made ng old = old

  append-IsMade :
      (made : ℕ) (ng : NewsgroupOrder) → IsMade made ng → IsMade (suc made) (append made ng)
  unfolding append
  append-IsMade made ng old x h =
      let before = old x (omega arith) in
      let other : (x == made) ≡ false = ground arith in
      count-append x ng.order (made ∷ []) ∙ ground arith

  append_newsgroup-IsOrdered :
      (made : ℕ) (ng : NewsgroupOrder)
      → IsOrdered ng
      → IsMade made ng
      → IsOrdered (append_newsgroup made ng).1
        × IsMade (append_newsgroup made ng).0 (append_newsgroup made ng).1
  unfolding append_newsgroup
  append_newsgroup-IsOrdered made ng ordered old =
      (append-IsOrdered made ng (old made (omega arith)) ordered, append-IsMade made ng old)

  -- Where `std::sort` permutes, every order that the operations lead to has no group twice and only
  -- groups that were made, and its links and ends follow it. What is appended is a group that has
  -- just been made.
  pub Reached-IsOrdered :
      (permutes : (x : ℕ) (order : List ℕ) → count x (sorted order) ≡ count x order)
      → (made : ℕ) (ng : NewsgroupOrder) → Reached made ng
      → IsOrdered ng × IsMade made ng
  Reached-IsOrdered permutes _ _ (Reached.reach_empty links m_num) =
      (empty_order-IsOrdered links m_num, λ x h. refl)
  Reached-IsOrdered permutes _ _ (Reached.reach_clear made ng r) =
      (clear-IsOrdered ng, clear-IsMade ng)
  Reached-IsOrdered permutes _ _ (Reached.reach_append made ng r) =
      let (ordered, old) = Reached-IsOrdered permutes made ng r in
      append_newsgroup-IsOrdered made ng ordered old
  Reached-IsOrdered permutes _ _ (Reached.reach_sync made ng r) =
      let (ordered, old) = Reached-IsOrdered permutes made ng r in
      (sync_links-IsOrdered ng ordered.distinct, sync_links-IsMade made ng old)
  Reached-IsOrdered permutes _ _ (Reached.reach_pop made ng r) =
      let (ordered, old) = Reached-IsOrdered permutes made ng r in
      (pop-IsOrdered ng ordered, λ x h. omega (arith, old x h, pop-count x ng))
  Reached-IsOrdered permutes _ _ (Reached.reach_move np newnum made ng r) =
      let (ordered, old) = Reached-IsOrdered permutes made ng r in
      (move-IsOrdered np newnum ng ordered, λ x h. move-count x np newnum ng ∙ old x h)
  Reached-IsOrdered permutes _ _ (Reached.reach_sort made ng r) =
      let (ordered, old) = Reached-IsOrdered permutes made ng r in
      (sort-IsOrdered sorted ng permutes ordered, λ x h. sort-count sorted x ng permutes ∙ old x h)

number_from-other :
    (k x : ℕ) (order : List ℕ) (m_num : ℕ → ℕ)
    → count x order ≡ 0
    → number_from k order m_num x ≡ m_num x
unfolding number_from
number_from-other k x [] m_num h = refl
number_from-other k x (np ∷ order) m_num h =
    let other : (x == np) ≡ false = ground arith in
    number_from-other (suc k) x order (assign np k m_num) (ground arith) ∙ rw other refl

number_from-at :
    (k i x : ℕ) (order : List ℕ) (m_num : ℕ → ℕ)
    → IsDistinct order
    → get_elem? order i ≡ some x
    → number_from k order m_num x ≡ k + i
unfolding number_from
number_from-at k i x [] m_num distinct e = absurd (none-ne-some _ e)
number_from-at k zero x (np ∷ order) m_num distinct e =
    let same : np ≡ x = some-injective _ _ e in
    let fresh : count x order ≡ 0 = rw (sym same) (IsDistinct-head np order distinct) in
    number_from-other (suc k) x order (assign np k m_num) fresh ∙ rw (same, ==_refl x) (omega arith)
number_from-at k (suc i) x (np ∷ order) m_num distinct e =
    number_from-at (suc k) i x order (assign np k m_num) (IsDistinct-tail np order distinct) e
    ∙ omega arith

get_elem?-insert :
    (i np : ℕ) (order : List ℕ) → i ≤ length order → get_elem? (insert_at i np order) i ≡ some np
get_elem?-insert zero np order h = refl
get_elem?-insert (suc i) np [] h = absurd (omega arith)
get_elem?-insert (suc i) np (x ∷ order) h = get_elem?-insert i np order (omega arith)

moved : ℕ → ℤ → NewsgroupOrder → List ℕ → NewsgroupOrder
moved np newnum ng rest =
    renumber
      (sync_links (with_order (insert_at (min (target_pos newnum) (length rest)) np rest) ng))

move-moved :
    (np : ℕ) (newnum : ℤ) (ng : NewsgroupOrder) (rest : List ℕ)
    → take_out np ng.order ≡ some rest
    → (move np newnum ng).1 ≡ moved np newnum ng rest
unfolding move moved
move-moved np newnum ng rest found = rw (found, move) refl

-- A group that stands in an order without repetitions is moved to the place that its new number
-- asks for, or to the end where that lies behind it, and then the number of every group is its place.
pub move-numbers :
    (np : ℕ) (newnum : ℤ) (ng : NewsgroupOrder) (rest : List ℕ)
    → IsOrdered ng
    → take_out np ng.order ≡ some rest
    → (get_elem? (move np newnum ng).1.order (min (target_pos newnum) (length rest)) ≡ some np)
      × ((i x : ℕ)
          → get_elem? (move np newnum ng).1.order i ≡ some x
          → (move np newnum ng).1.m_num x ≡ i)
unfolding moved renumber sync_links
move-numbers np newnum ng rest ordered found =
    let place = min (target_pos newnum) (length rest) in
    let distinct : IsDistinct (insert_at place np rest) =
      rw (move-moved np newnum ng rest found) at (move-IsOrdered np newnum ng ordered).distinct in
    rw (move-moved np newnum ng rest found) (
      get_elem?-insert place np rest (omega arith),
      λ i x at_i.
          number_from-at 0 i x (insert_at place np rest) ng.m_num distinct at_i ∙ omega arith,
    )
