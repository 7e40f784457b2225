-- ===== src/ScanOrder/Reach.antt =====
-- What the operations of libtrn/sorder.cpp keep of the order of a scan.
use trn.Base.{
  ℕ, zero, suc, ◌+◌, ◌-◌, ◌*◌, ◌/◌, ◌<◌, ◌==◌, if◌then◌else◌, false, Option, none, some, List, [],
  ◌∷◌, ◌++◌, length, get_elem?, length-append, arith, ◌≡◌, refl, ◌∙◌, leb, ltb, Bool-cases,
  Option-cases, inl, inr, if_both,
}
use trn.Base.Int.{ℤ}
use trn.Hash.{update_at, replicate}
use trn.NewsgroupOrder.{count}
use trn.ScanOrder.{
  Order, max_of, index_of, grow, order_clean, order_add, sort, sort_if_changed, next, prev, first,
  last,
}
use trn.ScanOrder.Heap.{IsComparison}
use trn.ScanOrder.Sort.{IsSorted, sort_basic-IsSorted}
use trn.ScanOrder.Index.{IsIndexed, found, index-update_at, sort-IsIndexed, order_clean-IsIndexed}

index-append :
    (index : List (Option ℕ)) (n e : ℕ) → index_of (index ++ replicate n none) e ≡ index_of index e
unfolding index_of replicate
index-append [] zero e = refl
index-append [] (suc n) zero = refl
index-append [] (suc n) (suc e) = index-append [] n e
index-append (x ∷ index) n zero = refl
index-append (x ∷ index) n (suc e) = index-append index n e

index-grow : (index : List (Option ℕ)) (ent e : ℕ) → index_of (grow ent index) e ≡ index_of index e
unfolding grow
index-grow index ent e = elim (Bool-cases (leb (length index) ent)) [
  | inl short ↦ rw short (index-append index _ e)
  | inr long ↦ rw long refl
]

length-replicate : (n : ℕ) (x : Option ℕ) → length (replicate n x) ≡ n
unfolding replicate
length-replicate zero x = refl
length-replicate (suc n) x = omega (arith, length-replicate n x)

length-grow : (index : List (Option ℕ)) (ent : ℕ) → ent < length (grow ent index)
unfolding grow
length-grow index ent = elim (Bool-cases (leb (length index) ent)) [
  | inl short ↦
      let n = (ent / 100 + 1) * 100 + 1 - length index in
      rw short (ground (arith, length-append {0} index (replicate n none), length-replicate n none))
  | inr long ↦ rw long (ground arith)
]

get_elem?-snoc :
    (s : List ℕ) (v i : ℕ)
    → get_elem? (s ++ (v ∷ [])) i ≡ (if i == length s then some v else get_elem? s i)
get_elem?-snoc [] v zero = refl
get_elem?-snoc [] v (suc i) = ground arith
get_elem?-snoc (x ∷ s) v zero = ground arith
get_elem?-snoc (x ∷ s) v (suc i) = get_elem?-snoc s v i ∙ ground arith

count-snoc :
    (x v : ℕ) (s : List ℕ) → count x (s ++ (v ∷ [])) ≡ count x s + (if x == v then 1 else 0)
count-snoc x v [] = omega arith
count-snoc x v (y ∷ s) = omega (arith, count-snoc x v s)

pub get_elem?-lt : (s : List ℕ) (i e : ℕ) → get_elem? s i ≡ some e → i < length s
get_elem?-lt [] i e h = cc
get_elem?-lt (x ∷ s) zero e h = omega arith
get_elem?-lt (x ∷ s) (suc i) e h = omega (arith, get_elem?-lt s i e h)

-- A new entry goes to the end.
module _ (ent : ℕ) (s : List ℕ) (index : List (Option ℕ)) (missing : index_of index ent ≡ none)
    (indexed : IsIndexed s index) where
  abbrev grown : List (Option ℕ)
  grown = update_at ent (λ _. some (length s)) (grow ent index)

  index-grown :
      (e : ℕ) → index_of grown e ≡ (if e == ent then some (length s) else index_of index e)
  index-grown e =
      index-update_at (grow ent index) ent e (length s) (length-grow index ent)
      ∙ rw (index-grow index ent e) refl

  new_place : (i e : ℕ) → get_elem? (s ++ (ent ∷ [])) i ≡ some e → index_of grown e ≡ some i
  new_place i e h =
      ground (arith, index-grown e, get_elem?-snoc s ent i, indexed.place i e, missing)

  new_entry : (i e : ℕ) → index_of grown e ≡ some i → get_elem? (s ++ (ent ∷ [])) i ≡ some e
  new_entry i e h = elim (Bool-cases (e == ent)) [
    | inl here ↦ ground (arith, index-grown e, get_elem?-snoc s ent i)
    | inr there ↦
        let old = indexed.entry i e (ground (arith, index-grown e)) in
        ground (arith, get_elem?-snoc s ent i, get_elem?-lt s i e old, old)
  ]

  none_there : count ent s ≡ 0
  none_there = elim (Bool-cases (ltb 0 (count ent s))) [
    | inl there ↦
        let (i, at_i) = found s ent (ground arith) in
        let e = indexed.place i ent at_i in absurd (ground (arith, e, missing))
    | inr missing_there ↦ ground arith
  ]

  new-IsIndexed : IsIndexed (s ++ (ent ∷ [])) grown
  new-IsIndexed = record {
    place = new_place;
    entry = new_entry;
    distinct = λ x. ground (arith, count-snoc x ent s, indexed.distinct x, none_there);
  }

module _ (s_compare : ℕ → ℕ → ℤ) (comparison : IsComparison s_compare) where
  -- The index is right, and an order that has not changed is in order, up to its end.
  pub record IsKept (o : Order) : Type 0 where
    pub indexed : IsIndexed o.ent_sort o.ent_index
    pub ends : o.order_changed ≡ false → o.ent_sorted_max ≡ max_of o.ent_sort
    pub sorted : o.order_changed ≡ false → IsSorted s_compare comparison o.ent_sort

  -- What the reader does with the order, from an empty one on.
  pub data Reached : Order → Type 0 where
    started :
        Reached
          (record { ent_sort = []; ent_index = []; ent_sorted_max = none; order_changed = false })
    cleaned : {o : Order} → Reached o → Reached (order_clean o)
    added : {o : Order} (ent : ℕ) → Reached o → Reached (order_add ent o)
    sorted_now : {o : Order} → Reached o → Reached (sort s_compare o)
    next_of : {o : Order} (ent : ℕ) → Reached o → Reached (next s_compare ent o).1
    prev_of : {o : Order} (ent : ℕ) → Reached o → Reached (prev s_compare ent o).1
    first_of : {o : Order} → Reached o → Reached (first s_compare o).1
    last_of : {o : Order} → Reached o → Reached (last s_compare o).1

  sort-IsKept : (o : Order) → IsKept o → IsKept (sort s_compare o)
  sort-IsKept o kept = record {
    indexed = sort-IsIndexed s_compare comparison o kept.indexed;
    ends = λ same. unfold sort in refl;
    sorted = λ same. unfold sort in (sort_basic-IsSorted s_compare comparison o.ent_sort).0;
  }

  pub sort_if_changed-IsKept : (o : Order) → IsKept o → IsKept (sort_if_changed s_compare o)
  sort_if_changed-IsKept o kept = if_both IsKept o.order_changed (sort-IsKept o kept) kept

  order_add-IsKept : (ent : ℕ) (o : Order) → IsKept o → IsKept (order_add ent o)
  unfolding order_add
  order_add-IsKept ent o kept = elim (Option-cases (index_of o.ent_index ent)) [
    | inl missing ↦
        rw (missing, order_add)
          (record {
            indexed = new-IsIndexed ent o.ent_sort o.ent_index missing kept.indexed;
            ends = λ same. absurd (ground arith);
            sorted = λ same. absurd (ground arith);
          })
    | inr (i, there) ↦ rw (there, order_add) kept
  ]

  order_clean-IsKept : (o : Order) → IsKept o → IsKept (order_clean o)
  order_clean-IsKept o kept = record {
    indexed = order_clean-IsIndexed o;
    ends = λ same. unfold order_clean in refl;
    sorted = λ same p q one le' inside. absurd (unfold order_clean in omega arith);
  }

  -- A traversal leaves the order, or sorts it first.
  next-IsKept : (ent : ℕ) (o : Order) → IsKept o → IsKept (next s_compare ent o).1
  unfolding next
  next-IsKept ent o kept = elim (Option-cases o.ent_sorted_max) [
    | inl unsorted ↦ rw (unsorted, next) kept
    | inr (m, e) ↦
        rw (e, next)
          (if_both (λ (r : ℕ × Order). IsKept r.1) (leb (length o.ent_index) ent) kept
            (sort_if_changed-IsKept o kept))
  ]

  prev-IsKept : (ent : ℕ) (o : Order) → IsKept o → IsKept (prev s_compare ent o).1
  unfolding prev
  prev-IsKept ent o kept = elim (Option-cases o.ent_sorted_max) [
    | inl unsorted ↦ rw (unsorted, prev) kept
    | inr (m, e) ↦
        rw (e, prev)
          (if_both (λ (r : ℕ × Order). IsKept r.1) (leb (length o.ent_index) ent) kept
            (sort_if_changed-IsKept o kept))
  ]

  first-IsKept : (o : Order) → IsKept o → IsKept (first s_compare o).1
  unfolding first
  first-IsKept o kept = sort_if_changed-IsKept o kept

  last-IsKept : (o : Order) → IsKept o → IsKept (last s_compare o).1
  unfolding last
  last-IsKept o kept = sort_if_changed-IsKept o kept

  empty-IsKept :
      IsKept
        (record { ent_sort = []; ent_index = []; ent_sorted_max = none; order_changed = false })
  unfolding index_of
  empty-IsKept = record {
    indexed = record { place = λ i e h. cc; entry = λ i e h. cc; distinct = λ x. refl };
    ends = λ same. refl;
    sorted = λ same p q one le' inside. absurd (omega arith);
  }

  -- For a comparison that tells both orders of two different entries alike and is transitive, as
  -- `s_compare` is in a scan of articles: whatever is done to an order, from the empty one on, its index gives the place of every entry and
  -- of nothing else, no entry stands twice, and unless entries were added since the last sort they
  -- are in the order of the comparison.
  pub Reached-IsKept : {o : Order} → Reached o → IsKept o
  Reached-IsKept started = empty-IsKept
  Reached-IsKept (cleaned {o} r) = order_clean-IsKept o (Reached-IsKept r)
  Reached-IsKept (added {o} ent r) = order_add-IsKept ent o (Reached-IsKept r)
  Reached-IsKept (sorted_now {o} r) = sort-IsKept o (Reached-IsKept r)
  Reached-IsKept (next_of {o} ent r) = next-IsKept ent o (Reached-IsKept r)
  Reached-IsKept (prev_of {o} ent r) = prev-IsKept ent o (Reached-IsKept r)
  Reached-IsKept (first_of {o} r) = first-IsKept o (Reached-IsKept r)
  Reached-IsKept (last_of {o} r) = last-IsKept o (Reached-IsKept r)
