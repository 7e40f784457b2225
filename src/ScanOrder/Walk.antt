-- ===== src/ScanOrder/Walk.antt =====
-- `next` and `prev` of libtrn/sorder.cpp.
use trn.Base.{
  ℕ, suc, ◌-◌, ◌==◌, false, Option, some, List, [], ◌∷◌, length, get_elem?, arith, ◌≡◌, refl, ◌∙◌,
  sym, ap, leb,
}
use mathlib.Core.Path.{subst}
use trn.Base.Int.{ℤ}
use trn.EditDistance.{at}
use trn.ScanOrder.{Order, max_of, index_of, next, prev}
use trn.ScanOrder.Heap.{IsComparison}
use trn.ScanOrder.Index.{index_of-some}
use trn.ScanOrder.Reach.{IsKept, get_elem?-lt}

at-get_elem? : (s : List ℕ) (i v : ℕ) → get_elem? s i ≡ some v → at s i ≡ v
unfolding at
at-get_elem? s i v h = rw (h, at) refl

max_of-some : (s : List ℕ) (i v : ℕ) → get_elem? s i ≡ some v → max_of s ≡ some (length s - 1)
max_of-some [] i v h = cc
max_of-some (x ∷ s) i v h = ap some (omega arith)

module _ (s_compare : ℕ → ℕ → ℤ) (s : List ℕ) (index : List (Option ℕ)) (i e f : ℕ)
    (here : get_elem? s i ≡ some e) (there : get_elem? s (suc i) ≡ some f) where
  -- An order that is sorted.
  abbrev sorted_order : Order
  sorted_order = record {
    ent_sort = s;
    ent_index = index;
    ent_sorted_max = some (length s - 1);
    order_changed = false;
  }

  next-sorted_order : index_of index e ≡ some i → next s_compare e sorted_order ≡ (f, sorted_order)
  unfolding next
  next-sorted_order place =
      let known : leb (length index) e ≡ false = ground (arith, index_of-some index e i place) in
      let inner : (i == length s - 1) ≡ false = ground (arith, get_elem?-lt s (suc i) f there) in
      rw (known, place, inner, at-get_elem? s (suc i) f there) refl

  prev-sorted_order :
      index_of index f ≡ some (suc i) → prev s_compare f sorted_order ≡ (e, sorted_order)
  unfolding prev
  prev-sorted_order place =
      let known : leb (length index) f ≡ false =
        ground (arith, index_of-some index f (suc i) place) in
      let inner : (suc i == 0) ≡ false = ground arith in
      let before : suc i - 1 ≡ i = omega arith in
      rw (known, place, inner, before, at-get_elem? s i e here) refl

module _ (s_compare : ℕ → ℕ → ℤ) (comparison : IsComparison s_compare) where
  -- For a comparison that tells both orders of two different entries alike and is transitive, as
  -- `s_compare` is in a scan of articles: in an order that is kept and was not added to since the last
  -- sort, `next` leads from every entry
  -- to the one behind it and `prev` leads back, and neither changes the order.
  pub next-prev :
      (o : Order) (i e f : ℕ)
      → IsKept s_compare comparison o
      → o.order_changed ≡ false
      → get_elem? o.ent_sort i ≡ some e
      → get_elem? o.ent_sort (suc i) ≡ some f
      → (next s_compare e o ≡ (f, o)) × (prev s_compare f o ≡ (e, o))
  next-prev o i e f kept same here there =
      let ends = kept.ends same ∙ max_of-some o.ent_sort i e here in
      let sorted_o : o ≡ sorted_order s_compare o.ent_sort o.ent_index i e f here there =
        ap (λ m. record o { ent_sorted_max = m }) ends
        ∙ ap (λ b. record o { ent_sorted_max = some (length o.ent_sort - 1); order_changed = b })
            same in
      subst (λ x. (next s_compare e x ≡ (f, x)) × (prev s_compare f x ≡ (e, x))) (sym sorted_o)
        (
          next-sorted_order s_compare o.ent_sort o.ent_index i e f here there
              (kept.indexed.place i e here),
          prev-sorted_order s_compare o.ent_sort o.ent_index i e f here there
              (kept.indexed.place (suc i) f there),
        )
