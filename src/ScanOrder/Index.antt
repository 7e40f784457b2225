-- ===== src/ScanOrder/Index.antt =====
-- `ent_index` of libtrn/sorder.cpp, the places of the entries.
use trn.Base.{
  ℕ, zero, suc, ◌+◌, ◌≤◌, ◌<◌, ◌==◌, if◌then◌else◌, false, Option, some, List, [], ◌∷◌, length,
  get_elem?, arith, ◌≡◌, refl, ◌∙◌, sym, ap, ltb, ==_refl, Bool-cases, inl, inr,
}
use mathlib.Core.Option.{some-injective}
use trn.Base.Int.{ℤ}
use trn.Hash.{update_at}
use trn.NewsgroupOrder.{count, IsDistinct}
use trn.ScanOrder.{Order, sort_basic, index_of, reindex, order_clean, sort}
use trn.ScanOrder.Heap.{IsComparison}
use trn.ScanOrder.Sort.{sort_basic-IsSorted}

-- The entry at every place, and only it, is indexed by the place; no entry stands twice.
pub record IsIndexed (entries : List ℕ) (index : List (Option ℕ)) : Type 0 where
  pub place : (i e : ℕ) → get_elem? entries i ≡ some e → index_of index e ≡ some i
  pub entry : (i e : ℕ) → index_of index e ≡ some i → get_elem? entries i ≡ some e
  pub distinct : IsDistinct entries

count-pos : (s : List ℕ) (i e : ℕ) → get_elem? s i ≡ some e → 0 < count e s
count-pos [] i e h = cc
count-pos (x ∷ s) zero e h =
    let same : x ≡ e = some-injective _ _ h in rw (same, ==_refl e) (omega arith)
count-pos (x ∷ s) (suc i) e h = omega (arith, count-pos s i e h)

pub found : (s : List ℕ) (e : ℕ) → 0 < count e s → (i : ℕ) × (get_elem? s i ≡ some e)
found [] e h = absurd (omega arith)
found (x ∷ s) e h = elim (Bool-cases (e == x)) [
  | inl here ↦ let same : x ≡ e = ground arith in (0, ap some same)
  | inr there ↦ let (i, at_i) = found s e (ground arith) in (suc i, at_i)
]

same-place :
    (s : List ℕ) (i j e : ℕ)
    → count e s ≤ 1
    → get_elem? s i ≡ some e
    → get_elem? s j ≡ some e
    → i ≡ j
same-place [] i j e one p q = cc
same-place (x ∷ s) zero zero e one p q = refl
same-place (x ∷ s) (suc i) (suc j) e one p q = ap suc (same-place s i j e (omega arith) p q)
same-place (x ∷ s) zero (suc j) e one p q =
    let same : e ≡ x = sym (some-injective _ _ p) in absurd (ground (arith, count-pos s j e q))
same-place (x ∷ s) (suc i) zero e one p q =
    let same : e ≡ x = sym (some-injective _ _ q) in absurd (ground (arith, count-pos s i e p))

pub index-update_at :
    (index : List (Option ℕ)) (e d i : ℕ)
    → e < length index
    → index_of (update_at e (λ _. some i) index) d ≡ (if d == e then some i else index_of index d)
unfolding update_at index_of
index-update_at [] e d i h = absurd (omega arith)
index-update_at (x ∷ index) zero zero i h = refl
index-update_at (x ∷ index) zero (suc d) i h = ground arith
index-update_at (x ∷ index) (suc e) zero i h = ground arith
index-update_at (x ∷ index) (suc e) (suc d) i h =
    index-update_at index e d i (omega arith) ∙ ground arith

length-update_at :
    (index : List (Option ℕ)) (e i : ℕ) → length (update_at e (λ _. some i) index) ≡ length index
unfolding update_at
length-update_at [] e i = refl
length-update_at (x ∷ index) zero i = refl
length-update_at (x ∷ index) (suc e) i = omega (arith, length-update_at index e i)

pub index_of-some :
    (index : List (Option ℕ)) (e i : ℕ) → index_of index e ≡ some i → e < length index
unfolding index_of
index_of-some [] e i h = cc
index_of-some (x ∷ index) zero i h = omega arith
index_of-some (x ∷ index) (suc e) i h = omega (arith, index_of-some index e i h)

abbrev IsInside : List ℕ → List (Option ℕ) → Type 0
IsInside entries index = (i e : ℕ) → get_elem? entries i ≡ some e → e < length index

reindex-other :
    (es : List ℕ) (index : List (Option ℕ)) (i e : ℕ)
    → IsInside es index
    → count e es ≡ 0
    → index_of (reindex i es index) e ≡ index_of index e
unfolding reindex
reindex-other [] index i e inside h = refl
reindex-other (x ∷ es) index i e inside h =
    let differ : (e == x) ≡ false = ground arith in
    reindex-other es (update_at x (λ _. some i) index) (suc i) e
      (λ j d p. omega (arith, length-update_at index x i, inside (suc j) d p)) (ground arith)
    ∙ rw (index-update_at index x e i (inside 0 x refl), differ) refl

reindex-place :
    (es : List ℕ) (index : List (Option ℕ)) (i j e : ℕ)
    → IsInside es index
    → count e es ≤ 1
    → get_elem? es j ≡ some e
    → index_of (reindex i es index) e ≡ some (i + j)
unfolding reindex
reindex-place [] index i j e inside one h = cc
reindex-place (x ∷ es) index i zero e inside one h =
    let same : e ≡ x = sym (some-injective _ _ h) in
    reindex-other es (update_at x (λ _. some i) index) (suc i) e
      (λ k d p. omega (arith, length-update_at index x i, inside (suc k) d p)) (ground arith)
    ∙ index-update_at index x e i (inside 0 x refl)
    ∙ rw (same, ==_refl x) (ap some (omega arith))
reindex-place (x ∷ es) index i (suc j) e inside one h =
    reindex-place es (update_at x (λ _. some i) index) (suc i) j e
      (λ k d p. omega (arith, length-update_at index x i, inside (suc k) d p)) (omega arith) h
    ∙ ap some (omega arith)

-- `sort` puts the entries in another order and indexes them anew.
module _ (s_compare : ℕ → ℕ → ℤ) (comparison : IsComparison s_compare) where
  pub sort-IsIndexed :
      (o : Order)
      → IsIndexed o.ent_sort o.ent_index
      → IsIndexed (sort s_compare o).ent_sort (sort s_compare o).ent_index
  unfolding sort
  sort-IsIndexed o indexed = record { place = place; entry = entry; distinct = distinct }
    where
      sorted : List ℕ
      sorted = sort_basic s_compare o.ent_sort

      counts : (x : ℕ) → count x (sort_basic s_compare o.ent_sort) ≡ count x o.ent_sort
      counts x = (sort_basic-IsSorted s_compare comparison o.ent_sort).1.counts x

      distinct : IsDistinct (sort_basic s_compare o.ent_sort)
      distinct x = rw (counts x) (indexed.distinct x)

      inside : IsInside (sort_basic s_compare o.ent_sort) o.ent_index
      inside i e h =
          let (j, at_j) = found o.ent_sort e (omega (arith, counts e, count-pos _ i e h)) in
          index_of-some o.ent_index e j (indexed.place j e at_j)

      place :
          (i e : ℕ)
          → get_elem? (sort_basic s_compare o.ent_sort) i ≡ some e
          → index_of (reindex 0 (sort_basic s_compare o.ent_sort) o.ent_index) e ≡ some i
      place i e h =
          reindex-place _ o.ent_index 0 i e inside (ground (arith, distinct e)) h
          ∙ ap some (omega arith)

      entry :
          (i e : ℕ)
          → index_of (reindex 0 (sort_basic s_compare o.ent_sort) o.ent_index) e ≡ some i
          → get_elem? (sort_basic s_compare o.ent_sort) i ≡ some e
      entry i e h = elim (Bool-cases (ltb 0 (count e (sort_basic s_compare o.ent_sort)))) [
        | inl there ↦
            let (j, at_j) = found (sort_basic s_compare o.ent_sort) e (ground arith) in
            let same : j ≡ i = some-injective _ _ (sym (place j e at_j) ∙ h) in rw same at at_j
        | inr missing ↦
            let none_there : count e (sort_basic s_compare o.ent_sort) ≡ 0 = ground arith in
            let old =
              indexed.entry i e (sym (reindex-other _ o.ent_index 0 e inside none_there) ∙ h) in
            absurd (omega (arith, counts e, count-pos o.ent_sort i e old))
      ]

pub order_clean-IsIndexed :
    (o : Order) → IsIndexed (order_clean o).ent_sort (order_clean o).ent_index
unfolding order_clean index_of
order_clean-IsIndexed o = record { place = λ i e h. cc; entry = λ i e h. cc; distinct = λ x. refl }
