-- ===== src/ScanOrder.antt =====
-- The order of the entries of a scan: libtrn/sorder.cpp, on the current context. Entries and places
-- are not negative and fit an `int`; -1 is `none`, and `ent_index` maps an entry to its place.
-- `s_compare` is an argument here, and ScanOrder/Compare has the ones of the program.
pub mod Places
pub mod Compare
pub mod Heap
pub mod Readjust
pub mod Build
pub mod Sort
pub mod Index
pub mod Reach
pub mod Walk
use trn.Base.{
  ℕ, zero, suc, ◌+◌, ◌-◌, ◌*◌, ◌/◌, Bool, true, false, not, ◌&&◌, ◌||◌, Option, none, some, List,
  [], ◌∷◌, ◌++◌, ltb, leb, ◌==◌, if◌then◌else◌, length, get_elem?,
}
use trn.Base.Int.{ℤ, pos, ltb_ℤ}
use trn.EditDistance.{at}
use trn.Hash.{update_at, replicate}

-- `ent_sort` and `ent_index` of the context, the greatest place that is sorted, `order_changed`. The
-- greatest places of the vectors are given by their lengths.
pub record Order : Type 0 where
  pub ent_sort : List ℕ
  pub ent_index : List (Option ℕ)
  pub ent_sorted_max : Option ℕ
  pub order_changed : Bool

-- `ent_sort()[SOFF(i)]`, a place counted from 1, and a write to it.
unfoldable pub entry : List ℕ → ℕ → ℕ
unfolding at
entry s i = at s (i - 1)

unfoldable pub put : ℕ → ℕ → List ℕ → List ℕ
put i v s = update_at (i - 1) (λ _. v) s

-- `size - 1`
abbrev pub max_of {ℓ} : {A : Type ℓ} → List A → Option ℕ
max_of [] = none
max_of (x ∷ xs) = some (length xs)

module _ (s_compare : ℕ → ℕ → ℤ) where
  -- "begin heap readjust" up to "end heap readjust"; a round doubles `j`, so `n` rounds are enough.
  unfoldable pub readjust : ℕ → ℕ → ℕ → ℕ → List ℕ → List ℕ
  readjust zero t1 j n s = put (j / 2) t1 s
  readjust (suc f) t1 j n s =
      let after_j =
        if ltb j n && ltb_ℤ (s_compare (entry s j) (entry s (suc j))) (pos 0) then suc j else j in
      let deeper = readjust f t1 (after_j * 2) n (put (after_j / 2) (entry s after_j) s) in
      if not (leb j n)
      then put (j / 2) t1 s
      else if ltb_ℤ (pos 0) (s_compare t1 (entry s after_j))
      then put (after_j / 2) t1 s
      else deeper

  -- The first loop, for i down from `k`, and the second one, for `k` + 1 entries left.
  unfoldable pub build : ℕ → ℕ → List ℕ → List ℕ
  build zero n s = s
  build (suc k) n s = build k n (readjust n (entry s (suc k)) (2 * suc k) n s)

  unfoldable pub extract : ℕ → List ℕ → List ℕ
  extract zero s = s
  extract (suc k) s =
      let t1 = entry s (suc (suc k)) in
      extract k (readjust (suc k) t1 2 (suc k) (put 1 t1 (put (suc (suc k)) (entry s 1) s)))

  unfoldable pub sort_basic : List ℕ → List ℕ
  sort_basic s = let n = length s in if ltb n 1 then s else extract (n - 1) (build (n / 2) n s)

-- `ent_index()[e]`, -1 behind its end.
unfoldable pub index_of : List (Option ℕ) → ℕ → Option ℕ
index_of index e = elim (get_elem? index e) [ none ↦ none | some place ↦ place ]

-- "rebuild the indexes", from place `i` on.
unfoldable pub reindex : ℕ → List ℕ → List (Option ℕ) → List (Option ℕ)
reindex i [] index = index
reindex i (e ∷ es) index = reindex (suc i) es (update_at e (λ _. some i) index)

-- `order_changed` is left alone by `order_clean`.
unfoldable pub order_clean : Order → Order
order_clean o = record o { ent_sort = []; ent_index = []; ent_sorted_max = none }

-- "grow index list if needed"
unfoldable pub grow : ℕ → List (Option ℕ) → List (Option ℕ)
grow ent index =
    if leb (length index) ent
    then index ++ replicate ((ent / 100 + 1) * 100 + 1 - length index) none
    else index

unfoldable pub order_add : ℕ → Order → Order
order_add ent o = elim (index_of o.ent_index ent) [
  | some place ↦ o
  | none ↦ record o {
    ent_sort = o.ent_sort ++ (ent ∷ []);
    ent_index = update_at ent (λ _. some (length o.ent_sort)) (grow ent o.ent_index);
    order_changed = true;
  }
]

module _ (s_compare : ℕ → ℕ → ℤ) where
  unfoldable pub sort : Order → Order
  sort o =
      let sorted = sort_basic s_compare o.ent_sort in
      record {
        ent_sort = sorted;
        ent_index = reindex 0 sorted o.ent_index;
        ent_sorted_max = max_of sorted;
        order_changed = false;
      }

  abbrev pub sort_if_changed : Order → Order
  sort_if_changed o = if o.order_changed then sort o else o

  -- The traversals also give the order, which may be sorted on the way.
  unfoldable pub next : ℕ → Order → ℕ × Order
  next ent o =
      let o' = sort_if_changed o in
      let behind : ℕ = elim (index_of o'.ent_index ent) [
        | none ↦ 0
        | some tmp ↦ elim o'.ent_sorted_max [
          | none ↦ at o'.ent_sort (suc tmp)
          | some last ↦ if tmp == last then 0 else at o'.ent_sort (suc tmp)
        ]
      ] in
      elim o.ent_sorted_max [
        | none ↦ (0, o)
        | some m ↦ if leb (length o.ent_index) ent then (0, o) else (behind, o')
      ]

  unfoldable pub prev : ℕ → Order → ℕ × Order
  prev ent o =
      let o' = sort_if_changed o in
      let before : ℕ = elim (index_of o'.ent_index ent) [
        | none ↦ 0
        | some tmp ↦ if tmp == 0 then 0 else at o'.ent_sort (tmp - 1)
      ] in
      elim o.ent_sorted_max [
        | none ↦ (0, o)
        | some m ↦ if leb (length o.ent_index) ent then (0, o) else (before, o')
      ]

  unfoldable pub first : Order → ℕ × Order
  first o =
      let o' = sort_if_changed o in
      (elim o'.ent_sorted_max [ none ↦ 0 | some m ↦ at o'.ent_sort 0 ], o')

  unfoldable pub last : Order → ℕ × Order
  last o =
      let o' = sort_if_changed o in
      (elim o'.ent_sorted_max [ none ↦ 0 | some m ↦ at o'.ent_sort m ], o')
