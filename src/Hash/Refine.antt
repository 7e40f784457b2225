-- ===== src/Hash/Refine.antt =====
-- A hash table of libtrn/hash.cpp beside a map.
use trn.Base.{
  ℕ, zero, suc, leb, Bool, Option, none, some, List, [], ◌∷◌, Bytes, All, if◌then◌else◌, length,
  equal, ◌≡◌, refl, ap, ◌∙◌,
}
use trn.Hash.{
  HashEntry, Buckets, store, erase, fetch, new_table, replicate, bucket_index, bucket_at, find_in,
}
use trn.Hash.Table.{
  IsTable, new_table-IsTable, fetch-store, fetch-erase, store-IsTable, erase-IsTable,
}

pub data TableOp (D : Type 0) : Type 0 where
  store_op : Bytes → D → TableOp D
  erase_op : Bytes → TableOp D

-- The abstract table.
abbrev pub Table : Type 0 → Type 0
Table D = Bytes → Option D

module _ {D : Type 0} where
  abbrev pub change : TableOp D → Table D → Table D
  change (TableOp.store_op key datum) old other = if equal other key then some datum else old other
  change (TableOp.erase_op key) old other = if equal other key then none else old other

  unfoldable pub changes : List (TableOp D) → Table D → Table D
  changes [] old = old
  changes (op ∷ ops) old = changes ops (change op old)

  abbrev pub perform : (Bytes → D → Bool) → TableOp D → Buckets D → Buckets D
  perform same (TableOp.store_op key datum) table = store same key datum table
  perform same (TableOp.erase_op key) table = erase same key table

  unfoldable pub perform_all : (Bytes → D → Bool) → List (TableOp D) → Buckets D → Buckets D
  perform_all same [] table = table
  perform_all same (op ∷ ops) table = perform_all same ops (perform same op table)

  -- A datum is stored under its own key.
  abbrev pub IsOwn : (ℕ → D → Bytes) → TableOp D → Type 0
  IsOwn key_of (TableOp.store_op key datum) = key_of (length key) datum ≡ key
  IsOwn key_of (TableOp.erase_op key) = Unit

module _ {D : Type 0} (same : Bytes → D → Bool) (key_of : ℕ → D → Bytes)
    (tells : (key : Bytes) (datum : D)
      → same key datum ≡ equal key (key_of (length key) datum)) where
  perform-IsTable :
      (op : TableOp D) (table : Buckets D)
      → IsOwn key_of op
      → IsTable same key_of tells table
      → IsTable same key_of tells (perform same op table)
  perform-IsTable (TableOp.store_op key datum) table own valid =
      store-IsTable same key_of tells table key datum valid own
  perform-IsTable (TableOp.erase_op key) table own valid =
      erase-IsTable same key_of tells table key valid

  fetch-perform :
      (op : TableOp D) (table : Buckets D) (old : Table D) (other : Bytes)
      → IsOwn key_of op
      → IsTable same key_of tells table
      → (fetch same table other).1 ≡ old other
      → (fetch same (perform same op table) other).1 ≡ change op old other
  fetch-perform (TableOp.store_op key datum) table old other own valid agrees =
      fetch-store same key_of tells table key other datum valid own
      ∙ ap (λ x. if equal other key then some datum else x) agrees
  fetch-perform (TableOp.erase_op key) table old other own valid agrees =
      fetch-erase same key_of tells table key other valid
      ∙ ap (λ x. if equal other key then none else x) agrees

  fetch-perform_from :
      (ops : List (TableOp D)) (table : Buckets D) (old : Table D)
      → All (IsOwn key_of) ops
      → IsTable same key_of tells table
      → ((other : Bytes) → (fetch same table other).1 ≡ old other)
      → (other : Bytes) → (fetch same (perform_all same ops table) other).1 ≡ changes ops old other
  unfolding perform_all changes
  fetch-perform_from [] table old own valid agrees = agrees
  fetch-perform_from (op ∷ ops) table old (first, own) valid agrees =
      fetch-perform_from ops (perform same op table) (change op old) own
        (perform-IsTable op table first valid)
        (λ other. fetch-perform op table old other first valid (agrees other))

  bucket_at-new : (n i : ℕ) → bucket_at (replicate {A = List (HashEntry D)} n []) i ≡ []
  unfolding replicate
  bucket_at-new zero i = refl
  bucket_at-new (suc n) zero = refl
  bucket_at-new (suc n) (suc i) = bucket_at-new n i

  fetch-new : (size : ℕ) (other : Bytes) → (fetch same (new_table D size) other).1 ≡ none
  unfolding fetch find_in
  fetch-new size other =
      rw (bucket_at-new (if leb 1 size then size else 1) (bucket_index (new_table D size) other))
        refl

  -- Where the comparison tells the key of a datum and every datum is stored under its own key, a table
  -- behaves as a map, whatever its size: after any stores and erases in a new table, a fetch finds
  -- what the same changes leave in an empty map.
  pub fetch-perform_all :
      (size : ℕ) (ops : List (TableOp D)) (other : Bytes)
      → All (IsOwn key_of) ops
      → (fetch same (perform_all same ops (new_table D size)) other).1
        ≡ changes ops (λ key. none) other
  fetch-perform_all size ops other own =
      fetch-perform_from ops (new_table D size) (λ key. none) own
        (new_table-IsTable same key_of tells size) (fetch-new size) other
