-- ===== src/Hash/Table.antt =====
-- The operations of a whole table: what a fetch finds after a store or an erase.
use trn.Base.{
  ℕ, zero, suc, ◌≤◌, ◌<◌, Bool, false, Option, none, some, List, [], ◌∷◌, Bytes, All, leb, ◌==◌,
  if◌then◌else◌, length, equal, equal_iff, ◌≡◌, refl, sym, ap, arith, Bool-cases, inl, inr,
}
use trn.Hash.{
  HashEntry, Buckets, find_in, put, erase_found, update_at, store, erase, fetch, new_table,
  replicate, bucket_index, bucket_at, store_last,
}
use trn.Hash.Lookup.{
  data_of, put-data_of, erase-data_of, put-IsDistinct, erase-IsDistinct, IsDistinct,
}

update_at-length :
    {A : Type 0} (i : ℕ) (f : A → A) (xs : List A) → length (update_at i f xs) ≡ length xs
unfolding update_at
update_at-length i f [] = refl
update_at-length zero f (x ∷ xs) = refl
update_at-length (suc i) f (x ∷ xs) = ap suc (update_at-length i f xs)

module _ {D : Type 0} where
  bucket_at-here :
      (i : ℕ) (f : List (HashEntry D) → List (HashEntry D)) (table : Buckets D)
      → i < length table
      → bucket_at (update_at i f table) i ≡ f (bucket_at table i)
  unfolding update_at
  bucket_at-here i f [] h = absurd (omega arith)
  bucket_at-here zero f (b ∷ table) h = refl
  bucket_at-here (suc i) f (b ∷ table) h = bucket_at-here i f table (omega arith)

  bucket_at-there :
      (i j : ℕ) (f : List (HashEntry D) → List (HashEntry D)) (table : Buckets D)
      → (i == j) ≡ false
      → bucket_at (update_at i f table) j ≡ bucket_at table j
  unfolding update_at
  bucket_at-there i j f [] h = refl
  bucket_at-there zero zero f (b ∷ table) h = absurd (ground arith)
  bucket_at-there zero (suc j) f (b ∷ table) h = refl
  bucket_at-there (suc i) zero f (b ∷ table) h = refl
  bucket_at-there (suc i) (suc j) f (b ∷ table) h = bucket_at-there i j f table (ground arith)

  update_at-agree :
      (i : ℕ) (f g : List (HashEntry D) → List (HashEntry D)) (table : Buckets D)
      → f (bucket_at table i) ≡ g (bucket_at table i)
      → update_at i f table ≡ update_at i g table
  unfolding update_at
  update_at-agree i f g [] e = refl
  update_at-agree zero f g (b ∷ table) e = ap (λ x. x ∷ table) e
  update_at-agree (suc i) f g (b ∷ table) e = ap (λ x. b ∷ x) (update_at-agree i f g table e)

module _ {D : Type 0} (same : Bytes → D → Bool) (key_of : ℕ → D → Bytes)
    (tells : (key : Bytes) (datum : D)
      → same key datum ≡ equal key (key_of (length key) datum)) where
  -- Every chain has one entry at most for a key.
  abbrev pub IsTable : Buckets D → Type 0
  IsTable table = (1 ≤ length table) × All (IsDistinct same key_of tells) table

  new_table-IsDistinct : (n : ℕ) → All (IsDistinct same key_of tells) (replicate n [])
  unfolding replicate
  new_table-IsDistinct zero = tt
  new_table-IsDistinct (suc n) = (tt, new_table-IsDistinct n)

  replicate-length : (n : ℕ) → length (replicate {A = List (HashEntry D)} n []) ≡ n
  unfolding replicate
  replicate-length zero = refl
  replicate-length (suc n) = ap suc (replicate-length n)

  pub new_table-IsTable : (size : ℕ) → IsTable (new_table D size)
  new_table-IsTable size =
      let n = if leb 1 size then size else 1 in
      let positive : 1 ≤ n = ground arith in
      (omega (arith, replicate-length n), new_table-IsDistinct n)

  -- What a fetch finds is looked up in one chain: a change of a chain that acts on it as on a map acts
  -- so on the table.
  fetch-update :
      (f : List (HashEntry D) → List (HashEntry D)) (table : Buckets D) (key other : Bytes)
      (new : Option D)
      → 1 ≤ length table
      → data_of same key_of tells other (f (bucket_at table (bucket_index table key))) ≡ (
          if equal other key
          then new
          else data_of same key_of tells other (bucket_at table (bucket_index table key)))
      → (fetch same (update_at (bucket_index table key) f table) other).1
        ≡ (if equal other key then new else (fetch same table other).1)
  unfolding fetch
  fetch-update f table key other new h changes =
      let i = bucket_index table key in
      let j = bucket_index table other in
      let below : i < length table = omega arith in
      let long = update_at-length i f table in
      rw long (elim (Bool-cases (i == j)) [
        | inl here ↦ let e : j ≡ i = ground arith in rw (e, bucket_at-here i f table below) changes
        | inr there ↦ elim (Bool-cases (equal other key)) [
          | inl equals ↦
              let e : other ≡ key = (equal_iff other key).0 equals in
              let e2 : i ≡ j = ap (bucket_index table) (sym e) in absurd (ground arith)
          | inr differ ↦ rw (differ, bucket_at-there i j f table there) refl
        ]
      ])

  bucket_at-IsDistinct :
      (table : Buckets D) (i : ℕ)
      → All (IsDistinct same key_of tells) table
      → IsDistinct same key_of tells (bucket_at table i)
  bucket_at-IsDistinct [] i all = tt
  bucket_at-IsDistinct (b ∷ table) zero (first, all) = first
  bucket_at-IsDistinct (b ∷ table) (suc i) (first, all) = bucket_at-IsDistinct table i all

  update_at-IsDistinct :
      (i : ℕ) (f : List (HashEntry D) → List (HashEntry D)) (table : Buckets D)
      → ((bucket : List (HashEntry D))
          → IsDistinct same key_of tells bucket
          → IsDistinct same key_of tells (f bucket))
      → All (IsDistinct same key_of tells) table
      → All (IsDistinct same key_of tells) (update_at i f table)
  unfolding update_at
  update_at-IsDistinct i f [] keeps all = tt
  update_at-IsDistinct zero f (b ∷ table) keeps (first, all) = (keeps b first, all)
  update_at-IsDistinct (suc i) f (b ∷ table) keeps (first, all) =
      (first, update_at-IsDistinct i f table keeps all)

  -- After a datum is stored under its key, a fetch of the key finds it, and a fetch of another key
  -- finds what it found before.
  pub fetch-store :
      (table : Buckets D) (key other : Bytes) (datum : D)
      → IsTable table
      → key_of (length key) datum ≡ key
      → (fetch same (store same key datum table) other).1
        ≡ (if equal other key then some datum else (fetch same table other).1)
  unfolding store
  fetch-store table key other datum (h, all) own =
      fetch-update (λ bucket. put (find_in same key bucket) (length key) datum bucket) table key
        other (some datum) h
        (put-data_of same key_of tells key other datum (bucket_at table (bucket_index table key))
          own)

  -- After a key is erased, a fetch of it finds nothing, and a fetch of another key finds what it found
  -- before.
  pub fetch-erase :
      (table : Buckets D) (key other : Bytes)
      → IsTable table
      → (fetch same (erase same key table) other).1
        ≡ (if equal other key then none else (fetch same table other).1)
  unfolding erase
  fetch-erase table key other (h, all) =
      fetch-update (λ bucket. erase_found (find_in same key bucket) bucket) table key other none h
        (erase-data_of same key_of tells key other (bucket_at table (bucket_index table key))
          (bucket_at-IsDistinct table (bucket_index table key) all))

  -- In the chains that `store` leaves each key has one entry at most.
  pub store-IsTable :
      (table : Buckets D) (key : Bytes) (datum : D)
      → IsTable table
      → key_of (length key) datum ≡ key
      → IsTable (store same key datum table)
  unfolding store
  store-IsTable table key datum (h, all) own =
      let f : List (HashEntry D) → List (HashEntry D) =
        λ bucket. put (find_in same key bucket) (length key) datum bucket in
      (
        omega (arith, update_at-length (bucket_index table key) f table),
        update_at-IsDistinct (bucket_index table key) f table
            (λ bucket distinct. put-IsDistinct same key_of tells key datum bucket own distinct) all,
      )

  pub erase-IsTable :
      (table : Buckets D) (key : Bytes) → IsTable table → IsTable (erase same key table)
  unfolding erase
  erase-IsTable table key (h, all) =
      let f : List (HashEntry D) → List (HashEntry D) =
        λ bucket. erase_found (find_in same key bucket) bucket in
      (
        omega (arith, update_at-length (bucket_index table key) f table),
        update_at-IsDistinct (bucket_index table key) f table
            (λ bucket distinct. erase-IsDistinct same key_of tells key bucket distinct) all,
      )

  -- A `store_last` behind a fetch of a key, the table unchanged in between, stores under that key.
  pub store_last-fetch :
      (table : Buckets D) (key : Bytes) (datum : D)
      → store_last (fetch same table key).0 datum table ≡ store same key datum table
  unfolding store_last fetch store
  store_last-fetch table key datum =
      update_at-agree (bucket_index table key)
        (put (find_in same key (bucket_at table (bucket_index table key))) (length key) datum)
        (λ bucket. put (find_in same key bucket) (length key) datum bucket) table refl
