-- ===== src/Hash.antt =====
-- The hash tables of libtrn/hash.cpp: chains of entries that keep the length of a key and the datum,
-- from which the comparison that the client gives tells the key.
pub mod Lookup
pub mod Table
pub mod Refine
use trn.Base.{
  ℕ, zero, suc, ◌+◌, ◌-◌, ◌%◌, ◌^◌, Bool, true, false, not, ◌&&◌, Option, none, some, List, [], ◌∷◌,
  ◌++◌, Bytes, ltb, leb, ◌==◌, if◌then◌else◌, length, get_elem?, equal, take,
}

pub record HashEntry {ℓ} (D : Type ℓ) : Type ℓ where
  pub he_data : D
  pub he_key_len : ℕ

-- `hash`: the sum of the bytes, each a signed char, in an unsigned of 32 bits.
abbrev pub add_char : ℕ → ℕ → ℕ
add_char sum ch = (if ltb ch 128 then sum + ch else sum + (2 ^ 32 - 256) + ch) % 2 ^ 32

unfoldable pub hash_loop : ℕ → Bytes → ℕ
hash_loop sum [] = sum
hash_loop sum (ch ∷ key) = hash_loop (add_char sum ch) key

abbrev pub hash : Bytes → ℕ
hash key = hash_loop 0 key

-- An element of a list that is changed; nothing beyond its end.
unfoldable pub update_at {ℓ} : {A : Type ℓ} → ℕ → (A → A) → List A → List A
update_at i f [] = []
update_at zero f (x ∷ xs) = f x ∷ xs
update_at (suc i) f (x ∷ xs) = x ∷ update_at i f xs

-- `bucket.erase(bucket.begin() + i)`
unfoldable pub erase_at {ℓ} : {A : Type ℓ} → ℕ → List A → List A
erase_at i [] = []
erase_at zero (x ∷ xs) = xs
erase_at (suc i) (x ∷ xs) = x ∷ erase_at i xs

-- `default_cmp`, where the datum is the text behind its pointer: whether it is zero.
abbrev pub default_same : Bytes → Bytes → Bool
default_same key datum = equal key (take (length key) datum)

unfoldable pub replicate {ℓ} : {A : Type ℓ} → ℕ → A → List A
replicate zero x = []
replicate (suc n) x = x ∷ replicate n x

-- `ht_addr`, the chains of a table.
abbrev pub Buckets {ℓ} : Type ℓ → Type ℓ
Buckets D = List (List (HashEntry D))

-- `HashTable(size, cmp_func)`: one chain at least.
abbrev pub new_table {ℓ} : (D : Type ℓ) → ℕ → Buckets D
new_table D size = replicate (if leb 1 size then size else 1) []

abbrev pub bucket_index {ℓ} : {D : Type ℓ} → Buckets D → Bytes → ℕ
bucket_index table key = hash key % length table

abbrev pub bucket_at {ℓ} : {D : Type ℓ} → Buckets D → ℕ → List (HashEntry D)
bucket_at table i = elim (get_elem? table i) [ none ↦ [] | some bucket ↦ bucket ]

-- The end that `store` and `store_last` share: a new entry at the end, or new data in an old one.
unfoldable pub put {ℓ} : {D : Type ℓ} → ℕ → ℕ → D → List (HashEntry D) → List (HashEntry D)
put index key_len datum bucket =
    if index == length bucket
    then bucket ++ (record { he_data = datum; he_key_len = key_len } ∷ [])
    else update_at index (λ e. record { he_data = datum; he_key_len = e.he_key_len }) bucket

unfoldable pub erase_found {ℓ} : {D : Type ℓ} → ℕ → List (HashEntry D) → List (HashEntry D)
erase_found index bucket = if index == length bucket then bucket else erase_at index bucket

abbrev pub data_at {ℓ} : {D : Type ℓ} → List (HashEntry D) → ℕ → Option D
data_at bucket index = elim (get_elem? bucket index) [ none ↦ none | some e ↦ some e.he_data ]

-- `HashLookupCursor`
pub record HashLookupCursor : Type 0 where
  pub bucket : ℕ
  pub index : ℕ
  pub keylen : ℕ

-- `same` is true where `ht_cmp` answers zero.
module _ {ℓ} {D : Type ℓ} (same : Bytes → D → Bool) where
  abbrev pub matches : Bytes → HashEntry D → Bool
  matches key e = e.he_key_len == length key && same key e.he_data

  -- `HashTable::find`: the first entry that matches, or the number of the entries.
  unfoldable pub find_in : Bytes → List (HashEntry D) → ℕ
  find_in key [] = 0
  find_in key (e ∷ bucket) =
      let later = find_in key bucket in if matches key e then 0 else suc later

  unfoldable pub store : Bytes → D → Buckets D → Buckets D
  store key datum table =
      update_at (bucket_index table key)
        (λ bucket. put (find_in key bucket) (length key) datum bucket) table

  unfoldable pub erase : Bytes → Buckets D → Buckets D
  erase key table =
      update_at (bucket_index table key) (λ bucket. erase_found (find_in key bucket) bucket) table

  -- `HashLookupCursor::fetch`: the cursor, and the data.
  unfoldable pub fetch : Buckets D → Bytes → HashLookupCursor × Option D
  fetch table key =
      let bucket = bucket_at table (bucket_index table key) in
      (
        record { bucket = bucket_index table key; index = find_in key bucket; keylen = length key },
        data_at bucket (find_in key bucket),
      )

-- `HashLookupCursor::store_last`, into the table of the last fetch.
unfoldable pub store_last {ℓ} : {D : Type ℓ} → HashLookupCursor → D → Buckets D → Buckets D
store_last cursor datum table = update_at cursor.bucket (put cursor.index cursor.keylen datum) table

-- `HashLookupCursor::walk`: the function sees the length of a key and the datum, and answers with
-- a new datum and whether the entry stays; it may change a state of its own.
module _ {ℓ κ} {D : Type ℓ} {S : Type κ} (visit : S → ℕ → D → S × D × Bool) where
  unfoldable pub walk_bucket : S → List (HashEntry D) → S × List (HashEntry D)
  walk_bucket s [] = (s, [])
  walk_bucket s (e ∷ bucket) =
      let (s1, datum, stays) = visit s e.he_key_len e.he_data in
      let (s2, rest) = walk_bucket s1 bucket in
      (s2, if stays then record { he_data = datum; he_key_len = e.he_key_len } ∷ rest else rest)

  unfoldable pub walk : S → Buckets D → S × Buckets D
  walk s [] = (s, [])
  walk s (bucket ∷ table) =
      let (s1, first) = walk_bucket s bucket in let (s2, rest) = walk s1 table in (s2, first ∷ rest)
