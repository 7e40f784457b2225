-- ===== src/Hash/Lookup.antt =====
-- One chain of a hash table of libtrn/hash.cpp.
use trn.Base.{
  ℕ, suc, Bool, true, false, Option, none, some, List, [], ◌∷◌, Bytes, ◌==◌, if◌then◌else◌, length,
  equal, equal_iff, ◌≡◌, refl, sym, ap, ◌∙◌, arith, Bool-cases, inl, inr,
}
use trn.Hash.{HashEntry, matches, find_in, put, erase_found, update_at, erase_at, data_at}

abbrev entry {ℓ} : {D : Type ℓ} → D → ℕ → HashEntry D
entry datum n = record { he_data = datum; he_key_len = n }

pub equal_refl : (a : Bytes) → equal a a ≡ true
equal_refl a = (equal_iff a a).1 refl

equal-length : (a b : Bytes) → equal a b ≡ true → (length a == length b) ≡ true
equal-length a b e = let same : a ≡ b = (equal_iff a b).0 e in rw same (ground arith)

-- An entry put in, or left as it is.
put-nil : {D : Type 0} (n : ℕ) (datum : D) → put 0 n datum [] ≡ entry datum n ∷ []
unfolding put
put-nil n datum = refl

put-zero :
    {D : Type 0} (n : ℕ) (datum : D) (e : HashEntry D) (bucket : List (HashEntry D))
    → put 0 n datum (e ∷ bucket) ≡ entry datum e.he_key_len ∷ bucket
unfolding put update_at
put-zero n datum e bucket =
    let inside : (0 == suc (length bucket)) ≡ false = ground arith in rw inside refl

erase_found-cons :
    {D : Type 0} (i : ℕ) (e : HashEntry D) (bucket : List (HashEntry D))
    → erase_found (suc i) (e ∷ bucket) ≡ e ∷ erase_found i bucket
unfolding erase_found erase_at
erase_found-cons i e bucket = elim (Bool-cases (i == length bucket)) [
  | inl at_end ↦
      let next : (suc i == suc (length bucket)) ≡ true = ground arith in rw (at_end, next) refl
  | inr inside ↦
      let next : (suc i == suc (length bucket)) ≡ false = ground arith in rw (inside, next) refl
]

erase_found-zero :
    {D : Type 0} (e : HashEntry D) (bucket : List (HashEntry D))
    → erase_found 0 (e ∷ bucket) ≡ bucket
unfolding erase_found erase_at
erase_found-zero e bucket =
    let inside : (0 == suc (length bucket)) ≡ false = ground arith in rw inside refl

put-cons :
    {D : Type 0} (i n : ℕ) (datum : D) (e : HashEntry D) (bucket : List (HashEntry D))
    → put (suc i) n datum (e ∷ bucket) ≡ e ∷ put i n datum bucket
unfolding put update_at
put-cons i n datum e bucket = elim (Bool-cases (i == length bucket)) [
  | inl at_end ↦
      let next : (suc i == suc (length bucket)) ≡ true = ground arith in rw (at_end, next) refl
  | inr inside ↦
      let next : (suc i == suc (length bucket)) ≡ false = ground arith in rw (inside, next) refl
]

-- The comparison tells the key of an entry, whose length is known, from its datum.
module _ {D : Type 0} (same : Bytes → D → Bool) (key_of : ℕ → D → Bytes)
    (tells : (key : Bytes) (datum : D)
      → same key datum ≡ equal key (key_of (length key) datum)) where
  abbrev pub data_of : Bytes → List (HashEntry D) → Option D
  data_of key bucket = data_at bucket (find_in same key bucket)

  data_of-cons :
      (key : Bytes) (e : HashEntry D) (bucket : List (HashEntry D))
      → data_of key (e ∷ bucket)
        ≡ (if matches same key e then some e.he_data else data_of key bucket)
  unfolding find_in
  data_of-cons key e bucket = elim (Bool-cases (matches same key e)) [
    | inl here ↦ rw here refl
    | inr later ↦ rw later refl
  ]

  -- An entry of a key matches that key only.
  matches-own :
      (key other : Bytes) (datum : D)
      → key_of (length key) datum ≡ key
      → matches same other (entry datum (length key)) ≡ equal other key
  matches-own key other datum own = elim (Bool-cases (length key == length other)) [
    | inl long ↦
        let e : length other ≡ length key = ground arith in
        let mine : same other datum ≡ equal other key =
          tells other datum ∙ ap (λ n. equal other (key_of n datum)) e ∙ ap (equal other) own in
        rw (long, mine) refl
    | inr differ ↦ elim (Bool-cases (equal other key)) [
      | inl equals ↦ let long = equal-length other key equals in absurd (ground arith)
      | inr unequal ↦ rw (differ, unequal) refl
    ]
  ]

  -- What matches a key is an entry of it.
  matches-key :
      (key : Bytes) (e : HashEntry D)
      → matches same key e ≡ true
      → (e.he_key_len ≡ length key) × (key_of (length key) e.he_data ≡ key)
  matches-key key e holds =
      let long : e.he_key_len ≡ length key = ground arith in
      let mine : same key e.he_data ≡ true = ground arith in
      let equals : equal key (key_of (length key) e.he_data) ≡ true =
        sym (tells key e.he_data) ∙ mine in
      (long, sym ((equal_iff key (key_of (length key) e.he_data)).0 equals))

  matches-other :
      (key other : Bytes) (e : HashEntry D)
      → matches same key e ≡ true
      → matches same other e ≡ equal other key
  matches-other key other e holds =
      let (long, own) = matches-key key e holds in rw long (matches-own key other e.he_data own)

  unmatched :
      (key other : Bytes) (e : HashEntry D)
      → matches same key e ≡ false
      → matches same other e ≡ true
      → equal other key ≡ false
  unmatched key other e fails holds = elim (Bool-cases (equal other key)) [
    | inl equals ↦ let e : other ≡ key = (equal_iff other key).0 equals in absurd (ground arith)
    | inr unequal ↦ unequal
  ]

  pub put-data_of :
      (key other : Bytes) (datum : D) (bucket : List (HashEntry D))
      → key_of (length key) datum ≡ key
      → data_of other (put (find_in same key bucket) (length key) datum bucket)
        ≡ (if equal other key then some datum else data_of other bucket)
  unfolding find_in
  put-data_of key other datum [] own =
      ap (data_of other) (put-nil (length key) datum)
      ∙ data_of-cons other (entry datum (length key)) []
      ∙ ap (λ b. if b then some datum else none) (matches-own key other datum own)
  put-data_of key other datum (e ∷ bucket) own = elim (Bool-cases (matches same key e)) [
    | inl here ↦
        let (long, _) = matches-key key e here in
        let new : matches same other (entry datum e.he_key_len) ≡ equal other key =
          rw long (matches-own key other datum own) in
        let old = matches-other key other e here in
        rw here (
          ap (data_of other) (put-zero (length key) datum e bucket)
          ∙ data_of-cons other (entry datum e.he_key_len) bucket
          ∙ elim (Bool-cases (equal other key)) [
            | inl equals ↦ rw (new, equals) refl
            | inr differ ↦ rw (new, differ, data_of-cons other e bucket, old, differ) refl
          ])
    | inr later ↦ rw later (
        ap (data_of other) (put-cons (find_in same key bucket) (length key) datum e bucket)
        ∙ data_of-cons other e (put (find_in same key bucket) (length key) datum bucket)
        ∙ elim (Bool-cases (matches same other e)) [
          | inl here ↦ rw (unmatched key other e later here, data_of-cons other e bucket, here) refl
          | inr past ↦
              rw (put-data_of key other datum bucket own, data_of-cons other e bucket, past) refl
        ])
  ]

  -- Each key has one entry at most.
  abbrev pub IsDistinct : List (HashEntry D) → Type 0
  IsDistinct [] = Unit
  IsDistinct (e ∷ bucket) =
      ((key : Bytes) → matches same key e ≡ true → data_of key bucket ≡ none) × IsDistinct bucket

  pub erase-data_of :
      (key other : Bytes) (bucket : List (HashEntry D))
      → IsDistinct bucket
      → data_of other (erase_found (find_in same key bucket) bucket)
        ≡ (if equal other key then none else data_of other bucket)
  unfolding find_in erase_found
  erase-data_of key other [] distinct = ground arith
  erase-data_of key other (e ∷ bucket) (first, distinct) = elim (Bool-cases (matches same key e)) [
    | inl here ↦
        let old = matches-other key other e here in
        rw here (
          ap (data_of other) (erase_found-zero e bucket) ∙ elim (Bool-cases (equal other key)) [
            | inl equals ↦ rw (first other (old ∙ equals), equals) refl
            | inr differ ↦ rw (differ, data_of-cons other e bucket, old, differ) refl
          ])
    | inr later ↦ rw later (
        ap (data_of other) (erase_found-cons (find_in same key bucket) e bucket)
        ∙ data_of-cons other e (erase_found (find_in same key bucket) bucket)
        ∙ elim (Bool-cases (matches same other e)) [
          | inl here ↦ rw (unmatched key other e later here, data_of-cons other e bucket, here) refl
          | inr past ↦
              rw (erase-data_of key other bucket distinct, data_of-cons other e bucket, past) refl
        ])
  ]

  pub put-IsDistinct :
      (key : Bytes) (datum : D) (bucket : List (HashEntry D))
      → key_of (length key) datum ≡ key
      → IsDistinct bucket
      → IsDistinct (put (find_in same key bucket) (length key) datum bucket)
  unfolding find_in
  put-IsDistinct key datum [] own distinct = rw (put-nil (length key) datum) (λ k h. refl, tt)
  put-IsDistinct key datum (e ∷ bucket) own (first, distinct) =
      elim (Bool-cases (matches same key e)) [
        | inl here ↦
            let (long, _) = matches-key key e here in
            let mine : (k : Bytes) → matches same k (entry datum e.he_key_len) ≡ equal k key =
              λ k. rw long (matches-own key k datum own) in
            rw (here, put-zero (length key) datum e bucket)
              (λ k h. first k (matches-other key k e here ∙ sym (mine k) ∙ h), distinct)
        | inr later ↦
            rw (later, put-cons (find_in same key bucket) (length key) datum e bucket)
              (
                λ k h.
                    put-data_of key k datum bucket own ∙ rw (unmatched key k e later h) (first k h),
                put-IsDistinct key datum bucket own distinct,
              )
      ]

  pub erase-IsDistinct :
      (key : Bytes) (bucket : List (HashEntry D))
      → IsDistinct bucket
      → IsDistinct (erase_found (find_in same key bucket) bucket)
  unfolding find_in erase_found
  erase-IsDistinct key [] distinct = tt
  erase-IsDistinct key (e ∷ bucket) (first, distinct) = elim (Bool-cases (matches same key e)) [
    | inl here ↦ rw (here, erase_found-zero e bucket) distinct
    | inr later ↦
        rw (later, erase_found-cons (find_in same key bucket) e bucket)
          (
            λ k h. erase-data_of key k bucket distinct ∙ rw (unmatched key k e later h) (first k h),
            erase-IsDistinct key bucket distinct,
          )
  ]
