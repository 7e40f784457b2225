-- ===== src/ScanOrder/Heap.antt =====
-- The heap of libtrn/sorder.cpp, and the laws of a comparison.
use trn.Base.{
  ℕ, suc, ◌*◌, ◌/◌, ◌≤◌, ◌<◌, ◌==◌, if◌then◌else◌, Bool, true, false, ◌&&◌, ◌||◌, List, length,
  arith, ◌≡◌, ◌≢◌, refl, ◌∙◌, ltb, Bool-cases, inl, inr,
}
use trn.Base.Int.{ℤ, pos, leb_ℤ, ltb_ℤ}
use trn.NewsgroupOrder.{count}
use trn.ScanOrder.{entry, put}
use trn.ScanOrder.Places.{entry-put, length-put, count-put, one_if_equal}

-- What the sort needs of a comparison: it tells both orders of two different entries alike, and is
-- transitive. Of an entry and itself it may say anything.
pub record IsComparison (s_compare : ℕ → ℕ → ℤ) : Type 0 where
  pub swapped :
      (a b : ℕ)
      → a ≢ b
      → leb_ℤ (pos 0) (s_compare a b) ≡ true
      → leb_ℤ (s_compare b a) (pos 0) ≡ true
  pub transitive :
      (a b c : ℕ)
      → leb_ℤ (s_compare a b) (pos 0) ≡ true
      → leb_ℤ (s_compare b c) (pos 0) ≡ true
      → leb_ℤ (s_compare a c) (pos 0) ≡ true

-- The entries from 1 to `n` of one sequence are those of another, in any order, and the rest of the
-- sequence is the same.
pub record IsMoved (n : ℕ) (s t : List ℕ) : Type 0 where
  pub size : length t ≡ length s
  pub counts : (x : ℕ) → count x t ≡ count x s
  pub outside : (c : ℕ) → n < c → entry t c ≡ entry s c
  pub source : (c : ℕ) → 1 ≤ c → c ≤ n → (d : ℕ) × (1 ≤ d) × (d ≤ n) × (entry t c ≡ entry s d)

pub IsMoved-refl : (n : ℕ) (s : List ℕ) → IsMoved n s s
IsMoved-refl n s = record {
  size = refl;
  counts = λ x. refl;
  outside = λ c h. refl;
  source = λ c one h. (c, one, h, refl);
}

pub IsMoved-trans : (n : ℕ) {s t u : List ℕ} → IsMoved n s t → IsMoved n t u → IsMoved n s u
IsMoved-trans n {s} {t} {u} p q = record {
  size = q.size ∙ p.size;
  counts = λ x. q.counts x ∙ p.counts x;
  outside = λ c h. q.outside c h ∙ p.outside c h;
  source = source;
}
  where
    source : (c : ℕ) → 1 ≤ c → c ≤ n → (d : ℕ) × (1 ≤ d) × (d ≤ n) × (entry u c ≡ entry s d)
    source c one h =
        let (d, low, high, e) = q.source c one h in
        let (b, low', high', f) = p.source d low high in (b, low', high', e ∙ f)

-- The hole moves from `h` to `j`.
pub swap-IsMoved :
    (n h j t1 : ℕ) (s : List ℕ)
    → 1 ≤ h
    → h < j
    → j ≤ n
    → n ≤ length s
    → IsMoved n (put h t1 s) (put j t1 (put h (entry s j) s))
swap-IsMoved n h j t1 s low less high fits = record {
  size =
      omega (
        arith,
        length-put (put h (entry s j) s) j t1,
        length-put s h (entry s j),
        length-put s h t1,
      );
  counts = λ x. omega (
    arith,
    count-put x t1 s h low (omega arith),
    count-put x (entry s j) s h low (omega arith),
    count-put x t1 (put h (entry s j) s) j (omega arith)
        (omega (arith, length-put s h (entry s j))),
    kept x,
  );
  outside = λ c above. rw (after c (omega arith), before c (omega arith)) (ground arith);
  source = source;
}
  where
    after :
        (c : ℕ)
        → 1 ≤ c
        → entry (put j t1 (put h (entry s j) s)) c
          ≡ (if c == j then t1 else if c == h then entry s j else entry s c)
    after c one =
        entry-put (put h (entry s j) s) j c t1 (omega arith)
          (omega (arith, length-put s h (entry s j))) one
        ∙ ground (arith, entry-put s h c (entry s j) low (omega arith) one)

    before : (c : ℕ) → 1 ≤ c → entry (put h t1 s) c ≡ (if c == h then t1 else entry s c)
    before c one = entry-put s h c t1 low (omega arith) one

    kept : (x : ℕ) → one_if_equal x (entry (put h (entry s j) s) j) ≡ one_if_equal x (entry s j)
    kept x = ground (arith, entry-put s h j (entry s j) low (omega arith) (omega arith))

    source :
        (c : ℕ)
        → 1 ≤ c
        → c ≤ n
        → (d : ℕ) × (1 ≤ d)
          × (d ≤ n)
          × (entry (put j t1 (put h (entry s j) s)) c ≡ entry (put h t1 s) d)
    source c one in_range = elim (Bool-cases (c == j)) [
      | inl here ↦ (h, low, omega arith, ground (arith, after c one, before h low))
      | inr there ↦ elim (Bool-cases (c == h)) [
        | inl hole ↦ (j, omega arith, high, ground (arith, after c one, before j (omega arith)))
        | inr rest ↦ (c, one, in_range, ground (arith, after c one, before c one))
      ]
    ]

module _ (s_compare : ℕ → ℕ → ℤ) (comparison : IsComparison s_compare) where
  -- The entry does not belong behind the other one, as a test.
  unfoldable pub le : ℕ → ℕ → Bool
  le a b = a == b || leb_ℤ (s_compare a b) (pos 0)

  pub le_refl : (a : ℕ) → le a a ≡ true
  unfolding le
  le_refl a = ground arith

  pub le_trans : (a b c : ℕ) → le a b ≡ true → le b c ≡ true → le a c ≡ true
  unfolding le
  le_trans a b c h k = elim (Bool-cases (a == b)) [
    | inl e ↦ let same : a ≡ b = ground arith in rw same k
    | inr e ↦ elim (Bool-cases (b == c)) [
      | inl f ↦ let same : c ≡ b = ground arith in rw same h
      | inr f ↦ ground (arith, comparison.transitive a b c)
    ]
  ]

  -- Of two different entries the comparison tells both orders alike.
  not_before : (a b : ℕ) → leb_ℤ (pos 0) (s_compare a b) ≡ true → le b a ≡ true
  unfolding le
  not_before a b h = elim (Bool-cases (b == a)) [
    | inl e ↦ rw e refl
    | inr e ↦ rw e (comparison.swapped a b (ground arith) h)
  ]

  not_less : (a b : ℕ) → ltb_ℤ (s_compare a b) (pos 0) ≡ false → le b a ≡ true
  not_less a b h = not_before a b (ground arith)

  less : (a b : ℕ) → ltb_ℤ (s_compare a b) (pos 0) ≡ true → le a b ≡ true
  unfolding le
  less a b h = ground arith

  pub greater : (a b : ℕ) → ltb_ℤ (pos 0) (s_compare a b) ≡ true → le b a ≡ true
  greater a b h = not_before a b (ground arith)

  pub not_greater : (a b : ℕ) → ltb_ℤ (pos 0) (s_compare a b) ≡ false → le a b ≡ true
  unfolding le
  not_greater a b h = ground arith

  -- No entry of the part of the heap below `lo` exceeds its parent; the same but for the children of
  -- `h`, which do not exceed its parent either.
  abbrev pub IsHeap : ℕ → ℕ → List ℕ → Type 0
  IsHeap lo n s = (c : ℕ) → 2 ≤ c → c ≤ n → lo ≤ c / 2 → le (entry s c) (entry s (c / 2)) ≡ true

  pub record IsHole (lo n h : ℕ) (s : List ℕ) : Type 0 where
    pub edges :
        (c : ℕ) → 2 ≤ c → c ≤ n → lo ≤ c / 2 → c / 2 ≢ h → le (entry s c) (entry s (c / 2)) ≡ true
    pub bridged :
        (c : ℕ) → c ≤ n → c / 2 ≡ h → lo ≤ h / 2 → 2 ≤ h → le (entry s c) (entry s (h / 2)) ≡ true

  -- The greater child of `h`, where the places from `j` = 2 h on are its children.
  pub record IsChild (n h j : ℕ) (s : List ℕ) : Type 0 where
    pub child : j / 2 ≡ h
    pub inside : j ≤ n
    pub greatest : (c : ℕ) → 2 ≤ c → c ≤ n → c / 2 ≡ h → le (entry s c) (entry s j) ≡ true

  pub greater-IsChild :
      (n h j : ℕ) (s : List ℕ)
      → 1 ≤ h
      → j ≡ 2 * h
      → j ≤ n
      → (let after_j =
            if ltb j n && ltb_ℤ (s_compare (entry s j) (entry s (suc j))) (pos 0)
            then suc j
            else j in
          IsChild n h after_j s)
  greater-IsChild n h j s one e fits = elim (Bool-cases (ltb j n)) [
    | inl two ↦ elim (Bool-cases (ltb_ℤ (s_compare (entry s j) (entry s (suc j))) (pos 0))) [
      | inl right ↦
          rw (two, right)
            (record {
              child = omega arith;
              inside = ground arith;
              greatest = λ c lo hi p. pick c p (suc j) (less _ _ right) (le_refl _);
            })
      | inr left ↦
          rw (two, left)
            (record {
              child = omega arith;
              inside = ground arith;
              greatest = λ c lo hi p. pick c p j (le_refl _) (not_less _ _ left);
            })
    ]
    | inr one_child ↦ rw one_child (record {
      child = omega arith;
      inside = fits;
      greatest = λ c lo hi p. let only : c ≡ j = ground arith in rw only (le_refl _);
    })
  ]
    where
      pick :
          (c : ℕ)
          → c / 2 ≡ h
          → (d : ℕ) → le (entry s j) (entry s d) ≡ true
          → le (entry s (suc j)) (entry s d) ≡ true
          → le (entry s c) (entry s d) ≡ true
      pick c p d first second = elim (Bool-cases (c == j)) [
        | inl here ↦ let same : c ≡ j = ground arith in rw same first
        | inr there ↦ let next : c ≡ suc j = ground arith in rw next second
      ]
