-- ===== src/ScanOrder/Build.antt =====
-- The steps of `sort_basic` of libtrn/sorder.cpp: the heap is built, and places change their entries.
use trn.Base.{
  ℕ, zero, suc, ◌*◌, ◌/◌, ◌≤◌, ◌<◌, ◌==◌, if◌then◌else◌, true, List, length, arith, ◌≡◌, refl, ◌∙◌,
  leb, Bool-cases, inl, inr,
}
use trn.Base.Int.{ℤ}
use trn.ScanOrder.{entry, put, readjust, build}
use trn.ScanOrder.Places.{entry-put, length-put, count-put, one_if_equal}
use trn.ScanOrder.Heap.{
  IsComparison, IsMoved, IsMoved-refl, IsMoved-trans, le, le_trans, le_refl, IsHeap, IsHole,
}
use trn.ScanOrder.Readjust.{readjust-IsHeap}

pub IsMoved-more : (n m : ℕ) {s t : List ℕ} → n ≤ m → IsMoved n s t → IsMoved m s t
IsMoved-more n m {s} {t} more moved = record {
  size = moved.size;
  counts = moved.counts;
  outside = λ c above. moved.outside c (omega arith);
  source = source;
}
  where
    source : (c : ℕ) → 1 ≤ c → c ≤ m → (d : ℕ) × (1 ≤ d) × (d ≤ m) × (entry t c ≡ entry s d)
    source c one inside = elim (Bool-cases (leb c n)) [
      | inl here ↦
          let (d, low, high, e) = moved.source c one (ground arith) in (d, low, omega arith, e)
      | inr behind ↦ (c, one, inside, moved.outside c (ground arith))
    ]

-- A write of the entry that is there.
pub put_same-IsMoved :
    (n h v : ℕ) (s : List ℕ)
    → 1 ≤ h
    → h ≤ n
    → n ≤ length s
    → v ≡ entry s h
    → IsMoved n s (put h v s)
put_same-IsMoved n h v s one inside fits e = record {
  size = length-put s h v;
  counts = λ x. omega (arith, count-put x v s h one (omega arith), same_number x);
  outside = λ c above. same c (omega arith);
  source = λ c low high. (c, low, high, same c low);
}
  where
    same : (c : ℕ) → 1 ≤ c → entry (put h v s) c ≡ entry s c
    same c low = entry-put s h c v one (omega arith) low ∙ ground (arith, e)

    same_number : (x : ℕ) → one_if_equal x v ≡ one_if_equal x (entry s h)
    same_number x = rw e refl

-- The first place and the place `m` change their entries.
module _ (m : ℕ) (s : List ℕ) (two : 2 ≤ m) (fits : m ≤ length s) where
  abbrev pub exchanged : List ℕ
  exchanged = put 1 (entry s m) (put m (entry s 1) s)

  pub entry-exchanged :
      (c : ℕ)
      → 1 ≤ c
      → entry exchanged c ≡ (if c == 1 then entry s m else if c == m then entry s 1 else entry s c)
  entry-exchanged c one =
      entry-put (put m (entry s 1) s) 1 c (entry s m) (omega arith)
        (omega (arith, length-put s m (entry s 1))) one
      ∙ ground (arith, entry-put s m c (entry s 1) (omega arith) fits one)

  pub exchanged-IsMoved : IsMoved m s exchanged
  exchanged-IsMoved = record {
    size =
        omega (arith, length-put (put m (entry s 1) s) 1 (entry s m), length-put s m (entry s 1));
    counts = λ x. omega (
      arith,
      count-put x (entry s 1) s m (omega arith) fits,
      count-put x (entry s m) (put m (entry s 1) s) 1 (omega arith)
          (omega (arith, length-put s m (entry s 1))),
      first_number x,
    );
    outside = λ c above. ground (arith, entry-exchanged c (omega arith));
    source = source;
  }
    where
      first_number :
          (x : ℕ) → one_if_equal x (entry (put m (entry s 1) s) 1) ≡ one_if_equal x (entry s 1)
      first_number x = ground (arith, entry-put s m 1 (entry s 1) (omega arith) fits (omega arith))

      source :
          (c : ℕ) → 1 ≤ c → c ≤ m → (d : ℕ) × (1 ≤ d) × (d ≤ m) × (entry exchanged c ≡ entry s d)
      source c one inside = elim (Bool-cases (c == 1)) [
        | inl first ↦ (m, omega arith, omega arith, ground (arith, entry-exchanged c one))
        | inr later ↦ elim (Bool-cases (c == m)) [
          | inl last ↦ (1, omega arith, omega arith, ground (arith, entry-exchanged c one))
          | inr rest ↦ (c, one, inside, ground (arith, entry-exchanged c one))
        ]
      ]

module _ (s_compare : ℕ → ℕ → ℤ) (comparison : IsComparison s_compare) where
  -- The greatest entry of a heap is at its first place.
  pub first-greatest :
      (f m : ℕ) (s : List ℕ)
      → IsHeap s_compare comparison 1 m s
      → (c : ℕ) → c < f
      → 1 ≤ c
      → c ≤ m
      → le s_compare comparison (entry s c) (entry s 1) ≡ true
  first-greatest zero m s heap c below one inside = absurd (omega arith)
  first-greatest (suc f) m s heap c below one inside = elim (Bool-cases (c == 1)) [
    | inl first ↦ let e : c ≡ 1 = ground arith in rw e (le_refl s_compare comparison (entry s 1))
    | inr later ↦
        let two : 2 ≤ c = ground arith in
        le_trans s_compare comparison (entry s c) (entry s (c / 2)) (entry s 1)
          (heap c two inside (omega arith))
          (first-greatest f m s heap (c / 2) (omega arith) (omega arith) (omega arith))
  ]

  -- A hole at a place with its own entry.
  same-IsHole :
      (lo n h v : ℕ) (s : List ℕ)
      → 1 ≤ h
      → h ≤ n
      → n ≤ length s
      → h / 2 < lo
      → v ≡ entry s h
      → IsHeap s_compare comparison (suc lo) n s
      → lo ≡ h
      → IsHole s_compare comparison lo n h (put h v s)
  same-IsHole lo n h v s one inside fits top e heap start = record {
    edges = λ c two in_heap from other.
        rw (same c (omega arith), same (c / 2) (omega arith)) (heap c two in_heap (omega arith));
    bridged = λ c in_heap p from two. absurd (omega arith);
  }
    where
      same : (c : ℕ) → 1 ≤ c → entry (put h v s) c ≡ entry s c
      same c low = entry-put s h c v one (omega arith) low ∙ ground (arith, e)

  pub build-IsHeap :
      (k n : ℕ) (s : List ℕ)
      → k ≤ n
      → n ≤ length s
      → IsHeap s_compare comparison (suc k) n s
      → IsHeap s_compare comparison 1 n (build s_compare k n s)
        × IsMoved n s (build s_compare k n s)
  unfolding build
  build-IsHeap zero n s inside fits heap = (heap, IsMoved-refl n s)
  build-IsHeap (suc k) n s inside fits heap =
      let v = entry s (suc k) in
      let hole =
        same-IsHole (suc k) n (suc k) v s (omega arith) inside fits (omega arith) refl heap refl in
      let (heap', moved) =
        readjust-IsHeap s_compare comparison n (suc k) n (suc k) (2 * suc k) v s (omega arith) refl
          (omega arith) (omega arith) inside fits hole in
      let moved_here =
        IsMoved-trans n (put_same-IsMoved n (suc k) v s (omega arith) inside fits refl) moved in
      let (whole, later) =
        build-IsHeap k n (readjust s_compare n v (2 * suc k) n s) (omega arith)
          (omega (arith, moved_here.size)) heap' in
      (whole, IsMoved-trans n moved_here later)
