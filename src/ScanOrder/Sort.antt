-- ===== src/ScanOrder/Sort.antt =====
-- `sort_basic` of libtrn/sorder.cpp: the heap, and the tail that grows behind it.
use trn.Base.{
  ℕ, zero, suc, ◌-◌, ◌/◌, ◌≤◌, ◌<◌, ◌==◌, if◌then◌else◌, true, List, length, arith, ◌≡◌, refl, ◌∙◌,
  ltb, Bool-cases, inl, inr,
}
use trn.Base.Int.{ℤ}
use trn.ScanOrder.{entry, put, readjust, build, extract, sort_basic}
use trn.ScanOrder.Places.{entry-put}
use trn.ScanOrder.Heap.{
  IsComparison, IsMoved, IsMoved-refl, IsMoved-trans, le, le_refl, IsHeap, IsHole,
}
use trn.ScanOrder.Readjust.{readjust-IsHeap}
use trn.ScanOrder.Build.{
  IsMoved-more, put_same-IsMoved, exchanged, entry-exchanged, exchanged-IsMoved, first-greatest,
  build-IsHeap,
}

module _ (s_compare : ℕ → ℕ → ℤ) (comparison : IsComparison s_compare) where
  -- The places behind `m` are in order, and nothing up to `m` exceeds an entry there.
  record IsTail (m n : ℕ) (s : List ℕ) : Type 0 where
    ordered :
        (p q : ℕ) → m < p → p ≤ q → q ≤ n → le s_compare comparison (entry s p) (entry s q) ≡ true
    across :
        (c p : ℕ)
        → 1 ≤ c
        → c ≤ m
        → m < p
        → p ≤ n
        → le s_compare comparison (entry s c) (entry s p) ≡ true

  abbrev pub IsSorted : List ℕ → Type 0
  IsSorted s =
      (p q : ℕ)
      → 1 ≤ p
      → p ≤ q
      → q ≤ length s
      → le s_compare comparison (entry s p) (entry s q) ≡ true

  -- The tail grows by the greatest entry of the heap before it.
  grow-IsTail :
      (k n : ℕ) (s t : List ℕ)
      → suc (suc k) ≤ n
      → IsHeap s_compare comparison 1 (suc (suc k)) s
      → IsTail (suc (suc k)) n s
      → IsMoved (suc (suc k)) s t
      → entry t (suc (suc k)) ≡ entry s 1
      → IsTail (suc k) n t
  grow-IsTail k n s t inside heap tail moved top = record { ordered = ordered; across = across }
    where
      at_top :
          (c : ℕ)
          → 1 ≤ c
          → c ≤ suc (suc k)
          → le s_compare comparison (entry t c) (entry t (suc (suc k))) ≡ true
      at_top c low high =
          let (d, low', high', e) = moved.source c low high in
          rw (top, e)
            (first-greatest s_compare comparison (suc d) (suc (suc k)) s heap d (omega arith) low'
              high')

      past :
          (c p : ℕ)
          → 1 ≤ c
          → c ≤ suc (suc k)
          → suc (suc k) < p
          → p ≤ n
          → le s_compare comparison (entry t c) (entry t p) ≡ true
      past c p low high behind below =
          let (d, low', high', e) = moved.source c low high in
          rw (moved.outside p behind, e) (tail.across d p low' high' behind below)

      across :
          (c p : ℕ)
          → 1 ≤ c
          → c ≤ suc k
          → suc k < p
          → p ≤ n
          → le s_compare comparison (entry t c) (entry t p) ≡ true
      across c p low high behind below = elim (Bool-cases (p == suc (suc k))) [
        | inl here ↦ let e : p ≡ suc (suc k) = ground arith in rw e (at_top c low (omega arith))
        | inr there ↦ past c p low (omega arith) (ground arith) below
      ]

      ordered :
          (p q : ℕ)
          → suc k < p
          → p ≤ q
          → q ≤ n
          → le s_compare comparison (entry t p) (entry t q) ≡ true
      ordered p q behind le below = elim (Bool-cases (p == suc (suc k))) [
        | inl here ↦ elim (Bool-cases (q == suc (suc k))) [
          | inl same ↦
              let e : q ≡ suc (suc k) = ground arith in rw e (at_top p (omega arith) (ground arith))
          | inr later ↦ past p q (omega arith) (ground arith) (ground arith) below
        ]
        | inr there ↦
            rw (moved.outside p (ground arith), moved.outside q (ground arith))
              (tail.ordered p q (ground arith) le below)
      ]

  -- One round: the greatest entry goes to place `k` + 2, and the rest is a heap again.
  module _ (k : ℕ) (s : List ℕ) (fits : suc (suc k) ≤ length s)
      (heap : IsHeap s_compare comparison 1 (suc (suc k)) s) where
    abbrev swapped : List ℕ
    swapped = exchanged (suc (suc k)) s (omega arith) fits

    abbrev after_round : List ℕ
    after_round = readjust s_compare (suc k) (entry s (suc (suc k))) 2 (suc k) swapped

    entry-swapped :
        (c : ℕ)
        → 1 ≤ c
        → entry swapped c ≡ (
            if c == 1
            then entry s (suc (suc k))
            else if c == suc (suc k)
            then entry s 1
            else entry s c)
    entry-swapped c one = entry-exchanged (suc (suc k)) s (omega arith) fits c one

    size_swapped : length swapped ≡ length s
    size_swapped = (exchanged-IsMoved (suc (suc k)) s (omega arith) fits).size

    first_swapped : entry s (suc (suc k)) ≡ entry swapped 1
    first_swapped = ground (arith, entry-swapped 1)

    IsHole-swapped : IsHole s_compare comparison 1 (suc k) 1 (put 1 (entry s (suc (suc k))) swapped)
    IsHole-swapped = record {
      edges = λ c two inside from other.
          rw (same c two (omega arith), same (c / 2) (omega arith) (omega arith))
            (heap c two (omega arith) from);
      bridged = λ c inside p from two. absurd (omega arith);
    }
      where
        same :
            (c : ℕ)
            → 2 ≤ c
            → c ≤ suc k
            → entry (put 1 (entry s (suc (suc k))) swapped) c ≡ entry s c
        same c two inside =
            entry-put swapped 1 c (entry s (suc (suc k))) (omega arith)
              (omega (arith, size_swapped)) (omega arith)
            ∙ ground (arith, entry-swapped c)

    after_round-lem :
        IsHeap s_compare comparison 1 (suc k) after_round × IsMoved (suc k) swapped after_round
    after_round-lem =
        let (heap', moved) =
          readjust-IsHeap s_compare comparison (suc k) 1 (suc k) 1 2 (entry s (suc (suc k))) swapped
            (omega arith) refl (omega arith) (omega arith) (omega arith)
            (omega (arith, size_swapped)) IsHole-swapped in
        (
          heap',
          IsMoved-trans (suc k)
              (put_same-IsMoved (suc k) 1 (entry s (suc (suc k))) swapped (omega arith)
                (omega arith) (omega (arith, size_swapped)) first_swapped)
              moved,
        )

    after_round-IsMoved : IsMoved (suc (suc k)) s after_round
    after_round-IsMoved =
        IsMoved-trans (suc (suc k)) (exchanged-IsMoved (suc (suc k)) s (omega arith) fits)
          (IsMoved-more (suc k) (suc (suc k)) (omega arith) after_round-lem.1)

    after_round-last : entry after_round (suc (suc k)) ≡ entry s 1
    after_round-last =
        after_round-lem.1.outside (suc (suc k)) (omega arith)
        ∙ ground (arith, entry-swapped (suc (suc k)))

  extract-IsSorted :
      (k : ℕ) (s : List ℕ)
      → suc k ≤ length s
      → IsHeap s_compare comparison 1 (suc k) s
      → IsTail (suc k) (length s) s
      → IsSorted (extract s_compare k s) × IsMoved (length s) s (extract s_compare k s)
  unfolding extract
  extract-IsSorted zero s fits heap tail = (sorted, IsMoved-refl (length s) s)
    where
      sorted : IsSorted s
      sorted p q one le' inside = elim (Bool-cases (p == 1)) [
        | inr later ↦ tail.ordered p q (ground arith) le' inside
        | inl first ↦ elim (Bool-cases (q == 1)) [
          | inl same ↦
              let e : p ≡ 1 = ground arith in
              let f : q ≡ 1 = ground arith in rw (e, f) (le_refl s_compare comparison (entry s 1))
          | inr behind ↦ tail.across p q one (ground arith) (ground arith) inside
        ]
      ]
  extract-IsSorted (suc k) s fits heap tail =
      let moved = after_round-IsMoved k s fits heap in
      let (sorted, rest) =
        extract-IsSorted k (after_round k s fits heap) (omega (arith, moved.size))
          (after_round-lem k s fits heap).0
          (rw moved.size (
            grow-IsTail k (length s) s (after_round k s fits heap) fits heap tail moved
              (after_round-last k s fits heap))) in
      (
        sorted,
        IsMoved-trans (length s) (IsMoved-more (suc (suc k)) (length s) fits moved)
            (rw moved.size at rest),
      )

  extract_whole :
      (k : ℕ) (s : List ℕ)
      → length s ≡ suc k
      → IsHeap s_compare comparison 1 (length s) s
      → IsSorted (extract s_compare k s) × IsMoved (length s) s (extract s_compare k s)
  extract_whole k s e heap = extract-IsSorted k s (omega arith) (rw e at heap) (record {
    ordered = λ p q behind le' inside. absurd (omega arith);
    across = λ c p one inside behind below. absurd (omega arith);
  })

  -- For a comparison that tells both orders of two different entries alike and is transitive, as
  -- `s_compare` is in a scan of articles: the entries are in order, none behind one that it belongs
  -- before, and they are the same as before.
  pub sort_basic-IsSorted :
      (s : List ℕ)
      → IsSorted (sort_basic s_compare s) × IsMoved (length s) s (sort_basic s_compare s)
  unfolding sort_basic
  sort_basic-IsSorted s = elim (Bool-cases (ltb (length s) 1)) [
    | inl none_there ↦
        rw none_there (λ p q one le' inside. absurd (ground arith), IsMoved-refl (length s) s)
    | inr some_there ↦
        let (heap, moved) =
          build-IsHeap s_compare comparison (length s / 2) (length s) s (omega arith) (omega arith)
            (λ c two inside from. absurd (omega arith)) in
        let (sorted, rest) =
          extract_whole (length s - 1) (build s_compare (length s / 2) (length s) s)
            (ground (arith, moved.size)) (rw moved.size heap) in
        rw some_there (sorted, IsMoved-trans (length s) moved (rw moved.size at rest))
  ]
