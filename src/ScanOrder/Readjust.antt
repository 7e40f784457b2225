-- ===== src/ScanOrder/Readjust.antt =====
-- `readjust`, the inlined readjustment of the heap of libtrn/sorder.cpp.
use trn.Base.{
  ℕ, zero, suc, ◌+◌, ◌*◌, ◌/◌, ◌≤◌, ◌<◌, ◌==◌, if◌then◌else◌, true, false, List, length, arith, ◌≡◌,
  ◌≢◌, ◌∙◌, leb, ==_refl, Bool-cases, inl, inr,
}
use trn.Base.Int.{ℤ, pos, ltb_ℤ}
use trn.ScanOrder.{entry, put, readjust}
use trn.ScanOrder.Places.{entry-put, length-put}
use trn.ScanOrder.Heap.{
  IsComparison, IsMoved, IsMoved-refl, IsMoved-trans, swap-IsMoved, le, IsHeap, IsHole, IsChild,
  greater-IsChild, greater, not_greater, le_trans,
}

module _ (s_compare : ℕ → ℕ → ℤ) (comparison : IsComparison s_compare) where
  module _ (lo n h t1 : ℕ) (s : List ℕ) (low : 1 ≤ h) (above : lo ≤ h) (high : h ≤ n)
      (fits : n ≤ length s) (hole : IsHole s_compare comparison lo n h (put h t1 s)) where
    in_hole : (c : ℕ) → 1 ≤ c → entry (put h t1 s) c ≡ (if c == h then t1 else entry s c)
    in_hole c one = entry-put s h c t1 low (omega arith) one

    -- The hole has no children in the heap.
    leaf-IsHeap : n < 2 * h → IsHeap s_compare comparison lo n (put h t1 s)
    leaf-IsHeap leaf c two inside from = hole.edges c two inside from (omega arith)

    module _ (j : ℕ) (child : IsChild s_compare comparison n h j s) where
      -- The entry exceeds its greater child.
      settled-IsHeap :
          le s_compare comparison (entry s j) t1 ≡ true
          → IsHeap s_compare comparison lo n (put h t1 s)
      settled-IsHeap over c two inside from = elim (Bool-cases (c / 2 == h)) [
        | inl p ↦
            let e : c / 2 ≡ h = ground arith in
            let at_c : entry (put h t1 s) c ≡ entry s c = ground (arith, in_hole c (omega arith)) in
            let at_h : entry (put h t1 s) h ≡ t1 = ground (arith, in_hole h low) in
            rw (e, at_c, at_h)
              (le_trans s_compare comparison (entry s c) (entry s j) t1
                (child.greatest c two inside e) over)
        | inr p ↦ hole.edges c two inside from (ground arith)
      ]

      -- The greater child takes the place of the hole, which moves down.
      moved_up :
          (c : ℕ)
          → 1 ≤ c
          → entry (put j t1 (put h (entry s j) s)) c
            ≡ (if c == j then t1 else if c == h then entry s j else entry s c)
      moved_up c one =
          let below : h < j = omega (arith, child.child) in
          entry-put (put h (entry s j) s) j c t1 (omega arith)
            (omega (arith, child.inside, length-put s h (entry s j))) one
          ∙ ground (arith, entry-put s h c (entry s j) low (omega arith) one)

      sunk-IsHole :
          le s_compare comparison t1 (entry s j) ≡ true
          → IsHole s_compare comparison lo n j (put j t1 (put h (entry s j) s))
      sunk-IsHole under = record {
        edges = edges;
        bridged = λ c inside p from two. bridged c inside p;
      }
        where
          below : h < j
          below = omega (arith, child.child)

          -- The old place of the child, which is not the hole's new one.
          at_hole :
              (c : ℕ)
              → 2 ≤ c
              → c ≤ n
              → lo ≤ c / 2
              → c ≡ h
              → le s_compare comparison
                  (if c == h then entry s j else entry s c)
                  (if c / 2 == j then t1 else if c / 2 == h then entry s j else entry s (c / 2))
                ≡ true
          at_hole c two inside from e =
              let p : (c == h) ≡ true = ground arith in
              let q : (c / 2 == j) ≡ false = ground arith in
              let r : (c / 2 == h) ≡ false = ground arith in
              let child_at : entry (put h t1 s) j ≡ entry s j =
                ground (arith, in_hole j (omega arith)) in
              let parent_at : entry (put h t1 s) (h / 2) ≡ entry s (h / 2) =
                ground (arith, in_hole (h / 2) (omega arith)) in
              let old = hole.bridged j child.inside child.child (omega arith) (omega arith) in
              rw (p, q, r, e) (rw (child_at, parent_at) at old)

          beside :
              (c : ℕ)
              → 2 ≤ c
              → c ≤ n
              → lo ≤ c / 2
              → c / 2 ≢ j
              → c ≢ h
              → le s_compare comparison
                  (entry s c)
                  (if c / 2 == j then t1 else if c / 2 == h then entry s j else entry s (c / 2))
                ≡ true
          beside c two inside from other elsewhere =
              let q : (c / 2 == j) ≡ false = ground arith in
              rw q (elim (Bool-cases (c / 2 == h)) [
                | inl p ↦ rw p (child.greatest c two inside (ground arith))
                | inr p ↦
                    let at_c : entry (put h t1 s) c ≡ entry s c =
                      ground (arith, in_hole c (omega arith)) in
                    let at_p : entry (put h t1 s) (c / 2) ≡ entry s (c / 2) =
                      ground (arith, in_hole (c / 2) (omega arith)) in
                    let old = hole.edges c two inside from (ground arith) in
                    rw p (rw (at_c, at_p) at old)
              ])

          edges :
              (c : ℕ)
              → 2 ≤ c
              → c ≤ n
              → lo ≤ c / 2
              → c / 2 ≢ j
              → le s_compare comparison
                  (entry (put j t1 (put h (entry s j) s)) c)
                  (entry (put j t1 (put h (entry s j) s)) (c / 2))
                ≡ true
          edges c two inside from other =
              rw (moved_up c (omega arith), moved_up (c / 2) (omega arith))
                (elim (Bool-cases (c == j)) [
                  | inl here ↦
                      let p : c / 2 ≡ h = ground (arith, child.child) in
                      let q : (c / 2 == j) ≡ false = ground arith in
                      let r : (c / 2 == h) ≡ true = ground arith in rw (here, q, r) under
                  | inr there ↦ rw there (elim (Bool-cases (c == h)) [
                    | inl hole_here ↦ at_hole c two inside from (ground arith)
                    | inr rest ↦ rw rest (beside c two inside from other (ground arith))
                  ])
                ])

          bridged :
              (c : ℕ)
              → c ≤ n
              → c / 2 ≡ j
              → le s_compare comparison
                  (entry (put j t1 (put h (entry s j) s)) c)
                  (entry (put j t1 (put h (entry s j) s)) (j / 2))
                ≡ true
          bridged c inside p =
              let child_at : entry (put h t1 s) j ≡ entry s j =
                ground (arith, in_hole j (omega arith)) in
              let at_c : entry (put h t1 s) c ≡ entry s c =
                ground (arith, in_hole c (omega arith)) in
              let up : j / 2 ≡ h = child.child in
              let q : (c == j) ≡ false = ground arith in
              let r : (c == h) ≡ false = ground arith in
              let u : (h == j) ≡ false = ground arith in
              let old = hole.edges c (omega arith) inside (omega arith) (omega arith) in
              rw (up, moved_up c (omega arith), moved_up h low, q, r, u, ==_refl h)
                (rw (p, at_c, child_at) at old)

      -- One round, before what the deeper ones do.
      round-IsHeap :
          (deeper : List ℕ)
          → (IsHole s_compare comparison lo n j (put j t1 (put h (entry s j) s))
              → IsHeap s_compare comparison lo n deeper
                × IsMoved n (put j t1 (put h (entry s j) s)) deeper)
          → (let t = if ltb_ℤ (pos 0) (s_compare t1 (entry s j)) then put h t1 s else deeper in
              IsHeap s_compare comparison lo n t × IsMoved n (put h t1 s) t)
      round-IsHeap deeper go = elim (Bool-cases (ltb_ℤ (pos 0) (s_compare t1 (entry s j)))) [
        | inl over ↦
            rw over
              (settled-IsHeap (greater s_compare comparison t1 (entry s j) over), IsMoved-refl n _)
        | inr under ↦
            let below : h < j = omega (arith, child.child) in
            let (heap, moved) =
              go (sunk-IsHole (not_greater s_compare comparison t1 (entry s j) under)) in
            rw under
              (heap, IsMoved-trans n (swap-IsMoved n h j t1 s low below child.inside fits) moved)
      ]

  -- The heap is restored, and its entries are the same.
  pub readjust-IsHeap :
      (f lo n h j t1 : ℕ) (s : List ℕ)
      → n < j + f
      → j ≡ 2 * h
      → 1 ≤ h
      → lo ≤ h
      → h ≤ n
      → n ≤ length s
      → IsHole s_compare comparison lo n h (put h t1 s)
      → IsHeap s_compare comparison lo n (readjust s_compare f t1 j n s)
        × IsMoved n (put h t1 s) (readjust s_compare f t1 j n s)
  unfolding readjust
  readjust-IsHeap zero lo n h j t1 s fuel e low above high fits hole =
      let half : j / 2 ≡ h = omega arith in
      rw half (leaf-IsHeap lo n h t1 s low above high fits hole (omega arith), IsMoved-refl n _)
  readjust-IsHeap (suc f) lo n h j t1 s fuel e low above high fits hole =
      elim (Bool-cases (leb j n)) [
        | inr leaf ↦
            let half : j / 2 ≡ h = omega arith in
            rw (leaf, half)
              (leaf-IsHeap lo n h t1 s low above high fits hole (ground arith), IsMoved-refl n _)
        | inl inner ↦
            let child = greater-IsChild s_compare comparison n h j s low e (ground arith) in
            rw (inner, child.child)
              (round-IsHeap lo n h t1 s low above high fits hole _ child _ (λ sunk.
                readjust-IsHeap f lo n _ _ t1 _ (omega (arith, child.child)) (omega arith)
                  (omega (arith, child.child)) (omega (arith, child.child)) child.inside
                  (omega (arith, length-put s h (entry s _))) sunk))
      ]
