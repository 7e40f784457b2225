-- ===== src/EditDistance/Reached.antt =====
-- Edits of `from` into `to` and the distance of libtrn/edit_dist.cpp.
use trn.Base.{
  ℕ, zero, suc, ◌+◌, ◌≤◌, ◌<◌, Bool, true, false, ◌==◌, if◌then◌else◌, [], ◌∷◌, ◌++◌, Bytes, length,
  take, arith, append-nil, append_assoc, ◌≡◌, refl, Bool-cases, inl, inr, ltb, ap, min,
}
use trn.EditDistance.{at, min3, change_cost}
use trn.EditDistance.Distance.{dist, is_swap}
use trn.EditDistance.Edits.{Edits, done, keep, change, insert, delete, swap, Edits-append}
use trn.EditDistance.Ring.{at-cons_zero, at-cons_suc}

take-suc : (s : Bytes) (n : ℕ) → n < length s → take (suc n) s ≡ take n s ++ (at s n ∷ [])
take-suc [] n h = absurd (omega arith)
take-suc (c ∷ s) zero h = rw (at-cons_zero c s) refl
take-suc (c ∷ s) (suc n) h = rw (at-cons_suc c s n) (ap (λ t. c ∷ t) (take-suc s n (omega arith)))

pub take-length : (s : Bytes) → take (length s) s ≡ s
take-length [] = refl
take-length (c ∷ s) = ap (λ t. c ∷ t) (take-length s)

module _ (from to : Bytes) where
  abbrev IsReached : ℕ → ℕ → ℕ → Type 0
  IsReached x y n = Edits (take y from) (take x to) n

  by_change :
      (x y n : ℕ)
      → x < length to
      → y < length from
      → IsReached x y n
      → IsReached (suc x) (suc y) (n + change_cost (at from y) (at to x))
  by_change x y n hx hy s =
      rw (take-suc from y hy, take-suc to x hx)
        (elim (Bool-cases (at from y == at to x)) [
          | inl same ↦
              let e : at from y ≡ at to x = ground arith in
              rw (same, e) (Edits-append n 0 (n + 0) refl s (keep (at to x) done))
          | inr differ ↦ rw differ (Edits-append n 1 (n + 1) refl s (change _ _ done))
        ])

  by_insert : (x y n : ℕ) → x < length to → IsReached x y n → IsReached (suc x) y (n + 1)
  by_insert x y n h s =
      rw (take-suc to x h)
        (rw append-nil at (Edits-append n 1 (n + 1) refl s (insert (at to x) done)))

  by_delete : (x y n : ℕ) → y < length from → IsReached x y n → IsReached x (suc y) (n + 1)
  by_delete x y n h s =
      rw (take-suc from y h)
        (rw append-nil at (Edits-append n 1 (n + 1) refl s (delete (at from y) done)))

  by_swap :
      (x y n : ℕ)
      → suc x < length to
      → suc y < length from
      → is_swap from to x y ≡ true
      → IsReached x y n
      → IsReached (suc (suc x)) (suc (suc y)) (n + 1)
  by_swap x y n hx hy h s =
      let e : at from (suc y) ≡ at to x = ground arith in
      let f : at from y ≡ at to (suc x) = ground arith in
      rw
        (
          take-suc from (suc y) hy,
          take-suc from y (omega arith),
          take-suc to (suc x) hx,
          take-suc to x (omega arith),
          e,
          f,
          append_assoc,
          append_assoc,
        )
        (Edits-append n 1 (n + 1) refl s (swap (at to (suc x)) (at to x) done))

  by_min : (x y n m : ℕ) → IsReached x y n → IsReached x y m → IsReached x y (min n m)
  by_min x y n m s t = elim (Bool-cases (ltb n m)) [
    | inl less ↦ let e : min n m ≡ n = ground arith in rw e s
    | inr more ↦ let e : min n m ≡ m = ground arith in rw e t
  ]

  by_cost : (x y n m : ℕ) → m ≡ n → IsReached x y n → IsReached x y m
  by_cost x y n m e s = rw e s

  -- The three ways that end a row and a column.
  by_min3 :
      (x y : ℕ) {p q r : ℕ}
      → x < length to
      → y < length from
      → IsReached x y p
      → IsReached x (suc y) q
      → IsReached (suc x) y r
      → IsReached (suc x) (suc y) (min3 (p + change_cost (at from y) (at to x)) (q + 1) (r + 1))
  by_min3 x y {p} {q} {r} hx hy s t u =
      by_min (suc x) (suc y) _ (r + 1)
        (by_min (suc x) (suc y) _ (q + 1) (by_change x y p hx hy s) (by_insert x (suc y) q hx t))
        (by_delete (suc x) y r hy u)

  by_if :
      (x y n m : ℕ) (b : Bool)
      → IsReached x y n
      → (b ≡ true → IsReached x y m)
      → IsReached x y (if b then min n m else n)
  by_if x y n m true s t = by_min x y n m s (t refl)
  by_if x y n m false s t = s

  pub dist-IsReached :
      (x y : ℕ) → x ≤ length to → y ≤ length from → IsReached x y (dist from to x y)
  unfolding dist
  dist-IsReached zero zero hx hy = done
  dist-IsReached zero (suc y) hx hy =
      by_cost zero (suc y) (y + 1) (suc y) (omega arith)
        (by_delete zero y y hy (dist-IsReached zero y hx (omega arith)))
  dist-IsReached (suc zero) zero hx hy =
      by_insert zero zero 0 hx (dist-IsReached zero zero (omega arith) hy)
  dist-IsReached (suc (suc x)) zero hx hy =
      by_cost (suc (suc x)) zero (suc x + 1) (suc (suc x)) (omega arith)
        (by_insert (suc x) zero (suc x) hx (dist-IsReached (suc x) zero (omega arith) hy))
  dist-IsReached (suc zero) (suc y) hx hy =
      by_min3 zero y hx hy (dist-IsReached zero y (omega arith) (omega arith))
        (dist-IsReached zero (suc y) (omega arith) hy)
        (dist-IsReached (suc zero) y hx (omega arith))
  dist-IsReached (suc (suc x)) (suc zero) hx hy =
      by_min3 (suc x) zero hx hy (dist-IsReached (suc x) zero (omega arith) (omega arith))
        (dist-IsReached (suc x) (suc zero) (omega arith) hy)
        (dist-IsReached (suc (suc x)) zero hx (omega arith))
  dist-IsReached (suc (suc x)) (suc (suc y)) hx hy =
      by_if (suc (suc x)) (suc (suc y)) _ _ (is_swap from to x y)
        (by_min3 (suc x) (suc y) hx hy (dist-IsReached (suc x) (suc y) (omega arith) (omega arith))
          (dist-IsReached (suc x) (suc (suc y)) (omega arith) hy)
          (dist-IsReached (suc (suc x)) (suc y) hx (omega arith)))
        (λ e. by_swap x y _ hx hy e (dist-IsReached x y (omega arith) (omega arith)))
