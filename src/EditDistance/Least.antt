-- ===== src/EditDistance/Least.antt =====
-- The distance, the edits, and `edit_distn` of libtrn/edit_dist.cpp.
use trn.Base.{
  ℕ, zero, suc, ◌+◌, ◌≤◌, ◌<◌, Bool, true, false, ◌&&◌, ◌==◌, if◌then◌else◌, [], ◌∷◌, Bytes, length,
  drop, arith, ◌≡◌, ◌↔◌, refl, ltb, ◌∙◌, ap, min,
}
use trn.EditDistance.{at, min3, min_dist, str_len_threshold, change_cost, edit_distn}
use trn.EditDistance.Distance.{dist, dist-le-insert, is_swap}
use trn.EditDistance.Edits.{Edits, done, keep, change, insert, delete, swap, IsLeast}
use trn.EditDistance.Ring.{at-cons_zero, at-cons_suc}
use trn.EditDistance.Reached.{dist-IsReached, take-length}
use trn.EditDistance.Rows.{fill-dist}

-- What stands at a position where a cons begins.
record IsNext (s : Bytes) (n c : ℕ) (t : Bytes) : Type 0 where
  front : at s n ≡ c
  inside : n < length s
  behind : drop (suc n) s ≡ t

drop-IsNext : (s : Bytes) (n c : ℕ) (t : Bytes) → drop n s ≡ c ∷ t → IsNext s n c t
drop-IsNext [] zero c t e = cc
drop-IsNext [] (suc n) c t e = cc
drop-IsNext (d ∷ s) zero c t e =
    let p : d ≡ c = cc in
    let q : s ≡ t = cc in record { front = at-cons_zero d s ∙ p; inside = omega arith; behind = q }
drop-IsNext (d ∷ s) (suc n) c t e =
    let next = drop-IsNext s n c t e in
    record {
      front = at-cons_suc d s n ∙ next.front;
      inside = omega (arith, next.inside);
      behind = next.behind;
    }

drop-end : (s : Bytes) (n : ℕ) → drop n s ≡ [] → n ≤ length s → length s ≡ n
drop-end [] zero e h = refl
drop-end [] (suc n) e h = absurd (omega arith)
drop-end (d ∷ s) zero e h = cc
drop-end (d ∷ s) (suc n) e h = ap suc (drop-end s n e (omega arith))

module _ (from to : Bytes) where
  dist-le-delete : (x y : ℕ) → dist from to x (suc y) ≤ dist from to x y + 1
  unfolding dist
  dist-le-delete zero y = omega arith
  dist-le-delete (suc zero) zero = omega arith
  dist-le-delete (suc zero) (suc y) = omega arith
  dist-le-delete (suc (suc x)) zero = omega arith
  dist-le-delete (suc (suc x)) (suc y) = ground arith

  dist-le-change :
      (x y : ℕ)
      → dist from to (suc x) (suc y) ≤ dist from to x y + change_cost (at from y) (at to x)
  unfolding dist
  dist-le-change zero y = omega arith
  dist-le-change (suc x) zero = omega arith
  dist-le-change (suc x) (suc y) = if_min-le (is_swap from to x y) _ _ _ _
    where
      if_min-le : (b : Bool) (p q r s : ℕ) → (if b then min (min3 p q r) s else min3 p q r) ≤ p
      if_min-le true p q r s = omega arith
      if_min-le false p q r s = omega arith

  dist-le-swap :
      (x y : ℕ)
      → is_swap from to x y ≡ true
      → dist from to (suc (suc x)) (suc (suc y)) ≤ dist from to x y + 1
  unfolding dist
  dist-le-swap x y e = rw e (omega arith)

  -- From any cell on, edits of what is left cost at least what is missing from the distance.
  dist-le-rest :
      {a b : Bytes} {n : ℕ} (x y : ℕ)
      → x ≤ length to
      → y ≤ length from
      → drop y from ≡ a
      → drop x to ≡ b
      → Edits a b n
      → dist from to (length to) (length from) ≤ dist from to x y + n
  dist-le-rest x y hx hy ea eb done = rw (drop-end from y ea hy, drop-end to x eb hx) (omega arith)
  dist-le-rest x y hx hy ea eb (keep c s) =
      let f = drop-IsNext from y c _ ea in
      let t = drop-IsNext to x c _ eb in
      let free : change_cost (at from y) (at to x) ≡ 0 = ground (arith, f.front, t.front) in
      omega (
        arith,
        free,
        dist-le-change x y,
        dist-le-rest (suc x) (suc y) t.inside f.inside f.behind t.behind s,
      )
  dist-le-rest x y hx hy ea eb (change c d s) =
      let f = drop-IsNext from y c _ ea in
      let t = drop-IsNext to x d _ eb in
      let price : change_cost (at from y) (at to x) ≤ 1 = ground arith in
      omega (
        arith,
        price,
        dist-le-change x y,
        dist-le-rest (suc x) (suc y) t.inside f.inside f.behind t.behind s,
      )
  dist-le-rest x y hx hy ea eb (insert d s) =
      let t = drop-IsNext to x d _ eb in
      omega (arith, dist-le-insert from to x y, dist-le-rest (suc x) y t.inside hy ea t.behind s)
  dist-le-rest x y hx hy ea eb (delete c s) =
      let f = drop-IsNext from y c _ ea in
      omega (arith, dist-le-delete x y, dist-le-rest x (suc y) hx f.inside f.behind eb s)
  dist-le-rest x y hx hy ea eb (swap c d s) =
      let f = drop-IsNext from y c _ ea in
      let t = drop-IsNext to x d _ eb in
      let g = drop-IsNext from (suc y) d _ f.behind in
      let u = drop-IsNext to (suc x) c _ t.behind in
      let swapped : is_swap from to x y ≡ true =
        ground (arith, f.front, g.front, t.front, u.front) in
      omega (
        arith,
        dist-le-swap x y swapped,
        dist-le-rest (suc (suc x)) (suc (suc y)) u.inside g.inside g.behind u.behind s,
      )

  dist-IsLeast : IsLeast from to (dist from to (length to) (length from))
  dist-IsLeast = record {
    reached =
        let whole = dist-IsReached from to (length to) (length from) (omega arith) (omega arith) in
        rw (take-length from, take-length to) at whole;
    least = λ m s.
        let zero_dist : dist from to 0 0 ≡ 0 = unfold dist in refl in
        omega (arith, zero_dist, dist-le-rest 0 0 (omega arith) (omega arith) refl refl s);
  }

-- Unless the texts are swapped, as a longer `from` of more than 498 bytes is, `edit_distn` gives
-- the distance wherever one of the two is at most MIN_DIST, and otherwise both are above it.
pub edit_distn-dist :
    (from to : Bytes)
    → (ltb (length to) (length from) && ltb str_len_threshold (length from)) ≡ false
    → min (suc min_dist) (edit_distn from to)
      ≡ min (suc min_dist) (dist from to (length to) (length from))
unfolding edit_distn dist
edit_distn-dist [] [] h = refl
edit_distn-dist [] (d ∷ to) h = ground arith
edit_distn-dist (c ∷ from) [] h = ground arith
edit_distn-dist (c ∷ from) (d ∷ to) h =
    let some_from : (suc (length from) == 0) ≡ false = ground arith in
    let some_to : (suc (length to) == 0) ≡ false = ground arith in
    rw (some_from, some_to, h) (fill-dist (c ∷ from) (d ∷ to) (length to) (length from) refl refl)

-- Unless the texts are swapped, as a longer `from` of more than 498 bytes is, `edit_distn` gives a
-- number up to MIN_DIST exactly when that is the least cost of turning `from` into `to` by
-- inserting, deleting and changing bytes and swapping adjacent ones, each at a cost of 1 and no byte
-- twice.
pub edit_distn-IsLeast :
    (from to : Bytes) (n : ℕ)
    → (ltb (length to) (length from) && ltb str_len_threshold (length from)) ≡ false
    → n ≤ min_dist
    → (edit_distn from to ≡ n) ↔ IsLeast from to n
edit_distn-IsLeast from to n h le =
    let same = edit_distn-dist from to h in
    let d = dist-IsLeast from to in
    (
      λ e. let found : dist from to (length to) (length from) ≡ n = omega arith in rw found at d,
      λ l. omega (arith, l.least _ d.reached, d.least n l.reached),
    )
