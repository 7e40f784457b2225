-- ===== src/ScanOrder/Places.antt =====
-- Writes to the places of `ent_sort`, counted from 1, and what they keep.
use trn.Base.{
  ℕ, zero, suc, ◌+◌, ◌-◌, ◌≤◌, ◌<◌, ◌==◌, if◌then◌else◌, List, [], ◌∷◌, length, arith, ◌≡◌, ◌∙◌,
}
use trn.EditDistance.Ring.{at-update_at, length-update_at, at-cons_zero, at-cons_suc}
use trn.EditDistance.{at}
use trn.Hash.{update_at}
use trn.NewsgroupOrder.{count}
use trn.ScanOrder.{entry, put}

pub entry-put :
    (s : List ℕ) (i c v : ℕ)
    → 1 ≤ i
    → i ≤ length s
    → 1 ≤ c
    → entry (put i v s) c ≡ (if c == i then v else entry s c)
unfolding entry put
entry-put s i c v one inside pos = at-update_at s (i - 1) (c - 1) v (omega arith) ∙ ground arith

pub length-put : (s : List ℕ) (i v : ℕ) → length (put i v s) ≡ length s
unfolding put
length-put s i v = length-update_at s (i - 1) v

-- How often a write takes an entry away or brings it.
abbrev pub one_if_equal : ℕ → ℕ → ℕ
one_if_equal x y = if x == y then 1 else 0

count-update_at :
    (x v : ℕ) (s : List ℕ) (i : ℕ)
    → i < length s
    → count x (update_at i (λ _. v) s) + one_if_equal x (at s i) ≡ count x s + one_if_equal x v
unfolding update_at
count-update_at x v [] i h = absurd (omega arith)
count-update_at x v (y ∷ s) zero h = rw (at-cons_zero) (omega arith)
count-update_at x v (y ∷ s) (suc i) h =
    rw (at-cons_suc) (omega (arith, count-update_at x v s i (omega arith)))

pub count-put :
    (x v : ℕ) (s : List ℕ) (i : ℕ)
    → 1 ≤ i
    → i ≤ length s
    → count x (put i v s) + one_if_equal x (entry s i) ≡ count x s + one_if_equal x v
unfolding put entry
count-put x v s i one inside = count-update_at x v s (i - 1) (omega arith)
