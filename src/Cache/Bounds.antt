-- ===== src/Cache/Bounds.antt =====
-- The bounds that traverse the article cache of libtrn/cache.cpp by number: `first`, `next`, `last`, `prev`.
use trn.Base.Int.{ℤ, ltb_ℤ, pos, article_before}
use trn.Base.{Option, not, All, ℕ, suc, ◌≤◌, ◌<◌, true, ◌≡◌, refl, none, some, [], ◌∷◌, arith}
use trn.Cache.{
  last, prev, before_upper_bound, before_lower_bound, Article, Articles, IsAbove, IsOrdered, find,
  unread, was_read, first, next,
}

find-below : (l : Articles) (k an : ℕ) → IsAbove k l → an ≤ k → find l an ≡ none
unfolding find
find-below [] k an v h = refl
find-below (a ∷ l) k an v h = ground (arith, find-below l a.num an)

-- An article that is not in the map was read.
was_read-missing : (l : Articles) (an : ℕ) → find l an ≡ none → was_read l an ≡ true
unfolding was_read
was_read-missing l an h = ground arith

IsAbove-IsOrdered : (k : ℕ) (l : Articles) → IsAbove k l → IsOrdered l
IsAbove-IsOrdered k [] v = tt
IsAbove-IsOrdered k (a ∷ l) v = v.1

find-first :
    (l : Articles) (last an j : ℕ)
    → IsOrdered l
    → an ≤ j
    → j < first l last an
    → j ≤ last
    → find l j ≡ none
unfolding first find
find-first [] last an j v h b e = refl
find-first (a ∷ l) last an j v h b e =
    ground (arith, find-below l a.num j v, find-first l last an j (IsAbove-IsOrdered a.num l v) h)

find-next :
    (l : Articles) (last an j : ℕ)
    → IsOrdered l
    → an < j
    → j < next l last an
    → j ≤ last
    → find l j ≡ none
unfolding next find
find-next [] last an j v h b e = refl
find-next (a ∷ l) last an j v h b e =
    ground (arith, find-below l a.num j v, find-next l last an j (IsAbove-IsOrdered a.num l v) h)

-- Each article from `an` up to the one that `first` finds was read.
pub was_read-first :
    (l : Articles) (last an j : ℕ)
    → IsOrdered l
    → an ≤ j
    → j < first l last an
    → j ≤ last
    → was_read l j ≡ true
was_read-first l last an j v h b e = was_read-missing l j (find-first l last an j v h b e)

-- Each article between `an` and the one that `next` finds was read.
pub was_read-next :
    (l : Articles) (last an j : ℕ)
    → IsOrdered l
    → an < j
    → j < next l last an
    → j ≤ last
    → was_read l j ≡ true
was_read-next l last an j v h b e = was_read-missing l j (find-next l last an j v h b e)

pub first-le : (l : Articles) (last an : ℕ) → an ≤ suc last → an ≤ first l last an
unfolding first
first-le [] last an h = h
first-le (a ∷ l) last an h = ground (arith, first-le l last an)

-- `next` moves on.
pub next-lt : (l : Articles) (last an : ℕ) → an ≤ last → an < next l last an
unfolding next
next-lt [] last an h = omega arith
next-lt (a ∷ l) last an h = ground (arith, next-lt l last an)

-- Of an article that is not in the map `unread` is false.
pub was_read-unread : (l : Articles) (an : ℕ) → was_read l an ≡ not (unread l an)
unfolding was_read
was_read-unread l an = ground arith

-- With every key at most `m`, so is what `first` and `next` find.
pub first-fits :
    (l : Articles) (last an m : ℕ)
    → suc last ≤ m
    → All (λ (a : Article). a.num ≤ m) l
    → first l last an ≤ m
unfolding first
first-fits [] last an m h v = h
first-fits (a ∷ l) last an m h v = ground (arith, first-fits l last an m h)

pub next-fits :
    (l : Articles) (last an m : ℕ)
    → suc last ≤ m
    → All (λ (a : Article). a.num ≤ m) l
    → next l last an ≤ m
unfolding next
next-fits [] last an m h v = h
next-fits (a ∷ l) last an m h v = ground (arith, next-fits l last an m h)

-- The key found, or the bound of all keys.
abbrev floor : ℕ → Option ℕ → ℕ
floor k o = elim o [ none ↦ k | some n ↦ n ]

upper-ge : (l : Articles) (k an : ℕ) → IsAbove k l → k ≤ floor k (before_upper_bound l an)
unfolding before_upper_bound
upper-ge [] k an v = omega arith
upper-ge (a ∷ l) k an v = ground (arith, upper-ge l a.num an v.1, v.0)

lower-ge : (l : Articles) (k an : ℕ) → IsAbove k l → k ≤ floor k (before_lower_bound l an)
unfolding before_lower_bound
lower-ge [] k an v = omega arith
lower-ge (a ∷ l) k an v = ground (arith, lower-ge l a.num an v.1, v.0)

find-last :
    (l : Articles) (k an j : ℕ)
    → IsAbove k l
    → j ≤ an
    → floor k (before_upper_bound l an) < j
    → find l j ≡ none
unfolding before_upper_bound find
find-last [] k an j v b h = refl
find-last (a ∷ l) k an j v b h =
    ground (arith, find-below l a.num j v.1, find-last l a.num an j v.1 b, upper-ge l a.num an v.1)

find-prev :
    (l : Articles) (k an j : ℕ)
    → IsAbove k l
    → j < an
    → floor k (before_lower_bound l an) < j
    → find l j ≡ none
unfolding before_lower_bound find
find-prev [] k an j v b h = refl
find-prev (a ∷ l) k an j v b h =
    ground (arith, find-below l a.num j v.1, find-prev l a.num an j v.1 b, lower-ge l a.num an v.1)

-- The key that `last` and `prev` find, as a bound of the numbers above it.
floor-lt :
    (o : Option ℕ) (below : ℤ) (j : ℕ)
    → 0 < j
    → ltb_ℤ (elim o [ none ↦ below | some n ↦ pos n ]) (pos j) ≡ true
    → floor 0 o < j
floor-lt none below j b h = b
floor-lt (some n) below j b h = ground arith

-- Each article above the one that `last` finds, up to `an`, was read.
was_read-last :
    (l : Articles) (abs_first an j : ℕ)
    → IsAbove 0 l
    → 0 < j
    → j ≤ an
    → ltb_ℤ (last l abs_first an) (pos j) ≡ true
    → was_read l j ≡ true
unfolding last
was_read-last l abs_first an j v b high h = was_read-missing l j (
    find-last l 0 an j v high
      (floor-lt (before_upper_bound l an) (article_before (pos abs_first)) j b h))

-- Each article between `an` and the one that `prev` finds was read.
was_read-prev :
    (l : Articles) (abs_first an j : ℕ)
    → IsAbove 0 l
    → 0 < j
    → j < an
    → ltb_ℤ (prev l abs_first an) (pos j) ≡ true
    → was_read l j ≡ true
unfolding prev
was_read-prev l abs_first an j v b high h = was_read-missing l j (
    find-prev l 0 an j v high
      (floor-lt (before_lower_bound l an) (article_before (pos abs_first)) j b h))
