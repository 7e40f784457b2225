-- ===== src/Cache.antt =====
-- The articles of the current group: `GroupArticleCache` of libtrn/include/trn/cache.h and
-- libtrn/cache.cpp. The map from numbers to articles is its list of entries, in ascending order of
-- number. Of an article the flags AF_UNREAD and AF_EXISTS occur here, and the bit that the
-- selector's mask picks out (`selected`).
pub mod Bounds
use trn.Base.Int.{ℤ, pos, article_before}
use trn.Base.{
  ℕ, suc, ◌<◌, Bool, true, false, not, ◌||◌, Option, none, some, List, [], ◌∷◌, ltb, leb, ◌==◌,
  if◌then◌else◌,
}

pub record Article : Type 0 where
  pub num : ℕ
  pub unread : Bool
  pub exists : Bool
  pub selected : Bool

abbrev pub Articles : Type 0
Articles = List Article

-- The entries of a `std::map` ascend, and no key occurs twice: each key is above `k`.
abbrev pub IsAbove : ℕ → Articles → Type 0
IsAbove k [] = Unit
IsAbove k (a ∷ l) = (k < a.num) × IsAbove a.num l

abbrev pub IsOrdered : Articles → Type 0
IsOrdered [] = Unit
IsOrdered (a ∷ l) = IsAbove a.num l

-- `article_list.find(an)`
unfoldable pub find : Articles → ℕ → Option Article
find [] an = none
find (a ∷ l) an = if a.num == an then some a else find l an

unfoldable pub has_data : Articles → ℕ → Bool
unfolding find
has_data l an = elim (find l an) [ none ↦ false | some a ↦ true ]

-- `ptr` would enter a missing article with no flag set, so it counts as not unread.
unfoldable pub unread : Articles → ℕ → Bool
unfolding find
unread l an = elim (find l an) [ none ↦ false | some a ↦ a.unread ]

unfoldable pub was_read : Articles → ℕ → Bool
unfolding has_data unread
was_read l an = not (has_data l an) || not (unread l an)

-- `lower_bound(an)` and `upper_bound(an)`: the first key that is not below, or above, the number.
unfoldable pub lower_bound : Articles → ℕ → Option ℕ
lower_bound [] an = none
lower_bound (a ∷ l) an = if leb an a.num then some a.num else lower_bound l an

unfoldable pub upper_bound : Articles → ℕ → Option ℕ
upper_bound [] an = none
upper_bound (a ∷ l) an = if ltb an a.num then some a.num else upper_bound l an

-- `last_art` is `g_last_art`.
unfoldable pub first : Articles → ℕ → ℕ → ℕ
unfolding lower_bound
first l last_art an = elim (lower_bound l an) [ none ↦ suc last_art | some n ↦ n ]

unfoldable pub next : Articles → ℕ → ℕ → ℕ
unfolding upper_bound
next l last_art an = elim (upper_bound l an) [ none ↦ suc last_art | some n ↦ n ]

-- The entry before `upper_bound(an)`, or before `lower_bound(an)`: the greatest key up to the number,
-- or below it.
unfoldable pub before_upper_bound : Articles → ℕ → Option ℕ
before_upper_bound [] an = none
before_upper_bound (a ∷ l) an =
    let later : ℕ = elim (before_upper_bound l an) [ none ↦ a.num | some n ↦ n ] in
    if ltb an a.num then none else some later

unfoldable pub before_lower_bound : Articles → ℕ → Option ℕ
before_lower_bound [] an = none
before_lower_bound (a ∷ l) an =
    let later : ℕ = elim (before_lower_bound l an) [ none ↦ a.num | some n ↦ n ] in
    if leb an a.num then none else some later

-- `abs_first` is `g_abs_first`.
unfoldable pub last : Articles → ℕ → ℕ → ℤ
unfolding before_upper_bound
last l abs_first an = elim (before_upper_bound l an) [
  | none ↦ article_before (pos abs_first)
  | some n ↦ pos n
]

unfoldable pub prev : Articles → ℕ → ℕ → ℤ
unfolding before_lower_bound
prev l abs_first an = elim (before_lower_bound l an) [
  | none ↦ article_before (pos abs_first)
  | some n ↦ pos n
]
