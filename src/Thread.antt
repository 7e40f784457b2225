-- ===== src/Thread.antt =====
-- The steps through the tree of a thread: `Article::bump_article` of libtrn/Article.cpp. An article is
-- a number that stands for its address.
pub mod Preorder
use trn.Base.{ℕ, zero, suc, Bool, true, false, Option, none, some, if◌then◌else◌}
use trn.Base.Int.{ℤ, pos, negsuc}

-- The links of all articles.
pub record Links : Type 0 where
  pub m_parent : ℕ → Option ℕ
  pub m_child1 : ℕ → Option ℕ
  pub m_sibling : ℕ → Option ℕ

-- `++depth` and `--depth`
abbrev pub deeper : ℤ → ℤ
deeper (pos n) = pos (suc n)
deeper (negsuc zero) = pos 0
deeper (negsuc (suc n)) = negsuc n

abbrev pub higher : ℤ → ℤ
higher (pos zero) = negsuc 0
higher (pos (suc n)) = pos n
higher (negsuc n) = negsuc (suc n)

-- The loop of `bump_article`: up to an article with a sibling. Each round goes up a level.
unfoldable pub climb : ℕ → Links → ℤ → ℕ → Option ℕ × ℤ
climb zero links depth ap = (none, depth)
climb (suc f) links depth ap =
    let up : Option ℕ × ℤ = elim (links.m_parent ap) [
      | none ↦ (none, higher depth)
      | some parent ↦ climb f links (higher depth) parent
    ] in
    elim (links.m_sibling ap) [ none ↦ up | some sibling ↦ (some sibling, depth) ]

-- The next article and its depth.
unfoldable pub bump_article : ℕ → Links → ℤ → Bool → ℕ → Option ℕ × ℤ
bump_article f links depth descend ap =
    let below : Option ℕ × ℤ = elim (links.m_child1 ap) [
      | none ↦ climb f links depth ap
      | some child ↦ (some child, deeper depth)
    ] in
    if descend then below else climb f links depth ap
