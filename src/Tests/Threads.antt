-- ===== src/Tests/Threads.antt =====
-- A walk through a small thread.
use trn.Base.{none, some, ◌==◌, if◌then◌else◌, refl, arith}
use trn.Base.Int.{pos, negsuc}
use trn.Thread.{Links}
use trn.Thread.Preorder.{Forest, IsStored, Visits, preorder, bump_article-preorder}

-- Article 1 has the replies 2 and 4, and 2 has the reply 3.
abbrev links : Links
links = record {
  m_parent = λ ap. if ap == 1 then none else if ap == 3 then some 2 else some 1;
  m_child1 = λ ap. if ap == 1 then some 2 else if ap == 2 then some 3 else none;
  m_sibling = λ ap. if ap == 2 then some 4 else none;
}

abbrev replies : Forest
replies =
    Forest.article 2 (Forest.article 3 Forest.no_article Forest.no_article)
      (Forest.article 4 Forest.no_article Forest.no_article)

stored : IsStored links none (Forest.article 1 replies Forest.no_article)
stored = (
  refl,
  refl,
  refl,
  (refl, refl, refl, (refl, refl, refl, tt, tt), (refl, refl, refl, tt, tt)),
  tt,
)

bump_article-preorder_example :
    Visits 4 links
      (some 1, pos 0)
      (preorder (pos 0) (Forest.article 1 replies Forest.no_article))
      (none, negsuc 0)
bump_article-preorder_example =
    bump_article-preorder 4 links 1 replies Forest.no_article stored (ground arith)
