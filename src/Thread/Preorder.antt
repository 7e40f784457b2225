-- ===== src/Thread/Preorder.antt =====
-- The articles of a thread in preorder, and `bump_article` of libtrn/Article.cpp.
use trn.Base.{
  ℕ, zero, suc, ◌+◌, ◌≤◌, true, Option, none, some, List, [], ◌∷◌, ◌++◌, ◌≡◌, refl, ap, arith,
}
use trn.Base.Int.{ℤ, pos, negsuc}
use trn.Thread.{Links, deeper, higher, climb, bump_article}

-- An article with its replies and the articles beside it.
pub data Forest : Type 0 where
  no_article : Forest
  article : ℕ → Forest → Forest → Forest

abbrev pub root : Forest → Option ℕ
root Forest.no_article = none
root (Forest.article ap replies beside) = some ap

-- The links hold the forest under a parent.
abbrev pub IsStored : Links → Option ℕ → Forest → Type 0
IsStored links parent Forest.no_article = Unit
IsStored links parent (Forest.article ap replies beside) =
    (links.m_child1 ap ≡ root replies)
    × (links.m_sibling ap ≡ root beside)
    × (links.m_parent ap ≡ parent)
    × IsStored links (some ap) replies
    × IsStored links parent beside

-- The number of articles.
abbrev pub size : Forest → ℕ
size Forest.no_article = 0
size (Forest.article ap replies beside) = suc (size replies) + size beside

-- Depth first, each article with its depth.
abbrev pub preorder : ℤ → Forest → List (ℕ × ℤ)
preorder depth Forest.no_article = []
preorder depth (Forest.article ap replies beside) =
    (ap, depth) ∷ (preorder (deeper depth) replies ++ preorder depth beside)

-- From a start, `bump_article` visits these articles at these depths and comes to an end.
abbrev pub Visits : ℕ → Links → Option ℕ × ℤ → List (ℕ × ℤ) → Option ℕ × ℤ → Type 0
Visits f links start [] end = start ≡ end
Visits f links start ((ap, depth) ∷ aps) end =
    (start ≡ (some ap, depth)) × Visits f links (bump_article f links depth true ap) aps end

Visits-append :
    (f : ℕ) (links : Links) (a b : List (ℕ × ℤ)) (start middle end : Option ℕ × ℤ)
    → Visits f links start a middle
    → Visits f links middle b end
    → Visits f links start (a ++ b) end
Visits-append f links [] b start middle end u v = rw u v
Visits-append f links ((ap, depth) ∷ a) b start middle end (here, u) v =
    (here, Visits-append f links a b (bump_article f links depth true ap) middle end u v)

-- Behind the last article under a parent.
after : ℕ → Links → ℤ → Option ℕ → Option ℕ × ℤ
after f links depth none = (none, depth)
after f links depth (some ap) = climb f links depth ap

-- Where a forest begins, or what stands behind it.
abbrev begin : ℤ → Forest → Option ℕ × ℤ → Option ℕ × ℤ
begin depth Forest.no_article rest = rest
begin depth (Forest.article ap replies beside) rest = (some ap, depth)

higher-deeper : (depth : ℤ) → higher (deeper depth) ≡ depth
higher-deeper (pos n) = refl
higher-deeper (negsuc zero) = refl
higher-deeper (negsuc (suc n)) = refl

climb-begin :
    (f : ℕ) (links : Links) (depth : ℤ) (ap : ℕ) (parent : Option ℕ) (beside : Forest)
    (rest : Option ℕ × ℤ)
    → links.m_sibling ap ≡ root beside
    → links.m_parent ap ≡ parent
    → after f links (higher depth) parent ≡ rest
    → climb (suc f) links depth ap ≡ begin depth beside rest
unfolding climb after
climb-begin f links depth ap none Forest.no_article rest s p e = rw (s, p, climb) e
climb-begin f links depth ap (some q) Forest.no_article rest s p e = rw (s, p, climb) e
climb-begin f links depth ap parent (Forest.article next a b) rest s p e = rw (s, climb) refl

bump-begin :
    (f : ℕ) (links : Links) (depth : ℤ) (ap : ℕ) (replies : Forest) (rest : Option ℕ × ℤ)
    → links.m_child1 ap ≡ root replies
    → climb f links depth ap ≡ rest
    → bump_article f links depth true ap ≡ begin (deeper depth) replies rest
unfolding bump_article
bump-begin f links depth ap Forest.no_article rest c e = rw (c, bump_article) e
bump-begin f links depth ap (Forest.article next a b) rest c e = rw (c, bump_article) refl

-- The climb from an article, with fuel for the way up.
climb_back :
    (k : ℕ) (links : Links) (depth : ℤ) (ap : ℕ) (parent : Option ℕ) (beside : Forest)
    (rest : Option ℕ × ℤ)
    → links.m_sibling ap ≡ root beside
    → links.m_parent ap ≡ parent
    → ((m : ℕ) → k ≤ m → after m links (higher depth) parent ≡ rest)
    → (m : ℕ) → suc k ≤ m
    → climb m links depth ap ≡ begin depth beside rest
climb_back k links depth ap parent beside rest s p up zero h = absurd (omega arith)
climb_back k links depth ap parent beside rest s p up (suc m) h =
    climb-begin m links depth ap parent beside rest s p (up m (omega arith))

visit :
    (f k : ℕ) (links : Links) (depth : ℤ) (parent : Option ℕ) (forest : Forest)
    (rest : Option ℕ × ℤ)
    → IsStored links parent forest
    → ((m : ℕ) → k ≤ m → after m links (higher depth) parent ≡ rest)
    → k + size forest ≤ f
    → Visits f links (begin depth forest rest) (preorder depth forest) rest
unfolding after
visit f k links depth parent Forest.no_article rest stored up enough = refl
visit f k links depth parent (Forest.article ap replies beside) rest (c, s, p, below, stored) up
      enough =
    let next = begin depth beside rest in
    let back = climb_back k links depth ap parent beside rest s p up in
    let under : (m : ℕ) → suc k ≤ m → climb m links (higher (deeper depth)) ap ≡ next =
      λ m h. rw (higher-deeper depth) (back m h) in
    (
      refl,
      rw (bump-begin f links depth ap replies next c (back f (omega arith))) (
          Visits-append f links (preorder (deeper depth) replies) (preorder depth beside)
            (begin (deeper depth) replies next) next rest
            (visit f (suc k) links (deeper depth) (some ap) replies next below under (omega arith))
            (visit f k links depth parent beside rest stored up (omega arith))),
    )

-- Where the links hold a thread, `bump_article` goes from its root through all its articles depth
-- first, each before its replies and these before the articles beside it, keeps their depths, and
-- ends behind the last. The number of the articles is fuel enough.
pub bump_article-preorder :
    (f : ℕ) (links : Links) (ap : ℕ) (replies beside : Forest)
    → IsStored links none (Forest.article ap replies beside)
    → size (Forest.article ap replies beside) ≤ f
    → Visits f links
        (some ap, pos 0)
        (preorder (pos 0) (Forest.article ap replies beside))
        (none, negsuc 0)
unfolding after
bump_article-preorder f links ap replies beside stored enough =
    visit f 0 links (pos 0) none (Forest.article ap replies beside) (none, negsuc 0) stored
      (λ m h. refl) (omega arith)
