-- ===== src/NewsgroupOrder/Chain.antt =====
-- The links of the order of the newsgroups (libtrn/ngdata.cpp).
use trn.Base.{
  ℕ, Bool, false, Option, none, some, List, [], ◌∷◌, ◌++◌, ◌==◌, ◌≡◌, refl, ◌∙◌, arith, ==_refl,
}
use trn.NewsgroupOrder.{Links, assign, assign_if, first, last_of, sync_loop, count, IsDistinct}

-- A pointer to a group.
abbrev points : Option ℕ → ℕ → Bool
points none x = false
points (some p) x = x == p

abbrev pub IsChain : Links → Option ℕ → List ℕ → Type 0
IsChain links prev [] = Unit
IsChain links prev (np ∷ order) =
    (links.m_prev np ≡ prev) × (links.m_next np ≡ first order) × IsChain links (some np) order

sync-m_prev :
    (x : ℕ) (prev : Option ℕ) (order : List ℕ) (links : Links)
    → count x order ≡ 0
    → (sync_loop prev order links).m_prev x ≡ links.m_prev x
unfolding sync_loop
sync-m_prev x prev [] links h = refl
sync-m_prev x prev (np ∷ order) links h =
    let other : (x == np) ≡ false = ground arith in
    sync-m_prev x (some np) order _ (ground arith) ∙ rw other refl

assign_if-other :
    (p : Option ℕ) (v : Option ℕ) (field : ℕ → Option ℕ) (x : ℕ)
    → points p x ≡ false
    → assign_if p v field x ≡ field x
assign_if-other none v field x h = refl
assign_if-other (some p) v field x h = rw h refl

sync-m_next :
    (x : ℕ) (prev : Option ℕ) (order : List ℕ) (links : Links)
    → count x order ≡ 0
    → points prev x ≡ false
    → (sync_loop prev order links).m_next x ≡ links.m_next x
unfolding sync_loop
sync-m_next x prev [] links h past = assign_if-other prev none links.m_next x past
sync-m_next x prev (np ∷ order) links h past =
    let other : (x == np) ≡ false = ground arith in
    sync-m_next x (some np) order _ (ground arith) other
    ∙ assign_if-other prev (some np) links.m_next x past

sync-first :
    (p : ℕ) (order : List ℕ) (links : Links)
    → count p order ≡ 0
    → (sync_loop (some p) order links).m_next p ≡ first order
unfolding sync_loop
sync-first p [] links h = rw (==_refl p) refl
sync-first p (np ∷ order) links h =
    let other : (p == np) ≡ false = ground arith in
    sync-m_next p (some np) order _ (ground arith) other ∙ rw (==_refl p) refl

pub IsDistinct-head : (np : ℕ) (order : List ℕ) → IsDistinct (np ∷ order) → count np order ≡ 0
IsDistinct-head np order distinct = let here = distinct np in ground (arith, ==_refl np)

pub IsDistinct-tail : (np : ℕ) (order : List ℕ) → IsDistinct (np ∷ order) → IsDistinct order
IsDistinct-tail np order distinct = λ x. let here = distinct x in ground arith

pub sync_loop-IsChain :
    (prev : Option ℕ) (order : List ℕ) (links : Links)
    → IsDistinct order
    → IsChain (sync_loop prev order links) prev order
unfolding sync_loop
sync_loop-IsChain prev [] links distinct = tt
sync_loop-IsChain prev (np ∷ order) links distinct =
    let fresh = IsDistinct-head np order distinct in
    (
      sync-m_prev np (some np) order _ fresh ∙ rw (==_refl np) refl,
      sync-first np order _ fresh,
      sync_loop-IsChain (some np) order _ (IsDistinct-tail np order distinct),
    )

-- A group behind the last one.
abbrev pub appended : ℕ → Option ℕ → Links → Links
appended np end links = record {
  m_prev = assign np end links.m_prev;
  m_next = assign_if end (some np) (assign np none links.m_next);
}

last_of-points :
    (x : ℕ) (prev : Option ℕ) (order : List ℕ)
    → count x order ≡ 0
    → points prev x ≡ false
    → points (last_of prev order) x ≡ false
last_of-points x prev [] h past = past
last_of-points x prev (np ∷ order) h past =
    last_of-points x (some np) order (ground arith) (ground arith)

pub append-IsChain :
    (np : ℕ) (prev : Option ℕ) (order : List ℕ) (links : Links)
    → IsDistinct order
    → count np order ≡ 0
    → points prev np ≡ false
    → IsChain links prev order
    → IsChain (appended np (last_of prev order) links) prev (order ++ (np ∷ []))
append-IsChain np prev [] links distinct fresh past chain =
    (rw (==_refl np) refl, assign_if-other prev (some np) _ np past ∙ rw (==_refl np) refl, tt)
append-IsChain np prev (x ∷ []) links distinct fresh past (here, next, chain) =
    let other : (x == np) ≡ false = ground arith in
    (
      rw other here,
      rw (==_refl x) refl,
      append-IsChain np (some x) [] links (IsDistinct-tail x [] distinct) refl (ground arith) tt,
    )
append-IsChain np prev (x ∷ y ∷ order) links distinct fresh past (here, next, chain) =
    let other : (x == np) ≡ false = ground arith in
    let none_left = IsDistinct-head x (y ∷ order) distinct in
    let past_x = last_of-points x (some y) order (ground arith) (ground arith) in
    (
      rw other here,
      assign_if-other (last_of (some y) order) (some np) _ x past_x ∙ rw other next,
      append-IsChain np (some x) (y ∷ order) links (IsDistinct-tail x (y ∷ order) distinct)
          (ground arith) (ground arith) chain,
    )
