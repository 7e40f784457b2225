-- ===== src/NewsgroupOrder/Moves.antt =====
-- The operations on the order of the newsgroups (libtrn/ngdata.cpp), and its links.
use trn.Base.{
  ℕ, zero, suc, ◌+◌, ◌-◌, ◌≤◌, true, Option, none, some, List, [], ◌∷◌, ◌++◌, leb, ltb, ◌==◌,
  length, take, min, ◌≡◌, refl, sym, ◌∙◌, arith, Bool-cases, Option-cases, inl, inr, ==_iff,
}
use trn.Base.Int.{ℤ}
use trn.NewsgroupOrder.{
  NewsgroupOrder, first, last, last_of, sync_links, append, pop, renumber, take_out, target_pos,
  insert_at, move, sort, count, IsDistinct,
}
use mathlib.Core.Option.{none-ne-some, some-injective}
use trn.NewsgroupOrder.Chain.{IsChain, sync_loop-IsChain, append-IsChain}

pub record IsOrdered (ng : NewsgroupOrder) : Type 0 where
  pub distinct : IsDistinct ng.order
  pub begins : ng.first_newsgroup ≡ first ng.order
  pub ends : ng.last_newsgroup ≡ last ng.order
  pub linked : IsChain ng.links none ng.order

pub sync_links-IsOrdered : (ng : NewsgroupOrder) → IsDistinct ng.order → IsOrdered (sync_links ng)
unfolding sync_links
sync_links-IsOrdered ng distinct = record {
  distinct = distinct;
  begins = refl;
  ends = refl;
  linked = sync_loop-IsChain none ng.order ng.links distinct;
}

pub count-append : (x : ℕ) (a b : List ℕ) → count x (a ++ b) ≡ count x a + count x b
count-append x [] b = omega arith
count-append x (np ∷ a) b = omega (arith, count-append x a b)

last-some : (x : ℕ) (order : List ℕ) → (l : ℕ) × (last_of (some x) order ≡ some l)
last-some x [] = (x, refl)
last-some x (y ∷ order) = last-some y order

first-append :
    (order : List ℕ) (np : ℕ) (begin end : Option ℕ)
    → begin ≡ first order
    → end ≡ last order
    → elim end [ none ↦ some np | some l ↦ begin ] ≡ first (order ++ (np ∷ []))
first-append [] np begin end e f = rw f refl
first-append (x ∷ order) np begin end e f =
    let (l, g) = last-some x order in let back : end ≡ some l = f ∙ g in rw (back, e) refl

at_most_one : (a b : ℕ) → a ≤ b → leb b 1 ≡ true → leb a 1 ≡ true
at_most_one a b h e = ground arith

last-append : (prev : Option ℕ) (a : List ℕ) (np : ℕ) → last_of prev (a ++ (np ∷ [])) ≡ some np
last-append prev [] np = refl
last-append prev (x ∷ a) np = last-append (some x) a np

count-take : (x n : ℕ) (order : List ℕ) → count x (take n order) ≤ count x order
count-take x zero order = omega arith
count-take x (suc n) [] = omega arith
count-take x (suc n) (np ∷ order) = omega (arith, count-take x n order)

count-insert : (x i np : ℕ) (order : List ℕ) → count x (insert_at i np order) ≡ count x (np ∷ order)
count-insert x zero np order = refl
count-insert x (suc i) np [] = refl
count-insert x (suc i) np (y ∷ order) = omega (arith, count-insert x i np order)

take_out-count :
    (x np : ℕ) (order : List ℕ) {rest : List ℕ}
    → take_out np order ≡ some rest
    → count x order ≡ count x (np ∷ rest)
unfolding take_out
take_out-count x np [] {rest} e = absurd (none-ne-some _ e)
take_out-count x np (y ∷ order) {rest} e = elim (Bool-cases (y == np)) [
  | inl here ↦
      let same : y ≡ np = (==_iff y np).0 here in
      let left : order ≡ rest = some-injective _ _ (rw (here, take_out) at e) in
      rw (same, left) refl
  | inr there ↦ elim (Option-cases (take_out np order)) [
    | inl missing ↦ absurd (none-ne-some _ (rw (there, missing, take_out) at e))
    | inr (later, found) ↦
        let left : y ∷ later ≡ rest = some-injective _ _ (rw (there, found, take_out) at e) in
        let same = take_out-count x np order found in rw (sym left) (omega arith)
  ]
]

pub append-IsOrdered :
    (np : ℕ) (ng : NewsgroupOrder) → count np ng.order ≡ 0 → IsOrdered ng → IsOrdered (append np ng)
unfolding append
append-IsOrdered np ng fresh ordered = record {
  distinct = λ x.
      let here = ordered.distinct x in
      let parts = count-append x ng.order (np ∷ []) in
      elim (Bool-cases (x == np)) [
        | inl same ↦
            let e : x ≡ np = (==_iff x np).0 same in
            let none_yet : count x ng.order ≡ 0 = rw e fresh in ground arith
        | inr other ↦ ground arith
      ];
  begins =
      first-append ng.order np ng.first_newsgroup ng.last_newsgroup ordered.begins ordered.ends;
  ends = sym (last-append none ng.order np);
  linked =
      rw ordered.ends
        (append-IsChain np none ng.order ng.links ordered.distinct fresh refl ordered.linked);
}

pub pop-IsOrdered : (ng : NewsgroupOrder) → IsOrdered ng → IsOrdered (pop ng)
unfolding pop
pop-IsOrdered ng ordered = elim (Option-cases (last ng.order)) [
  | inl empty ↦ rw (empty, pop) ordered
  | inr (np, back) ↦
      rw (back, pop)
        (sync_links-IsOrdered _
          (λ x. at_most_one _ _ (count-take x (length ng.order - 1) ng.order) (ordered.distinct x)))
]

renumber-IsOrdered : (ng : NewsgroupOrder) → IsOrdered ng → IsOrdered (renumber ng)
unfolding renumber
renumber-IsOrdered ng ordered = record {
  distinct = ordered.distinct;
  begins = ordered.begins;
  ends = ordered.ends;
  linked = ordered.linked;
}

pub move-IsOrdered :
    (np : ℕ) (newnum : ℤ) (ng : NewsgroupOrder) → IsOrdered ng → IsOrdered (move np newnum ng).1
unfolding move
move-IsOrdered np newnum ng ordered = elim (Option-cases (take_out np ng.order)) [
  | inl missing ↦ rw (missing, move) ordered
  | inr (rest, found) ↦
      rw (found, move)
        (renumber-IsOrdered _ (
          sync_links-IsOrdered _ (λ x.
            let here = ordered.distinct x in
            let same = take_out-count x np ng.order found in
            let put_in = count-insert x (min (target_pos newnum) (length rest)) np rest in
            ground arith)))
]

pub sort-IsOrdered :
    (sorted : List ℕ → List ℕ) (ng : NewsgroupOrder)
    → ((x : ℕ) (order : List ℕ) → count x (sorted order) ≡ count x order)
    → IsOrdered ng
    → IsOrdered (sort sorted ng)
unfolding sort
sort-IsOrdered sorted ng permutes ordered = elim (Bool-cases (ltb (length ng.order) 2)) [
  | inl short ↦ rw short ordered
  | inr long ↦ rw long (
      sync_links-IsOrdered _
        (λ x. let here = ordered.distinct x in let same = permutes x ng.order in ground arith))
]

-- No operation but `append` brings a group.
pub pop-count : (x : ℕ) (ng : NewsgroupOrder) → count x (pop ng).order ≤ count x ng.order
unfolding pop sync_links
pop-count x ng = elim (Option-cases (last ng.order)) [
  | inl empty ↦ rw (empty, pop) (omega arith)
  | inr (np, back) ↦ rw (back, pop) (count-take x (length ng.order - 1) ng.order)
]

pub move-count :
    (x np : ℕ) (newnum : ℤ) (ng : NewsgroupOrder)
    → count x (move np newnum ng).1.order ≡ count x ng.order
unfolding move renumber sync_links
move-count x np newnum ng = elim (Option-cases (take_out np ng.order)) [
  | inl missing ↦ rw (missing, move) refl
  | inr (rest, found) ↦
      let same = take_out-count x np ng.order found in
      let put_in = count-insert x (min (target_pos newnum) (length rest)) np rest in
      rw (found, move) (put_in ∙ sym same)
]

pub sort-count :
    (sorted : List ℕ → List ℕ) (x : ℕ) (ng : NewsgroupOrder)
    → ((y : ℕ) (order : List ℕ) → count y (sorted order) ≡ count y order)
    → count x (sort sorted ng).order ≡ count x ng.order
unfolding sort sync_links
sort-count sorted x ng permutes = elim (Bool-cases (ltb (length ng.order) 2)) [
  | inl short ↦ rw short refl
  | inr long ↦ rw long (permutes x ng.order)
]
