-- ===== src/Text/Find.antt =====
-- A search by offset beside a scan of the rest of the text.
use trn.Base.{
  ℕ, zero, suc, ◌+◌, Bool, not, ◌≡◌, refl, ◌∙◌, ap, sym, none, some, List, [], ◌∷◌, Bytes,
  Option-cases, inl, inr, length, drop, arith,
}
use trn.Text.{skip_while, find_if, find_or_end}

pub drop-nil {ℓ} : {A : Type ℓ} (n : ℕ) → drop {A = A} n [] ≡ []
drop-nil zero = refl
drop-nil (suc n) = refl

pub drop-add {ℓ} : {A : Type ℓ} (m n : ℕ) (s : List A) → drop (m + n) s ≡ drop n (drop m s)
drop-add zero n s = ap (λ (k : ℕ). drop k s) (omega arith)
drop-add (suc m) n [] = drop-nil (suc m + n) ∙ sym (drop-nil n)
drop-add (suc m) n (x ∷ s) =
    let e : suc m + n ≡ suc (m + n) = omega arith in
    ap (λ (k : ℕ). drop k (x ∷ s)) e ∙ drop-add m n s

pub drop-length {ℓ} : {A : Type ℓ} (s : List A) → drop (length s) s ≡ []
drop-length [] = refl
drop-length (x ∷ s) = drop-length s

module _ (p q : ℕ → Bool) (complement : (c : ℕ) → q c ≡ not (p c)) where
  skip_while-find_none : (s : Bytes) → find_if q s ≡ none → skip_while p s ≡ []
  unfolding skip_while find_if
  skip_while-find_none [] h = refl
  skip_while-find_none (c ∷ s) h = ground (arith, complement c, skip_while-find_none s)

  drop-find_some : (s : Bytes) (n : ℕ) → find_if q s ≡ some n → drop n s ≡ skip_while p s
  unfolding skip_while find_if
  drop-find_some [] n h = cc
  drop-find_some (c ∷ s) zero h = ground (arith, complement c)
  drop-find_some (c ∷ s) (suc n) h = ground (arith, complement c, drop-find_some s n)

  pub drop-find_or_end :
      (off : ℕ) (s : Bytes) → drop (find_or_end q off s) s ≡ skip_while p (drop off s)
  unfolding find_or_end
  drop-find_or_end off s = elim (Option-cases (find_if q (drop off s))) [
    | inl missing ↦
        rw (missing, find_or_end) (drop-length s ∙ sym (skip_while-find_none (drop off s) missing))
    | inr (n, found) ↦
        rw (found, find_or_end) (drop-add off n s ∙ drop-find_some (drop off s) n found)
  ]
