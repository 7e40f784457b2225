-- ===== src/EditDistance/Ring.antt =====
-- The buffer of `edit_distn` as a history: what was written `k` writes ago, for fewer than `radix`.
use native.Mathlib.Nat.{mod-eq_of_lt, mod-eq-sub-mod}
use trn.Base.{
  ℕ, zero, suc, ◌+◌, ◌-◌, ◌<◌, ◌%◌, ◌==◌, if◌then◌else◌, List, [], ◌∷◌, length, arith, ◌≡◌, refl,
  Bool-cases, inl, inr, ltb, ◌∙◌,
}
use trn.EditDistance.{at}
use trn.Hash.{update_at}

pub at-cons_zero : (v : ℕ) (s : List ℕ) → at (v ∷ s) 0 ≡ v
unfolding at
at-cons_zero v s = refl

pub at-cons_suc : (v : ℕ) (s : List ℕ) (i : ℕ) → at (v ∷ s) (suc i) ≡ at s i
unfolding at
at-cons_suc v s i = refl

pub at-update_at :
    (s : List ℕ) (i j v : ℕ)
    → i < length s
    → at (update_at i (λ _. v) s) j ≡ (if j == i then v else at s j)
unfolding update_at
at-update_at [] i j v h = absurd (omega arith)
at-update_at (x ∷ s) zero zero v h = at-cons_zero v s
at-update_at (x ∷ s) zero (suc j) v h = ground (arith, at-cons_suc v s j, at-cons_suc x s j)
at-update_at (x ∷ s) (suc i) zero v h =
    ground (arith, at-cons_zero x (update_at i (λ _. v) s), at-cons_zero x s)
at-update_at (x ∷ s) (suc i) (suc j) v h =
    rw (at-cons_suc, at-cons_suc) (at-update_at s i j v (omega arith) ∙ ground arith)

pub length-update_at : (s : List ℕ) (i v : ℕ) → length (update_at i (λ _. v) s) ≡ length s
unfolding update_at
length-update_at [] i v = refl
length-update_at (x ∷ s) zero v = refl
length-update_at (x ∷ s) (suc i) v = omega (arith, length-update_at s i v)

-- An index below twice the radix.
mod-once : (i r : ℕ) → i < r + r → i % r ≡ (if ltb i r then i else i - r)
mod-once i r h = elim (Bool-cases (ltb i r)) [
  | inl below ↦ rw below (mod-eq_of_lt (ground arith))
  | inr above ↦
      rw above (mod-eq-sub-mod {n = i} {m = r} (ground arith) ∙ mod-eq_of_lt (ground arith))
]

pub record IsRing (r : ℕ) (buffer : List ℕ) (index : ℕ) (past : List ℕ) : Type 0 where
  pub size : length buffer ≡ r
  pub inside : index < r
  pub holds : (k : ℕ) → k < r → k < length past → at buffer ((index + r - 1 - k) % r) ≡ at past k

abbrev pub back : ℕ → ℕ → ℕ → ℕ
back r index k = if ltb k index then index - 1 - k else index + r - 1 - k

pub mod-back : (r index k : ℕ) → index < r → k < r → (index + r - 1 - k) % r ≡ back r index k
mod-back r index k h l = mod-once (index + r - 1 - k) r (omega arith) ∙ ground arith

mod-suc : (r index : ℕ) → index < r → suc index % r ≡ (if suc index == r then 0 else suc index)
mod-suc r index h = mod-once (suc index) r (omega arith) ∙ ground arith

-- A write at the index moves the history on by one.
pub write-IsRing :
    (r v : ℕ) (buffer : List ℕ) (index : ℕ) (past : List ℕ)
    → IsRing r buffer index past
    → IsRing r (update_at index (λ _. v) buffer) (suc index % r) (v ∷ past)
write-IsRing r v buffer index past ring = record {
  size = length-update_at buffer index v ∙ ring.size;
  inside = inside;
  holds = moved;
}
  where
    inside : suc index % r < r
    inside = rw (mod-suc r index ring.inside) (ground (arith, ring.inside))

    moved :
        (k : ℕ)
        → k < r
        → k < suc (length past)
        → at (update_at index (λ _. v) buffer) ((suc index % r + r - 1 - k) % r) ≡ at (v ∷ past) k
    moved zero l m =
        rw
          (
            mod-back r (suc index % r) 0 inside l,
            at-update_at buffer index (back r (suc index % r) 0) v
                (omega (arith, ring.size, ring.inside)),
            mod-suc r index ring.inside,
            at-cons_zero,
          )
          (ground (arith, ring.inside))
    moved (suc k) l m =
        rw
          (
            mod-back r (suc index % r) (suc k) inside l,
            at-update_at buffer index (back r (suc index % r) (suc k)) v
                (omega (arith, ring.size, ring.inside)),
            mod-suc r index ring.inside,
            at-cons_suc,
          )
          (ground (
            arith,
            ring.inside,
            rw (mod-back r index k ring.inside (omega arith)) at
                (ring.holds k (omega arith) (omega arith)),
          ))
