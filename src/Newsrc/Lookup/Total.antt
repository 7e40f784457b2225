-- ===== src/Newsrc/Lookup/Total.antt =====
-- `was_read_group` of libtrn/rcln.cpp on any text, and its fuel.
use trn.Base.{
  ℕ, zero, suc, ◌≤◌, ◌<◌, Bool, true, not, ◌≡◌, Option, none, some, [], ◌∷◌, Bytes, Bool-cases, inl,
  inr, length, arith,
}
use trn.Base.Int.{ℤ}
use trn.Text.{is_digit, front_is, remove_one, skip_while, skip_eq, skip_digits, skip_non_digits}
use trn.Newsrc.{NewsgroupData, rc_numbers}
use trn.Newsrc.Lookup.{was_read_loop, was_read_group}

-- A result was produced.
abbrev pub Returns {ℓ} : {A : Type ℓ} → Option A → Type 0
Returns none = ⊥
Returns (some a) = Unit

pub length-skip_while-le : (p : ℕ → Bool) (s : Bytes) → length (skip_while p s) ≤ length s
unfolding skip_while
length-skip_while-le p [] = omega arith
length-skip_while-le p (c ∷ s) = ground (arith, length-skip_while-le p s)

length-remove_one-le : (s : Bytes) → length (remove_one s) ≤ length s
length-remove_one-le [] = omega arith
length-remove_one-le (c ∷ s) = omega arith

length-skip_digits-lt : (s : Bytes) → front_is is_digit s ≡ true → length (skip_digits s) < length s
unfolding skip_while
length-skip_digits-lt [] h = cc
length-skip_digits-lt (c ∷ s) h = rw h (omega (arith, length-skip_while-le is_digit s))

was_read_loop-Returns :
    (f : ℕ) (artnum : ℤ) (s : Bytes) → length s < f → Returns (was_read_loop f artnum s)
unfolding was_read_loop
was_read_loop-Returns zero artnum s h = elim h [ ]
was_read_loop-Returns (suc f) artnum s h = elim (Bool-cases (front_is is_digit s)) [
  | inr stop ↦ rw stop tt
  | inl more ↦
      let behind = skip_digits s in
      let range = skip_digits (remove_one behind) in
      let shorter = length-skip_digits-lt s more in
      let r1 = length-skip_while-le (λ c. not (is_digit c)) behind in
      let r2 = length-remove_one-le behind in
      let r3 = length-skip_while-le is_digit (remove_one behind) in
      let r4 = length-skip_while-le (λ c. not (is_digit c)) range in
      rw more (
        ground (
          arith,
          was_read_loop-Returns f artnum (skip_non_digits behind) (omega arith),
          was_read_loop-Returns f artnum (skip_non_digits range) (omega arith),
        ))
]

-- `was_read_group` answers for every article number and every group, also for a malformed line:
-- its loop never runs out of fuel.
pub was_read_group-Returns :
    (artnum : ℤ) (np : Option NewsgroupData) → Returns (was_read_group artnum np)
unfolding was_read_group
was_read_group-Returns artnum none = tt
was_read_group-Returns artnum (some np) = ground (
  arith,
  was_read_loop-Returns (suc (length (skip_eq (rc_numbers np) b' '))) artnum
      (skip_eq (rc_numbers np) b' ') (omega arith),
)
