-- ===== src/Newsrc/Lookup.antt =====
-- `was_read_group` of libtrn/rcln.cpp: is an article marked as read on the group's line?
-- The loop runs on fuel, since each round drops a varying number of bytes; `none` is lack of fuel.
pub mod Canonical
pub mod Total
use trn.Base.{
  ℕ, zero, suc, Bool, true, false, ◌&&◌, Option, none, some, [], ◌∷◌, Bytes, ◌==◌, if◌then◌else◌,
  length,
}
use trn.Base.Int.{ℤ, pos, leb_ℤ, ltb_ℤ, eqb_ℤ}
use trn.Text.{is_digit, front_is, remove_one, skip_eq, skip_digits, skip_non_digits, parse_long}
use trn.Newsrc.{NewsgroupData, tr_bogus, rc_numbers}

unfoldable pub was_read_loop : ℕ → ℤ → Bytes → Option Bool
was_read_loop zero artnum numbers = none
was_read_loop (suc f) artnum numbers =
    let low = parse_long numbers in
    let behind = skip_digits numbers in
    let range = remove_one behind in
    let after_range = was_read_loop f artnum (skip_non_digits (skip_digits range)) in
    let after_single = was_read_loop f artnum (skip_non_digits behind) in
    if front_is is_digit numbers && leb_ℤ low artnum
    then if front_is (λ c. c == b'-') behind
      then if leb_ℤ artnum (parse_long range) then some true else after_range
      else if eqb_ℤ artnum low
      then some true
      else after_single
    else some false

-- The function after `find_newsgroup`, whose result (`nullptr` is `none`) is an argument.
unfoldable pub was_read_group : ℤ → Option NewsgroupData → Option Bool
unfolding rc_numbers
was_read_group artnum none = some true
was_read_group artnum (some np) =
    let numbers = skip_eq (rc_numbers np) b' ' in
    if eqb_ℤ artnum (pos 0)
    then some true
    else if np.num_offset == 0
    then some false
    else if eqb_ℤ np.to_read tr_bogus
    then some true
    else if ltb_ℤ np.ng_max artnum
    then some false
    else was_read_loop (suc (length numbers)) artnum numbers
