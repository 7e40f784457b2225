-- ===== src/Newsrc/Expire.antt =====
-- `NewsgroupData::check_expired` of libtrn/rcln.cpp: what has expired below `first` is marked as
-- read. `none` is lack of fuel for the loop. The source's `substr` throws where the numbers would
-- begin beyond the line; here the rest is empty then.
use trn.Base.{
  ℕ, zero, suc, ◌+◌, ◌-◌, not, ◌&&◌, Option, none, some, [], ◌∷◌, ◌++◌, Bytes, ltb, ◌==◌,
  if◌then◌else◌, length, take, drop, ◌>>=◌,
}
use trn.Base.Int.{ℤ, pos, leb_ℤ, eqb_ℤ, article_before}
use trn.Newsrc.Insert.{char_at}
use trn.Newsrc.{NewsgroupData, mark_changed}
use trn.Text.{is_space, skip_while, digits_end, next_digit, parse_long}
use trn.Text.Decimal.{format_long}

-- The offset of the first number above `first`, and the number before it.
unfoldable pub expire_loop : ℕ → Bytes → ℤ → ℕ → ℤ → Option (ℕ × ℤ)
expire_loop zero line first s_offset lastnum = none
expire_loop (suc f) line first s_offset lastnum =
    let num = parse_long (drop s_offset line) in
    let rest = expire_loop f line first (next_digit line (digits_end line s_offset)) num in
    if ltb s_offset (length line) && leb_ℤ num first then rest else some (s_offset, lastnum)

-- The numbers that replace those of the line, if they do.
unfoldable pub expired_line : NewsgroupData → ℤ → ℕ → ℤ → NewsgroupData
expired_line np first s_offset lastnum =
    let prefix = take np.num_offset np.rc_line in
    let remainder = drop s_offset np.rc_line in
    let ranged = prefix ++ (b' ' ∷ b'1' ∷ b'-' ∷ remainder) in
    let high = if eqb_ℤ lastnum first then first else article_before first in
    let comma : Bytes = if ltb 0 (length remainder) then b',' ∷ [] else [] in
    let fresh = prefix ++ (b' ' ∷ b'1' ∷ b'-' ∷ (format_long high ++ (comma ++ remainder))) in
    if ltb 0 (length remainder)
      && (ltb 0 s_offset && char_at np.rc_line (s_offset - 1) (λ c. c == b'-'))
    then if not (eqb_ℤ lastnum (pos 1)) then mark_changed (record np { rc_line = ranged }) else np
    else mark_changed (record np { rc_line = fresh })

unfoldable pub check_expired : NewsgroupData → ℤ → Option NewsgroupData
check_expired np first =
    let numbers = drop np.num_offset np.rc_line in
    let blanks = length numbers - length (skip_while is_space numbers) in
    let found =
      expire_loop (suc (length np.rc_line)) np.rc_line first (np.num_offset + blanks) (pos 0) in
    if leb_ℤ first (pos 1)
    then some np
    else (found >>= λ (s_offset, lastnum). some (expired_line np first s_offset lastnum))
