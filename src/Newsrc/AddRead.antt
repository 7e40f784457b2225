-- ===== src/Newsrc/AddRead.antt =====
-- `add_art_num` of libtrn/rcln.cpp: an article number is entered on a group's line.
-- `find_newsgroup` and the active file are arguments; `none` is lack of fuel.
pub mod Same
use trn.Base.{
  ℕ, zero, suc, ◌+◌, ◌-◌, Bool, true, false, not, Option, none, some, [], ◌∷◌, Bytes, ◌==◌,
  if◌then◌else◌, length, drop, ◌>>=◌,
}
use trn.Base.Int.{ℤ, pos, ltb_ℤ, eqb_ℤ, ◌+ℤ◌, ◌-ℤ◌, article_before}
use trn.Newsrc.Insert.{Place, Scan, already_read, insert_at, out_of_fuel, scan, insert_number}
use trn.Newsrc.ToRead.{Active, Totals, set_to_read}
use trn.Newsrc.{NewsgroupData, tr_none, tr_bogus, show_subscribe_char, hide_subscribe_char}
use trn.Text.{find_or_end}

-- A higher number than the group's highest raises it, and the number to read with it.
unfoldable pub raise_max : ℤ → NewsgroupData → NewsgroupData
raise_max art_num np =
    if ltb_ℤ np.ng_max art_num
    then record np {
      ng_max = art_num;
      to_read =
          if ltb_ℤ tr_none np.to_read then np.to_read +ℤ (art_num -ℤ np.ng_max) else np.to_read;
    }
    else np

-- "we have not read it, so insert the article number before s"
unfoldable pub enter_number : ℤ → Place → NewsgroupData → NewsgroupData
enter_number art_num p np =
    let shown = show_subscribe_char np in
    let entered =
      hide_subscribe_char (record shown { rc_line = insert_number shown.rc_line art_num p }) in
    record entered {
      to_read =
          if ltb_ℤ tr_none entered.to_read then article_before entered.to_read else entered.to_read;
    }

abbrev pub start_place : NewsgroupData → Place
start_place np =
    let s_offset = find_or_end (λ c. not (c == b' ')) np.num_offset np.rc_line in
    record {
      s_offset = s_offset;
      t_offset = s_offset;
      max_offset = none;
      lastnum = pos 0;
      low = pos 0;
    }

-- The end of the scan: an early return, or the number is entered.
abbrev pub end_scan : ℤ → NewsgroupData → Scan → Option NewsgroupData
end_scan art_num np already_read = some np
end_scan art_num np (insert_at p) = some (enter_number art_num p np)
end_scan art_num np out_of_fuel = none

-- The part on the group's line.
unfoldable pub scan_and_enter : ℤ → NewsgroupData → Option NewsgroupData
scan_and_enter art_num np =
    end_scan art_num np (scan (suc (length np.rc_line)) np.rc_line art_num (start_place np))

unfoldable pub enter_if_known : ℤ → NewsgroupData → Option NewsgroupData
enter_if_known art_num np =
    if eqb_ℤ np.to_read tr_bogus then some np else scan_and_enter art_num (raise_max art_num np)

-- The whole function on the group found; the source's result is always 0.
unfoldable pub add_art_num :
    ℕ → ℤ → Active → Totals → NewsgroupData → Option (NewsgroupData × Totals)
add_art_num dp art_num active g np =
    let entered = (enter_if_known art_num np >>= λ np'. some (np', g)) in
    let trimmed =
      (set_to_read true active g np >>= λ (np', g').
      (enter_if_known art_num np' >>= λ np''. some (np'', g'))) in
    if eqb_ℤ art_num (pos 0)
    then some (np, g)
    else if not (np.source == dp)
    then some (np, g)
    else if np.num_offset == 0
    then some (np, g)
    else if eqb_ℤ np.abs_first (pos 0)
    then trimmed
    else entered
