-- ===== src/Newsrc/CatchUp.antt =====
-- `NewsgroupData::catch_up` of libtrn/rcln.cpp: all articles of a group are marked as read, or all but
-- some. The messages and the writing of the newsrc files are left out; `none` is lack of fuel.
pub mod AllRead
use trn.Base.{
  ℕ, false, ◌&&◌, Option, some, List, [], ◌∷◌, ◌++◌, Bytes, ◌==◌, if◌then◌else◌, ◌>>=◌, codes,
}
use trn.Base.Int.{ℤ, pos, ltb_ℤ, ◌-ℤ◌, article_after, article_before}
use trn.Newsrc.Expire.{check_expired}
use trn.Newsrc.ToRead.{Active, Totals, newsgroup_size, set_to_read}
use trn.Newsrc.{NewsgroupData, tr_none, visible_line, hide_subscribe_char, mark_changed}
use trn.Text.Decimal.{format_long}

-- The group has the line `line: 1-size`, and the place of the mark is hidden.
unfoldable pub read_all : Bytes → ℤ → NewsgroupData → NewsgroupData
read_all name size np =
    let line = name ++ (b':' ∷ b' ' ∷ b'1' ∷ b'-' ∷ format_long size) in
    let hidden = hide_subscribe_char (record np { rc_line = line }) in
    mark_changed (record hidden { to_read = tr_none })

unfoldable pub catch_up : ℕ → Active → Totals → NewsgroupData → Option (NewsgroupData × Totals)
catch_up leave_count active g np =
    let (sized, g', size) = newsgroup_size active g np in
    let less_one =
      if ltb_ℤ tr_none g'.min_to_read && ltb_ℤ tr_none sized.to_read
      then record g' { groups_to_read = article_before g'.groups_to_read }
      else g' in
    let all_but =
      (check_expired sized (article_after (size -ℤ pos leave_count)) >>= λ trimmed.
      (set_to_read false active g' trimmed >>= λ (counted, g'').
      some (mark_changed counted, g''))) in
    if leave_count == 0 then some (read_all (visible_line np) size sized, less_one) else all_but
