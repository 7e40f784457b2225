-- ===== src/Newsrc/ToRead.antt =====
-- `NewsgroupData::set_to_read` of libtrn/rcln.cpp, with the part of `get_newsgroup_size`
-- (libtrn/ngdata.cpp) that concerns the group: how many articles of a group are unread.
-- `none` is lack of fuel for a loop. Article counts are integers without a bound here.
use trn.Base.{
  ℕ, zero, suc, Bool, true, not, ◌&&◌, ◌||◌, Option, none, some, [], ◌∷◌, ◌++◌, Bytes, ◌==◌,
  if◌then◌else◌, equal, length, take, drop, ◌>>=◌,
}
use trn.Base.Int.{ℤ, pos, negsuc, leb_ℤ, ltb_ℤ, eqb_ℤ, ◌+ℤ◌, ◌-ℤ◌, article_after, article_before}
use trn.Newsrc.Expire.{check_expired}
use trn.Newsrc.{
  NewsgroupData, tr_bogus, tr_unsub, rc_numbers, mark_changed, unsubscribe, unsubscribed_char,
}
use trn.Text.{skip_space, find, parse_long}
use trn.Text.Decimal.{format_long}

-- g_newsgroup_to_read, g_missing_count, g_paranoid; g_newsgroup_min_to_read.
pub record Totals : Type 0 where
  pub groups_to_read : ℤ
  pub missing_count : ℤ
  pub paranoid : Bool
  pub min_to_read : ℤ

-- The lowest and highest number on the group's line of the active file; `none` where it has none.
abbrev pub Active : Type 0
Active = Option (ℤ × ℤ)

-- The end of `get_newsgroup_size`; what it does in between is about the messages for the group.
abbrev pub known_max : ℤ → NewsgroupData → NewsgroupData × ℤ
known_max high np =
    if leb_ℤ high np.ng_max then (np, np.ng_max) else (record np { ng_max = high }, high)

unfoldable pub newsgroup_size : Active → Totals → NewsgroupData → NewsgroupData × Totals × ℤ
newsgroup_size none g np =
    if np.subscribe_char == b':'
    then (unsubscribe np, record g { groups_to_read = article_before g.groups_to_read }, tr_bogus)
    else (np, g, tr_bogus)
newsgroup_size (some (low, high)) g np =
    let seen = if eqb_ℤ np.abs_first (pos 0) then record np { abs_first = low } else np in
    let (sized, size) = known_max high seen in (sized, g, size)

pub record Tally : Type 0 where
  pub unread : ℤ
  pub ngsize : ℤ
  pub ng_max : ℤ

abbrev pub parse_article_num : Bytes → ℤ
parse_article_num s = parse_long (skip_space s)

-- The number that ends a range, and the unread count less the range's extent.
unfoldable pub read_range : Bytes → ℤ → ℤ × ℤ
read_range range unread = elim (find b'-' range) [
  | none ↦ (parse_article_num range, unread)
  | some hyphen ↦
      let newmax = parse_article_num (drop (suc hyphen) range) in
      (newmax, unread -ℤ (newmax -ℤ parse_article_num range))
]

-- The loop over the ranges, each with a comma behind it.
unfoldable pub tally : ℕ → Bool → Bytes → Tally → Option Tally
tally zero lax s t = none
tally (suc f) lax s t = elim (find b',' s) [
  | none ↦ some t
  | some comma ↦
      let (newmax, less) = read_range (take comma s) t.unread in
      let unread = if eqb_ℤ newmax (pos 0) then less else article_before less in
      let inside = tally f lax (drop (suc comma) s) (record t { unread = unread }) in
      let beyond =
        tally f lax (drop (suc comma) s)
          (record { unread = unread +ℤ (newmax -ℤ t.ngsize); ngsize = newmax; ng_max = newmax }) in
      if ltb_ℤ t.ngsize newmax
      then if not lax then some (record t { unread = negsuc 0 }) else beyond
      else inside
]

-- The effects on the counters of all groups, for the unread count found.
unfoldable pub count_group : Bool → ℤ → ℤ → Totals → Totals
count_group virgin_ng to_read unread g =
    if leb_ℤ g.min_to_read unread
    then if not virgin_ng && ltb_ℤ to_read g.min_to_read
      then record g { groups_to_read = article_after g.groups_to_read }
      else g
    else if leb_ℤ unread (pos 0)
    then if virgin_ng || leb_ℤ g.min_to_read to_read
      then record g {
        groups_to_read = article_before g.groups_to_read;
        missing_count = if virgin_ng then article_after g.missing_count else g.missing_count;
      }
      else g
    else g

-- What follows the loop.
unfoldable pub finish_count : Bool → Tally → Totals → NewsgroupData → NewsgroupData × Totals
finish_count virgin_ng t g np =
    let counted = record np { ng_max = t.ng_max } in
    let reset = ltb_ℤ t.unread (pos 0) in
    let np' =
      if reset
      then mark_changed (record counted { rc_line = take np.num_offset np.rc_line })
      else counted in
    let g' = if reset then record g { paranoid = true } else g in
    let left = if reset then t.ngsize else t.unread in
    let unread = if np.subscribe_char == unsubscribed_char then tr_unsub else left in
    (record np' { to_read = unread }, count_group virgin_ng np.to_read unread g')

-- What `set_to_read` does with a group that has a size.
unfoldable pub count_unread :
    Bool → Bool → ℤ → Totals → NewsgroupData → Option (NewsgroupData × Totals)
count_unread lax virgin_ng ngsize g np = do
  let all_read = b' ' ∷ b'1' ∷ b'-' ∷ format_long ngsize
  let trimmed = check_expired np np.abs_first
  np' ← (if virgin_ng && not (equal all_read (rc_numbers np)) then trimmed else some np)
  let ranges = skip_space (rc_numbers np' ++ (b',' ∷ []))
  t ←
      tally (suc (length ranges)) lax ranges
        (record { unread = ngsize; ngsize = ngsize; ng_max = np'.ng_max })
  some (finish_count virgin_ng t g np')

unfoldable pub set_to_read :
    Bool → Active → Totals → NewsgroupData → Option (NewsgroupData × Totals)
set_to_read lax active g np =
    let virgin_ng = eqb_ℤ np.abs_first (pos 0) in
    let (np', g', ngsize) = newsgroup_size active g np in
    let missing =
      if virgin_ng || leb_ℤ g'.min_to_read np'.to_read
      then record g' {
        groups_to_read = article_before g'.groups_to_read;
        missing_count = article_after g'.missing_count;
        paranoid = true;
      }
      else record g' { paranoid = true } in
    if eqb_ℤ ngsize tr_bogus
    then some (record np' { to_read = tr_bogus }, missing)
    else count_unread lax virgin_ng ngsize g' np'
