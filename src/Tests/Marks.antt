-- ===== src/Tests/Marks.antt =====
-- Articles that are marked as read and unread, and a group that is caught up with.
use trn.Base.{
  arith, ℕ, Bool, true, false, ◌≡◌, ◌≢◌, ◌||◌, refl, none, some, List, [], ◌∷◌, ◌++◌, codes, leb,
  Option,
}
use trn.Base.Int.{pos, negsuc}
use trn.Marking.{Article, Counters, one_more, one_less, one_missing, select_more, check_first}
use trn.Marking.Counts.{Mark, mark_all, mark_at, mark, IsCounted, mark_all-IsCounted}
use trn.Newsrc.CatchUp.{catch_up, read_all}
use trn.Newsrc.CatchUp.AllRead.{catch_up-was_read}
use trn.Newsrc.Lookup.{was_read_group}
use trn.Newsrc.ToRead.{Totals, newsgroup_size}
use trn.Newsrc.{
  NewsgroupData, tr_none, hide_subscribe_char, mark_changed, up_to_nul, set_byte, unsubscribe,
}
use trn.Text.Decimal.{decimal, format_long}

abbrev article : ℕ → Bool → Bool → Article
article n unseen chosen = record {
  m_num = n;
  m_subj = some 0;
  is_unread = unseen;
  is_deleted = false;
  is_selected = chosen;
  is_yanked_back = false;
  has_re = false;
  is_there = true;
  is_cached = true;
  is_threaded = true;
}

-- Of three articles the first is read and the last is selected.
abbrev three : List Article
three = article 1 false false ∷ article 2 true false ∷ article 3 true true ∷ []

abbrev counters : Counters
counters = record {
  m_to_read = pos 2;
  selected_count = pos 1;
  missing_articles = pos 0;
  dm_count = pos 0;
  abs_first = 1;
  first_art = 2;
  selected_only = true;
  subjects = record { subject_selected = true; visit = false } ∷ [];
}

counters-IsCounted : IsCounted counters three
counters-IsCounted = record { to_read = refl; selected = refl; only = (refl, (refl, (refl, tt))) }

-- The first is marked unread, which selects it, and the last one is missing.
abbrev marks : List (Mark × ℕ)
marks = (Mark.more, 0) ∷ (Mark.missing, 2) ∷ []

marked : (mark_all marks counters three).0.m_to_read ≡ pos 2
unfolding mark_all mark_at mark one_more one_missing one_less select_more check_first
marked = refl

mark_all-IsCounted_example :
    IsCounted (mark_all marks counters three).0 (mark_all marks counters three).1
mark_all-IsCounted_example = mark_all-IsCounted marks counters three counters-IsCounted

-- "a.b: 1-3", with the mark hidden.
abbrev partly_read : NewsgroupData
partly_read = record {
  source = 0;
  rc_line = codes "a.b" ++ (0 ∷ codes " 1-3");
  abs_first = pos 1;
  ng_max = pos 10;
  to_read = pos 7;
  num_offset = 4;
  subscribe_char = b':';
  rc_changed = false;
}

abbrev totals : Totals
totals = record {
  groups_to_read = pos 1;
  missing_count = pos 0;
  paranoid = false;
  min_to_read = pos 1;
}

catch_up-was_read_example :
    (np' : NewsgroupData) × (g' : Totals) × (catch_up 0 (some (pos 1, pos 12)) totals partly_read
      ≡ some (np', g'))
    × (np'.to_read ≡ tr_none)
    × ((a : ℕ) → a ≢ 0 → was_read_group (pos a) (some np') ≡ some (leb a 12 || leb a 10))
catch_up-was_read_example =
    catch_up-was_read partly_read totals (pos 1) 12 10 (omega arith) (unfold up_to_nul in refl) refl
      (omega arith) (omega arith)

abbrev line_of : Option (NewsgroupData × Totals) → Option (List ℕ)
line_of none = none
line_of (some o) = some o.0.rc_line

-- Where the mark is shown, the old numbers stay in the line.
abbrev mark_shown : NewsgroupData
mark_shown = record partly_read { rc_line = codes "a.b: 5-9" }

numbers_left :
    line_of (catch_up 0 (some (pos 1, pos 12)) totals mark_shown)
    ≡ some (codes "a.b" ++ (0 ∷ codes " 5-9: 1-12"))
unfolding catch_up read_all newsgroup_size hide_subscribe_char mark_changed up_to_nul set_byte
    format_long decimal
numbers_left = refl

-- A group that is missing from the active file has no size, and its line ends in a negative number.
missing_group :
    catch_up 0 none totals partly_read
    ≡ some (
      record (unsubscribe partly_read) {
        rc_line = codes "a.b" ++ (0 ∷ codes " 1--3");
        to_read = tr_none;
      },
      record totals { groups_to_read = negsuc 0 },
    )
unfolding catch_up read_all newsgroup_size hide_subscribe_char mark_changed up_to_nul set_byte
    unsubscribe format_long decimal
missing_group = refl
