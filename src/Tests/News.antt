-- ===== src/Tests/News.antt =====
-- The newsrc line of a group with ten articles, the virtual array, and the matcher.
use trn.Base.{
  ℕ, Bool, true, false, ◌≡◌, ◌↔◌, refl, none, some, List, [], ◌∷◌, codes, arith, if◌then◌else◌,
  ◌==◌, ◌-◌, suc, ◌++◌,
}
use trn.Base.Int.{pos}
use trn.BackPage.{BackPageCache, init, vary_read}
use trn.BackPage.Refine.{Op, read, write, run, last_written, vary_read-init}
use trn.Cache.{
  Article, Articles, was_read, unread, has_data, find, first, next, lower_bound, upper_bound,
}
use trn.Newsrc.{
  set_byte, set_rc_line, rc_name, hide_subscribe_char, mark_changed, NewsgroupData, rc_numbers,
  tr_unsub, unsubscribed_char,
}
use trn.Newsrc.AddRead.{add_art_num}
use trn.Newsrc.AddRead.Same.{add_art_num-read}
use trn.Newsrc.Lookup.{was_read_group, was_read_loop}
use trn.Text.{skip_while, parse_long, scan_digits}
use trn.Text.Decimal.{decimal, format_long}
use trn.Newsrc.Lookup.Canonical.{was_read_group-render}
use trn.Newsrc.Lookup.Total.{Returns, was_read_group-Returns}
use trn.Newsrc.Ranges.{Range, single, span, covers, render, IsAscending}
use trn.Newsrc.Rewrite.{bits_to_rc, first_unread, write_runs, run_end, drop_comma}
use trn.Newsrc.Rewrite.RoundTrip.{IsCurrent, bits_to_rc-was_read, bits_to_rc-to_read}
use trn.Newsrc.Rewrite.Tail.{count_unread}
use trn.Newsrc.ToRead.{Totals}
use trn.Wildmat.{wildcard_match}
use trn.Wildmat.Complete.{wildcard_match_iff}
use trn.Wildmat.Spec.{Matches}

-- "a.b: 1-3,5", with the mark hidden.
abbrev group : NewsgroupData
group = record {
  source = 0;
  rc_line = codes "a.b" ++ (0 ∷ codes " 1-3,5");
  abs_first = pos 1;
  ng_max = pos 10;
  to_read = pos 6;
  num_offset = 4;
  subscribe_char = b':';
  rc_changed = false;
}

abbrev ranges : List Range
ranges = span 1 3 ∷ single 5 ∷ []

group_numbers : rc_numbers group ≡ b' ' ∷ render ranges
unfolding rc_numbers decimal
group_numbers = refl

ranges-IsAscending : IsAscending 0 ranges
ranges-IsAscending =
    (ground arith, ground arith, ground arith, (ground arith, ground arith, ground arith, tt))

abbrev article : ℕ → Bool → Article
article n unseen = record { num = n; unread = unseen; exists = true; selected = false }

-- Article 3 has expired, and 4 and 6 are unread.
abbrev articles : Articles
articles =
    article 1 false ∷ article 2 false ∷ article 4 true ∷ article 5 false ∷ article 6 true ∷ []

group-IsCurrent : IsCurrent group articles 1 6
group-IsCurrent = record {
  has_numbers = ground arith;
  offset_fits = ground arith;
  ordered = (ground arith, (ground arith, (ground arith, (ground arith, tt))));
  first_pos = ground arith;
  first_fits = ground arith;
  last_fits = ground arith;
  keys_fit = (ground arith, (ground arith, (ground arith, (ground arith, (ground arith, tt)))));
}

bits_to_rc_line : (bits_to_rc group articles 1 6).rc_line ≡ codes "a.b" ++ (0 ∷ codes " 1-3,5")
unfolding bits_to_rc first_unread write_runs run_end drop_comma set_rc_line rc_name
    hide_subscribe_char mark_changed decimal format_long set_byte was_read unread has_data find
    first next lower_bound upper_bound
bits_to_rc_line = refl

bits_to_rc-was_read_example :
    was_read_group (pos 5) (some (bits_to_rc group articles 1 6)) ≡ some (was_read articles 5)
bits_to_rc-was_read_example =
    bits_to_rc-was_read group-IsCurrent 5 (ground arith) (ground arith) refl

bits_to_rc-to_read_example : (bits_to_rc group articles 1 6).to_read ≡ (
    if group.subscribe_char == unsubscribed_char
    then tr_unsub
    else pos (count_unread articles 6 (suc 6 - 1) 1))
bits_to_rc-to_read_example = bits_to_rc-to_read group-IsCurrent

was_read_group-render_example : was_read_group (pos 5) (some group) ≡ some (covers ranges 5)
was_read_group-render_example =
    was_read_group-render group ranges 0 5 group_numbers ranges-IsAscending (ground arith)
      (ground arith) (ground arith) refl

was_read_group-Returns_example : Returns (was_read_group (pos 4) (some group))
was_read_group-Returns_example = was_read_group-Returns (pos 4) (some group)

abbrev totals : Totals
totals = record {
  groups_to_read = pos 1;
  missing_count = pos 0;
  paranoid = false;
  min_to_read = pos 1;
}

was_read_5 : was_read_group (pos 5) (some group) ≡ some true
unfolding was_read_group was_read_loop skip_while parse_long scan_digits
was_read_5 = refl

add_art_num-read_example : add_art_num 0 (pos 5) none totals group ≡ some (group, totals)
add_art_num-read_example = add_art_num-read 0 (pos 5) none totals group (ground arith) was_read_5

abbrev ops : List Op
ops = write 3 (pos 70) ∷ write 300 (pos 71) ∷ read (pos 5) ∷ write 3 (pos 72) ∷ read (pos 600) ∷ []

abbrev blank : BackPageCache
blank = record {
  is_open = false;
  file = record { size = 0; cell = λ i. pos 0 };
  vary_buf = λ i. pos 0;
  old_offset = none;
}

vary_read-init_example : (vary_read (run ops (init blank)) (pos 3)).1 ≡ pos 72
unfolding last_written
vary_read-init_example = vary_read-init blank ops 3 (pos 72) refl

wildcard_match_iff_example :
    (wildcard_match (codes "comp.lang.c++") (codes "comp.*.[a-c]*") ≡ true)
    ↔ Matches (codes "comp.*.[a-c]*") (codes "comp.lang.c++")
wildcard_match_iff_example = wildcard_match_iff (codes "comp.lang.c++") (codes "comp.*.[a-c]*")
