-- ===== src/Newsrc/Rewrite.antt =====
-- `bits_to_rc` of libtrn/bits.cpp: the group's line is written anew from the articles' flags.
pub mod Head
pub mod Tail
pub mod Text
pub mod RoundTrip
use trn.Base.{
  ℕ, zero, suc, ◌+◌, ◌-◌, Bool, true, false, not, List, [], ◌∷◌, ◌++◌, Bytes, leb, ltb, ◌==◌,
  if◌then◌else◌,
}
use trn.Base.Int.{pos, article_before}
use trn.Cache.{Articles, unread, was_read, first, next}
use trn.Newsrc.{NewsgroupData, rc_name, set_rc_line}
use trn.Text.Decimal.{decimal, format_long}

module _ (l : Articles) (last_art : ℕ) where
  -- The first loop: `next` finds the first unread article, or a number above `last_art`.
  unfoldable pub first_unread : ℕ → ℕ → ℕ
  first_unread zero i = i
  first_unread (suc f) i =
      let rest = first_unread f (next l last_art i) in
      if leb i last_art then if unread l i then i else rest else i

  -- The inner loop: the number after the run of read articles; `left` numbers remain.
  unfoldable pub run_end : ℕ → ℕ → ℕ
  run_end zero i = i
  run_end (suc left) i = let rest = run_end left (suc i) in if was_read l i then rest else i

  -- What is written for the run of read articles from `old_i` to `i`.
  abbrev pub run_text : ℕ → ℕ → Bytes
  run_text old_i i =
      decimal old_i ++ (if ltb old_i i then b'-' ∷ (decimal i ++ (b',' ∷ [])) else b',' ∷ [])

  -- The second loop: the line so far and the count of unread articles.
  unfoldable pub write_runs : ℕ → ℕ → ℕ → Bytes → Bytes × ℕ
  write_runs zero i count line = (line, count)
  write_runs (suc f) i count line =
      let after = run_end (last_art - i) (suc i) in
      let counted = write_runs f (suc i) (suc count) line in
      let written = write_runs f (suc (after - 1)) count (line ++ run_text i (after - 1)) in
      if leb i last_art then if not (was_read l i) then counted else written else (line, count)

-- `if (rc_line.back() == ',') rc_line.pop_back();`
unfoldable pub drop_comma : Bytes → Bytes
drop_comma [] = []
drop_comma (c ∷ []) = if c == b',' then [] else c ∷ []
drop_comma (c ∷ d ∷ s) = c ∷ drop_comma (d ∷ s)

-- The whole function, for `g_newsgroup_ptr`, `g_cache`, `g_abs_first` and `g_last_art`.
unfoldable pub bits_to_rc : NewsgroupData → Articles → ℕ → ℕ → NewsgroupData
unfolding first_unread run_end write_runs drop_comma
bits_to_rc np l abs_first last_art =
    let i = first_unread l last_art (suc (suc last_art)) (first l last_art abs_first) in
    let head =
      rc_name np
      ++ (np.subscribe_char
          ∷ b' '
          ∷ b'1'
          ∷ b'-'
          ∷ (format_long (article_before (pos i)) ++ (b',' ∷ []))) in
    let (line, count) = write_runs l last_art (suc (suc last_art)) i 0 head in
    set_rc_line np (drop_comma line) (pos count)
