-- ===== src/Marking.antt =====
-- The marks of articles as read or unread, and the counters kept with them: `one_more`, `one_less`,
-- `one_missing` and `delay_unmark` of libtrn/Article.cpp, `check_first` of libtrn/bits.cpp. Of the
-- flags those stand here that these functions use; `selected` is the bit of `g_sel.mask`.
pub mod Counts
use trn.Base.{
  ℕ, suc, Bool, true, false, not, ◌&&◌, Option, none, some, List, [], ◌∷◌, if◌then◌else◌, get_elem?,
  min, ltb,
}
use trn.Base.Int.{ℤ, pos, ltb_ℤ, article_after, article_before}
use trn.Hash.{update_at}

-- `m_subj` is the number of a subject, if there is one.
pub record Article : Type 0 where
  pub m_num : ℕ
  pub m_subj : Option ℕ
  pub is_unread : Bool
  pub is_deleted : Bool
  pub is_selected : Bool
  pub is_yanked_back : Bool
  pub has_re : Bool
  pub is_there : Bool
  pub is_cached : Bool
  pub is_threaded : Bool

-- The bit of `g_sel.mask` and SF_VISIT.
pub record SubjectFlags : Type 0 where
  pub subject_selected : Bool
  pub visit : Bool

-- g_newsgroup_ptr->m_to_read, g_selected_count, g_missing_count, g_dm_count, g_abs_first, g_first_art,
-- g_sel.selected_only, and the flags of the subjects.
pub record Counters : Type 0 where
  pub m_to_read : ℤ
  pub selected_count : ℤ
  pub missing_articles : ℤ
  pub dm_count : ℤ
  pub abs_first : ℕ
  pub first_art : ℕ
  pub selected_only : Bool
  pub subjects : List SubjectFlags

unfoldable pub check_first : ℕ → Counters → Counters
check_first num g =
    let least = if ltb num g.abs_first then g.abs_first else num in
    record g { first_art = min least g.first_art }

-- The part of `one_more` on the article's subject.
unfoldable pub select_more : Counters → Article → Counters × Article
select_more g a = elim a.m_subj [
  | none ↦ (g, a)
  | some s ↦
      let chosen : Bool = elim (get_elem? g.subjects s) [
        | none ↦ false
        | some flags ↦ flags.subject_selected
      ] in
      if g.selected_only
      then if chosen && not a.is_selected
        then (
          record g { selected_count = article_after g.selected_count },
          record a { is_selected = true },
        )
        else (g, a)
      else (
        record g { subjects = update_at s (λ flags. record flags { visit = true }) g.subjects },
        a,
      )
]

unfoldable pub one_more : Counters → Article → Counters × Article
one_more g a =
    let first = check_first a.m_num g in
    let more =
      select_more (record first { m_to_read = article_after first.m_to_read })
        (record a { is_unread = true; is_deleted = false }) in
    if a.is_unread then (g, a) else more

unfoldable pub one_less : Counters → Article → Counters × Article
one_less g a =
    let g' =
      if a.is_selected then record g { selected_count = article_before g.selected_count } else g in
    let g'' =
      if ltb_ℤ (pos 0) g'.m_to_read
      then record g' { m_to_read = article_before g'.m_to_read }
      else g' in
    if a.is_unread then (g'', record a { is_unread = false; is_selected = false }) else (g, a)

unfoldable pub one_missing : Counters → Article → Counters × Article
one_missing g a =
    let counted =
      if a.is_unread then record g { missing_articles = article_after g.missing_articles } else g in
    let (g', a') = one_less counted a in
    (
      g',
      record a' {
        has_re = false;
        is_yanked_back = false;
        is_there = false;
        is_cached = true;
        is_threaded = true;
      },
    )

unfoldable pub delay_unmark : Counters → Article → Counters × Article
delay_unmark g a =
    if a.is_yanked_back
    then (g, a)
    else (record g { dm_count = article_after g.dm_count }, record a { is_yanked_back = true })
