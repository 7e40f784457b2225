-- ===== src/Marking/Counts.antt =====
-- The counters of the group, and the flags of its articles (libtrn/Article.cpp).
use trn.Base.{
  ℕ, zero, suc, ◌+◌, Bool, true, false, not, ◌&&◌, List, [], ◌∷◌, if◌then◌else◌, ◌≡◌, refl, ◌∙◌, ap,
  arith, Bool-cases, inl, inr,
}
use trn.Base.Int.{pos, article_after}
use trn.Marking.{
  Article, Counters, check_first, select_more, one_more, one_less, one_missing, delay_unmark,
}

-- The articles of the group, and the marks that are put on the one at a place.
pub data Mark : Type 0 where
  more : Mark
  less : Mark
  missing : Mark
  delay : Mark

unfoldable pub mark : Mark → Counters → Article → Counters × Article
mark more = one_more
mark less = one_less
mark missing = one_missing
mark delay = delay_unmark

-- The articles that are unread, and those that are selected.
abbrev pub one_if : Bool → ℕ
one_if b = if b then 1 else 0

abbrev pub unread_count : List Article → ℕ
unread_count [] = 0
unread_count (a ∷ l) = one_if a.is_unread + unread_count l

abbrev pub selection_count : List Article → ℕ
selection_count [] = 0
selection_count (a ∷ l) = one_if a.is_selected + selection_count l

unfoldable pub mark_at : Mark → ℕ → Counters → List Article → Counters × List Article
mark_at m i g [] = (g, [])
mark_at m zero g (a ∷ l) = let (g', a') = mark m g a in (g', a' ∷ l)
mark_at m (suc i) g (a ∷ l) = let (g', l') = mark_at m i g l in (g', a ∷ l')

unfoldable pub mark_all : List (Mark × ℕ) → Counters → List Article → Counters × List Article
mark_all [] g l = (g, l)
mark_all ((m, i) ∷ ms) g l = let (g', l') = mark_at m i g l in mark_all ms g' l'

-- What one mark changes: the counters by what the article's flags change, if they were not less.
record IsFair (g : Counters) (a : Article) (r : Counters × Article) : Type 0 where
  fair :
      (n k : ℕ)
      → g.m_to_read ≡ pos (one_if a.is_unread + n)
      → g.selected_count ≡ pos (one_if a.is_selected + k)
      → (a.is_selected && not a.is_unread) ≡ false
      → (r.0.m_to_read ≡ pos (one_if r.1.is_unread + n))
        × (r.0.selected_count ≡ pos (one_if r.1.is_selected + k))
        × ((r.1.is_selected && not r.1.is_unread) ≡ false)

one_less-IsFair : (g : Counters) (a : Article) → IsFair g a (one_less g a)
unfolding one_less
one_less-IsFair g a = record { fair = λ n k u s only. ground (arith, u, s, only) }

one_missing-IsFair : (g : Counters) (a : Article) → IsFair g a (one_missing g a)
unfolding one_missing one_less
one_missing-IsFair g a = record { fair = λ n k u s only. ground (arith, u, s, only) }

delay_unmark-IsFair : (g : Counters) (a : Article) → IsFair g a (delay_unmark g a)
unfolding delay_unmark
delay_unmark-IsFair g a = record { fair = λ n k u s only. ground (arith, u, s, only) }

-- An article that was read and is marked unread: it may be selected then.
select_more-fair :
    (g : Counters) (a : Article) (k : ℕ)
    → a.is_unread ≡ true
    → a.is_selected ≡ false
    → g.selected_count ≡ pos k
    → ((select_more g a).0.m_to_read ≡ g.m_to_read)
      × ((select_more g a).1.is_unread ≡ true)
      × ((select_more g a).0.selected_count ≡ pos (one_if (select_more g a).1.is_selected + k))
unfolding select_more
select_more-fair g a k u s e = ground (arith, u, s, e)

one_more-IsFair : (g : Counters) (a : Article) → IsFair g a (one_more g a)
unfolding one_more check_first
one_more-IsFair g a = elim (Bool-cases a.is_unread) [
  | inl before ↦ rw before (record { fair = λ n k u s only. (u, s, ground arith) })
  | inr read ↦ rw read (record {
    fair = λ n k u s only.
        let idle : a.is_selected ≡ false = ground arith in
        let count : g.selected_count ≡ pos k = ground (arith, s, idle) in
        ground (
          arith,
          u,
          select_more-fair
              (record (check_first a.m_num g) { m_to_read = article_after g.m_to_read })
              (record a { is_unread = true; is_deleted = false }) k refl idle count,
        );
  })
]

mark-IsFair : (m : Mark) (g : Counters) (a : Article) → IsFair g a (mark m g a)
unfolding mark
mark-IsFair more g a = one_more-IsFair g a
mark-IsFair less g a = one_less-IsFair g a
mark-IsFair missing g a = one_missing-IsFair g a
mark-IsFair delay g a = delay_unmark-IsFair g a

-- The counters are those of the articles; `n` and `k` count the ones elsewhere.
record IsCountedBesides (n k : ℕ) (g : Counters) (l : List Article) : Type 0 where
  to_read : g.m_to_read ≡ pos (unread_count l + n)
  selected : g.selected_count ≡ pos (selection_count l + k)

-- No article is selected that is not unread.
abbrev pub IsOnlyUnread : List Article → Type 0
IsOnlyUnread [] = Unit
IsOnlyUnread (a ∷ l) = ((a.is_selected && not a.is_unread) ≡ false) × IsOnlyUnread l

mark_at-IsCounted :
    (m : Mark) (i n k : ℕ) (g : Counters) (l : List Article)
    → IsCountedBesides n k g l
    → IsOnlyUnread l
    → IsCountedBesides n k (mark_at m i g l).0 (mark_at m i g l).1
      × IsOnlyUnread (mark_at m i g l).1
unfolding mark_at
mark_at-IsCounted m i n k g [] counted only = (counted, only)
mark_at-IsCounted m zero n k g (a ∷ l) counted only =
    let (u, s, o) =
      (mark-IsFair m g a).fair (unread_count l + n) (selection_count l + k)
        (counted.to_read ∙ ap pos (omega arith)) (counted.selected ∙ ap pos (omega arith)) only.0 in
    (
      record { to_read = u ∙ ap pos (omega arith); selected = s ∙ ap pos (omega arith) },
      (o, only.1),
    )
mark_at-IsCounted m (suc i) n k g (a ∷ l) counted only =
    let (rest, o) =
      mark_at-IsCounted m i (one_if a.is_unread + n) (one_if a.is_selected + k) g l
        (record {
          to_read = counted.to_read ∙ ap pos (omega arith);
          selected = counted.selected ∙ ap pos (omega arith);
        })
        only.1 in
    (
      record {
        to_read = rest.to_read ∙ ap pos (omega arith);
        selected = rest.selected ∙ ap pos (omega arith);
      },
      (only.0, o),
    )

-- The counters of a group and its articles agree.
pub record IsCounted (g : Counters) (l : List Article) : Type 0 where
  pub to_read : g.m_to_read ≡ pos (unread_count l)
  pub selected : g.selected_count ≡ pos (selection_count l)
  pub only : IsOnlyUnread l

-- However the articles of a group are marked, as unread, read, missing or to be unmarked later: if
-- the group's number to read counts the unread ones and the number selected counts the selected
-- ones, none of which is read, that is still so afterwards.
pub mark_all-IsCounted :
    (ms : List (Mark × ℕ)) (g : Counters) (l : List Article)
    → IsCounted g l
    → IsCounted (mark_all ms g l).0 (mark_all ms g l).1
unfolding mark_all
mark_all-IsCounted [] g l counted = counted
mark_all-IsCounted ((m, i) ∷ ms) g l counted =
    let (rest, o) =
      mark_at-IsCounted m i 0 0 g l
        (record {
          to_read = counted.to_read ∙ ap pos (omega arith);
          selected = counted.selected ∙ ap pos (omega arith);
        })
        counted.only in
    mark_all-IsCounted ms (mark_at m i g l).0 (mark_at m i g l).1 (record {
      to_read = rest.to_read ∙ ap pos (omega arith);
      selected = rest.selected ∙ ap pos (omega arith);
      only = o;
    })
