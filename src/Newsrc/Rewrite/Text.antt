-- ===== src/Newsrc/Rewrite/Text.antt =====
-- The text that `bits_to_rc` (libtrn/bits.cpp) leaves behind the group's name.
use trn.Base.{
  ℕ, zero, suc, ◌≡◌, refl, ◌∙◌, ap, List, [], ◌∷◌, ◌++◌, append_assoc, Bytes, drop, length, arith,
}
use trn.Newsrc.{set_byte}
use trn.Newsrc.Ranges.{Range, render, render_behind, render_range}
use trn.Newsrc.Rewrite.{drop_comma}
use trn.Newsrc.Rewrite.Tail.{with_commas}

drop_comma-append :
    (s : Bytes) (c : ℕ) (t : Bytes) → drop_comma (s ++ (c ∷ t)) ≡ s ++ drop_comma (c ∷ t)
unfolding drop_comma
drop_comma-append [] c t = refl
drop_comma-append (x ∷ []) c t = refl
drop_comma-append (x ∷ y ∷ s) c t = ap (◌∷◌ x) (drop_comma-append (y ∷ s) c t)

-- Taking off the last comma leaves the commas between the ranges.
with_commas-behind : (rs : List Range) → drop_comma (b',' ∷ with_commas rs) ≡ render_behind rs
with_commas-behind [] = unfold drop_comma in refl
with_commas-behind (r ∷ rs) =
    drop_comma-append (b',' ∷ render_range r) b',' (with_commas rs)
    ∙ ap (λ s. b',' ∷ (render_range r ++ s)) (with_commas-behind rs)

pub drop_comma-with_commas :
    (s : Bytes) (r : Range) (rs : List Range)
    → drop_comma (s ++ with_commas (r ∷ rs)) ≡ s ++ render (r ∷ rs)
drop_comma-with_commas s r rs = rw (← append_assoc s (render_range r) (b',' ∷ with_commas rs)) (
    drop_comma-append (s ++ render_range r) b',' (with_commas rs)
    ∙ rw (with_commas-behind rs, append_assoc))

-- Behind the name and the mark stands what was written there, also once the mark is hidden.
pub drop-set_byte :
    (name rest : Bytes) (c d n : ℕ)
    → length name ≡ n
    → drop (suc n) (set_byte (name ++ (c ∷ rest)) n d) ≡ rest
unfolding set_byte
drop-set_byte [] rest c d zero e = refl
drop-set_byte [] rest c d (suc n) e = absurd (omega arith)
drop-set_byte (x ∷ name) rest c d zero e = absurd (omega arith)
drop-set_byte (x ∷ name) rest c d (suc n) e = drop-set_byte name rest c d n (omega arith)

pub length-set_byte : (s : Bytes) (n d : ℕ) → length (set_byte s n d) ≡ length s
unfolding set_byte
length-set_byte [] n d = refl
length-set_byte (x ∷ s) zero d = refl
length-set_byte (x ∷ s) (suc n) d = ap suc (length-set_byte s n d)
