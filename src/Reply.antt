-- ===== src/Reply.antt =====
-- The "Re:" at the start of a subject: `strip_one_re` and `subject_has_re` of libtrn/rt-util.cpp,
-- and `at_grey_space` of libtrn/include/trn/util.h.
pub mod Strip
pub mod Prefix
use trn.Base.{
  ℕ, zero, suc, Bool, true, false, not, ◌&&◌, ◌||◌, [], ◌∷◌, Bytes, ◌==◌, if◌then◌else◌, length,
}
use trn.Text.{front_is, skip_digits, remove_one, to_lower}
use trn.Utf.Graphic.{GraphicState}
use trn.Utf.Graphic.Show.{at_norm_char}

-- False on the empty text.
unfoldable pub at_grey_space : GraphicState → Bytes → Bool
at_grey_space gs [] = false
at_grey_space gs (c ∷ s) = not (at_norm_char gs (c ∷ s)) || c == b' '

unfoldable pub skip_grey : GraphicState → Bytes → Bytes
skip_grey gs [] = []
skip_grey gs (c ∷ s) = if at_grey_space gs (c ∷ s) then skip_grey gs s else c ∷ s

abbrev pub eq_ignore_case : ℕ → ℕ → Bool
eq_ignore_case unknown lower = to_lower unknown == lower

-- "allow Re^2:"
abbrev pub skip_power : Bytes → Bytes
skip_power s = if front_is (λ c. c == b'^') s then skip_digits (remove_one s) else s

-- Behind the letters of a "Re", with the subject from them on: whether it is one, and what remains.
unfoldable pub strip_colon : GraphicState → Bytes → Bytes → Bool × Bytes
strip_colon gs subject rest =
    if front_is (λ c. c == b':') (skip_power rest)
    then (true, skip_grey gs (remove_one (skip_power rest)))
    else (false, subject)

unfoldable pub strip_letters : GraphicState → Bytes → Bool × Bytes
strip_letters gs [] = (false, [])
strip_letters gs (c ∷ []) = (false, c ∷ [])
strip_letters gs (c ∷ d ∷ rest) =
    if eq_ignore_case c b'r' && eq_ignore_case d b'e'
    then strip_colon gs (c ∷ d ∷ rest) rest
    else (false, c ∷ d ∷ rest)

-- Whether there was a "Re:", and what remains.
unfoldable pub strip_one_re : GraphicState → Bytes → Bool × Bytes
strip_one_re gs subject = strip_letters gs (skip_grey gs subject)

-- The loop of `subject_has_re`; each round that goes on drops three bytes at least.
unfoldable pub strip_loop : ℕ → GraphicState → Bytes → Bool × Bytes
strip_loop zero gs subject = (false, subject)
strip_loop (suc f) gs subject =
    let stripped = strip_one_re gs subject in
    let later = strip_loop f gs stripped.1 in if stripped.0 then (true, later.1) else stripped

unfoldable pub subject_has_re : GraphicState → Bytes → Bool × Bytes
subject_has_re gs subject = strip_loop (suc (length subject)) gs subject
