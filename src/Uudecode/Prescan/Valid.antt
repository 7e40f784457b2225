-- ===== src/Uudecode/Prescan/Valid.antt =====
-- What a line that is recognized says of its part.
use trn.Base.{
  ℕ, suc, ◌+◌, ◌≤◌, Bool, true, false, not, ◌&&◌, Option, none, some, Bytes, ltb, leb, ◌==◌,
  if◌then◌else◌, length, drop, codes, ◌>>=◌, ◌>>◌, guard, ◌≡◌, ◌⊎◌, inl, inr, refl, ap, Bool-cases,
  Option-cases, arith,
}
use mathlib.Core.Option.{some-injective}
use mathlib.Core.Path.{subst}
use trn.Base.Int.{pos, ltb_ℤ, leb_ℤ}
use trn.Text.{starts_with}
use trn.Uudecode.Prescan.{
  Part, Named, parse_number, byte_at, digit_at, section_of, section_slash, post, file,
  bracket_section, answer, is_data, is_begin, section, post_file_or_rest, data_or_header,
  uue_prescan, find_text_from, slice, starts_with_ignore_case, space_from, non_space_from,
}

-- A part counts from 1, and is at most the total where that is known, as not 0.
abbrev pub IsRanked : Part → Type 0
IsRanked q = (ltb_ℤ (pos 0) q.part ≡ true) × ((q.total ≡ pos 0) ⊎ (leb_ℤ q.part q.total ≡ true))

abbrev IsRankedName : Named → Type 0
IsRankedName x = (1 ≤ x.1) × ((x.2 ≡ 0) ⊎ (x.1 ≤ x.2))

-- A branch that names a part, if it does, names one that is ranked.
record IsNamed (o : Option Named) : Type 0 where
  at : (x : Named) → o ≡ some x → IsRankedName x

named : (x : Named) → IsRankedName x → IsNamed (some x)
named x h = record { at = λ y e. subst IsRankedName (some-injective _ _ e) h }

through :
    {A : Type 0} (m : Option A) (f : A → Option Named)
    → ((a : A) → IsNamed (f a))
    → IsNamed (m >>= f)
through none f h = record { at = λ x e. absurd (ground arith) }
through (some a) f h = h a

guarded : (b : Bool) (k : Option Named) → (b ≡ true → IsNamed k) → IsNamed (guard b >> k)
guarded false k h = record { at = λ x e. absurd (ground arith) }
guarded true k h = h refl

section_of-IsNamed :
    (text : Bytes) (part position : ℕ)
    → (part == 0) ≡ false
    → IsNamed (section_of text part position)
unfolding section_of
section_of-IsNamed text part position some_part =
    through (find_text_from (codes " of file ") (position + 4) text) _ (λ marker.
      through (space_from (marker + 9) text) _
        (λ end. named (slice text (marker + 9) end, part, 0) (ground arith, inl refl)))

section_slash-IsNamed :
    (text : Bytes) (part position : ℕ)
    → (part == 0) ≡ false
    → IsNamed (section_slash text part position)
unfolding section_slash
section_slash-IsNamed text part position some_part = through (parse_number text position) _ (λ x.
    through (non_space_from x.1 text) _ (λ label.
      guarded (leb part x.0 && starts_with (drop label text) (codes "file ")) _ (λ ok.
        through (space_from (label + 5) text) _ (λ end.
          named (slice text (label + 5) end, part, x.0) (ground arith, inr (ground arith))))))

post-IsNamed : (text : Bytes) → IsNamed (post text)
unfolding post
post-IsNamed text = through (space_from 6 text) _ (λ version_end.
    through (space_from (suc version_end) text) _ (λ end.
      guarded (starts_with (drop end text) (codes " (Part ")) _ (λ _.
        through (parse_number text (end + 7)) _ (λ x.
          guarded (not (x.0 == 0) && byte_at text x.1 b'/') _ (λ some_part.
            through (parse_number text (x.1 + 1)) _ (λ y.
              guarded (leb x.0 y.0 && byte_at text y.1 b')') _ (λ ok.
                named (slice text (suc version_end) end, x.0, y.0)
                  (ground arith, inr (ground arith)))))))))

file-IsNamed : (text : Bytes) → IsNamed (file text)
unfolding file
file-IsNamed text = through (space_from 6 text) _ (λ end.
    guarded (starts_with (drop end text) (codes " -- part ")) _ (λ _.
      through (parse_number text (end + 9)) _ (λ x.
        guarded (not (x.0 == 0) && starts_with (drop x.1 text) (codes " of ")) _ (λ some_part.
          through (parse_number text (x.1 + 4)) _ (λ y.
            guarded (leb x.0 y.0 && starts_with (drop y.1 text) (codes " -- ")) _
              (λ ok. named (slice text 6 end, x.0, y.0) (ground arith, inr (ground arith))))))))

bracket_section-IsNamed : (text : Bytes) → IsNamed (bracket_section text)
unfolding bracket_section
bracket_section-IsNamed text = through (parse_number text 10) _ (λ x.
    guarded (not (x.0 == 0) && ltb x.1 (length text)) _ (λ some_part.
      through (parse_number text (x.1 + 1)) _ (λ y. through (non_space_from y.1 text) _ (λ label.
        guarded (leb x.0 y.0 && starts_with (drop label text) (codes "File: ")) _ (λ ok.
          through (space_from (label + 6) text) _ (λ end.
            named (slice text (label + 6) end, x.0, y.0) (ground arith, inr (ground arith))))))))

-- A result that is ranked if the line is recognized.
record IsRight (r : Bool × Part) : Type 0 where
  ranked : r.0 ≡ true → IsRanked r.1

IsRight-false : (p : Part) → IsRight (false, p)
IsRight-false p = record { ranked = λ e. absurd (ground arith) }

IsRight-if : (b : Bool) {x y : Bool × Part} → IsRight x → IsRight y → IsRight (if b then x else y)
IsRight-if true hx hy = hx
IsRight-if false hx hy = hy

answer-IsRight : (o : Option Named) (p : Part) → IsNamed o → IsRight (answer o p)
answer-IsRight none p h = IsRight-false p
answer-IsRight (some (filename, part, total)) p h =
    let (low, high) = h.at (filename, part, total) refl in
    record {
      ranked = λ e. (
        ground arith,
        elim high [ inl unknown ↦ inl (ap pos unknown) | inr below ↦ inr (ground arith) ],
      );
    }

is_data-IsRanked : (text : Bytes) (p : Part) → is_data text p ≡ true → IsRanked p
unfolding is_data
is_data-IsRanked text p e = (ground arith, inr (ground arith))

data_or_header-IsRight : (text : Bytes) (p : Part) → IsRight (data_or_header text p)
unfolding data_or_header
data_or_header-IsRight text p = elim (Bool-cases (is_data text p)) [
  | inl known ↦ rw known (record { ranked = λ _. is_data-IsRanked text p known })
  | inr other ↦ rw other (
      IsRight-if (starts_with_ignore_case text (codes "x-file-name: ")) (IsRight-false _) (
        IsRight-if (starts_with_ignore_case text (codes "x-part: ")) (IsRight-false _) (
          IsRight-if (starts_with_ignore_case text (codes "x-part-total: ")) (IsRight-false _)
            (IsRight-false p))))
]

post_file_or_rest-IsRight : (text : Bytes) (p : Part) → IsRight (post_file_or_rest text p)
unfolding post_file_or_rest
post_file_or_rest-IsRight text p =
    IsRight-if (starts_with text (codes "POST V"))
      (answer-IsRight (post text) p (post-IsNamed text))
      (IsRight-if (starts_with text (codes "File: "))
        (answer-IsRight (file text) p (file-IsNamed text))
        (IsRight-if (starts_with text (codes "[Section: "))
          (answer-IsRight (bracket_section text) p (bracket_section-IsNamed text))
          (data_or_header-IsRight text p)))

section-IsRight :
    (text : Bytes) (p : Part) (part position : ℕ) → IsRight (section text p part position)
unfolding section
section-IsRight text p part position = elim (Bool-cases (part == 0)) [
  | inl zero_part ↦ rw zero_part (IsRight-false p)
  | inr some_part ↦ rw some_part (
      IsRight-if (starts_with (drop position text) (codes " of "))
        (answer-IsRight (section_of text part position) p
          (section_of-IsNamed text part position some_part))
        (IsRight-if (byte_at text position b'/' && digit_at text (position + 1))
          (answer-IsRight (section_slash text part position) p
            (section_slash-IsNamed text part position some_part))
          (post_file_or_rest-IsRight text p)))
]

uue_prescan-IsRight :
    (text : Bytes) (p : Part) → is_begin text ≡ false → IsRight (uue_prescan text p)
unfolding uue_prescan
uue_prescan-IsRight text p other = rw other (elim (Option-cases (parse_number text 8)) [
  | inl missing ↦ rw missing (
      IsRight-if (starts_with text (codes "section ") && digit_at text 8) (IsRight-false p)
        (post_file_or_rest-IsRight text p))
  | inr ((part, position), found) ↦ rw found (
      IsRight-if (starts_with text (codes "section ") && digit_at text 8)
        (section-IsRight text p part position) (post_file_or_rest-IsRight text p))
])

-- A line that is recognized, and is not a begin line, leaves a part that counts from 1, and is at
-- most the total where the total is not 0, which stands for an unknown one.
pub uue_prescan-IsRanked :
    (text : Bytes) (p : Part)
    → is_begin text ≡ false
    → (uue_prescan text p).0 ≡ true
    → IsRanked (uue_prescan text p).1
uue_prescan-IsRanked text p other = (uue_prescan-IsRight text p other).ranked
