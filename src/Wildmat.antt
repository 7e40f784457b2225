-- ===== src/Wildmat.antt =====
-- wildmat/wildmat.cpp: shell-style patterns with ? \ [] and *. The positions in the text and the
-- pattern are the rests from there on. `char` is signed, as it is on the program's main platforms;
-- MATCH_TAR_PATTERN is undefined, as in the source.
pub mod Spec
pub mod Sound
pub mod Complete
use trn.Base.{
  ℕ, zero, suc, ◌+◌, ◌%◌, Bool, true, false, not, ◌&&◌, ◌||◌, [], ◌∷◌, Bytes, ltb, leb, ◌==◌,
  if◌then◌else◌, length, equal,
}
use trn.Text.{front_is, remove_one, skip_eq}

abbrev pub backslash : ℕ
backslash = 92

-- The order of `char` values: the bytes from 128 on are negative.
abbrev pub signed_key : ℕ → ℕ
signed_key c = (c + 128) % 256

-- The body of a class, up to its bracket or the pattern's end, for the byte `x`: is it matched, and
-- the rest of the pattern. `last` is the key of the byte before; 256 is above all, as 0400 is.
unfoldable pub class_scan : ℕ → Bool → ℕ → Bytes → Bool × Bytes
class_scan x matched last [] = (matched, [])
class_scan x matched last (ch ∷ []) =
    if ch == b']' then (matched, ch ∷ []) else (matched || x == ch, [])
class_scan x matched last (ch ∷ e ∷ p) =
    let in_span = leb (signed_key x) (signed_key e) && leb last (signed_key x) in
    let range = class_scan x (matched || in_span) (signed_key e) p in
    let single = class_scan x (matched || x == ch) (signed_key ch) (e ∷ p) in
    if ch == b']' then (matched, ch ∷ e ∷ p) else if ch == b'-' then range else single

-- Does the class behind the bracket accept `x`, and what follows the class?
unfoldable pub class_match : ℕ → Bytes → Bool × Bytes
class_match x p =
    let reverse = front_is (λ c. c == b'^') p in
    let (matched, rest) = class_scan x false 256 (if reverse then remove_one p else p) in
    (
      if reverse then not matched else matched,
      if front_is (λ c. c == b']') rest then remove_one rest else rest,
    )

abbrev pub is_empty : Bytes → Bool
is_empty [] = true
is_empty (x ∷ t) = false

-- The loop of the star: the rest of the pattern is tried at each position before the end.
unfoldable pub star_loop : (Bytes → Bool) → Bytes → Bool
star_loop try [] = false
star_loop try (x ∷ t) = if try (x ∷ t) then true else star_loop try t

-- One byte of the pattern other than a star, at a byte of the text.
unfoldable pub match_byte : (Bytes → Bytes → Bool) → ℕ → Bytes → ℕ → Bytes → Bool
match_byte next x t c p =
    if c == backslash
    then front_is (λ d. x == d) p && next t (remove_one p)
    else if c == b'?'
    then next t p
    else if c == b'['
    then (class_match x p).0 && next t (class_match x p).1
    else x == c && next t p

-- `do_match`; each round drops at least a byte of the pattern, so its length is fuel enough.
unfoldable pub do_match : ℕ → Bytes → Bytes → Bool
do_match zero text pattern = false
do_match (suc f) text [] = is_empty text
do_match (suc f) [] (c ∷ p) = if c == b'*' then is_empty (skip_eq p b'*') else false
do_match (suc f) (x ∷ t) (c ∷ p) =
    let rest = skip_eq p b'*' in
    if c == b'*'
    then is_empty rest || star_loop (λ u. do_match f u rest) (x ∷ t)
    else match_byte (do_match f) x t c p

unfoldable pub wildcard_match : Bytes → Bytes → Bool
wildcard_match text pattern =
    if equal pattern (b'*' ∷ []) then true else do_match (suc (length pattern)) text pattern
