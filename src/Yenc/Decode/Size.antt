-- ===== src/Yenc/Decode/Size.antt =====
-- The extent and the size of a decoded part, for libtrn/yenc.cpp.
use trn.Base.{
  ℕ, zero, suc, ◌+◌, ◌-◌, ◌≤◌, Bool, true, false, not, ◌&&◌, ◌||◌, ◌≡◌, refl, ◌∙◌, Option, none,
  some, Bytes, leb, ◌==◌, if◌then◌else◌, length, drop, codes, ◌>>=◌, guard, >>=-eq-some,
  guard-eq-some, Bool-cases, ◌⊎◌, inl, inr, arith,
}
use mathlib.Core.Option.{some-injective}
use mathlib.Core.Path.{ap, subst}
use trn.Text.{starts_with}
use trn.Yenc.Decode.{
  YencPart, stamp, read_crc, has_part, decode_line, check_crc, finish, lines_loop, find_header,
  read_extent, yenc_decode, within, start, decode_part,
}
use trn.Yenc.Header.{YencHeader}
use trn.Yenc.{Fields, field, is_some, parse_fields, number, u64_max, next_line}

-- The checks change the checksum field alone.
record SamePart (p q : YencPart) : Type 0 where
  bytes : q.bytes ≡ p.bytes
  header : q.header ≡ p.header
  first : q.first ≡ p.first
  last : q.last ≡ p.last

SamePart-trans : {p q r : YencPart} → SamePart p q → SamePart q r → SamePart p r
SamePart-trans a b = record {
  bytes = b.bytes ∙ a.bytes;
  header = b.header ∙ a.header;
  first = b.first ∙ a.first;
  last = b.last ∙ a.last;
}

SamePart-refl : (p : YencPart) → SamePart p p
SamePart-refl p = record { bytes = refl; header = refl; first = refl; last = refl }

SamePart-stamp : (p : YencPart) (crc : ℕ) → SamePart p (stamp p crc)
SamePart-stamp p crc = record { bytes = refl; header = refl; first = refl; last = refl }

kept-SamePart :
    (b : Bool) (p : YencPart) (crc : Option ℕ) {q : YencPart}
    → (if b then (crc >>= λ c. some (stamp p c)) else some p) ≡ some q
    → SamePart p q
kept-SamePart false p crc e = subst (SamePart p) (some-injective _ _ e) (SamePart-refl p)
kept-SamePart true p none e = cc
kept-SamePart true p (some c) e = subst (SamePart p) (some-injective _ _ e) (SamePart-stamp p c)

check_crc-SamePart :
    (fields : Fields) (key : Bytes) (binding : Bool) (p : YencPart) {q : YencPart}
    → check_crc fields key binding p ≡ some q
    → SamePart p q
unfolding check_crc
check_crc-SamePart fields key binding p e =
    kept-SamePart (is_some (field fields key)) p (read_crc fields key binding p.bytes) e

-- A part that passes the =yend line is complete, and only its checksum field has changed.
finish_lem :
    (expected : ℕ) (p : YencPart) (line : Bytes) {out : YencPart}
    → finish expected p line ≡ some out
    → SamePart p out × (length p.bytes ≡ expected)
unfolding finish
finish_lem expected p line e =
    let (fields, _, e1) = >>=-eq-some (parse_fields (drop 6 line) false) _ e in
    let (size, _, e2) = >>=-eq-some (number 10 u64_max fields (codes "size")) _ e1 in
    let (_, g, e3) = >>=-eq-some (guard (size == expected && length p.bytes == expected)) _ e2 in
    let (q, c1, e4) =
      >>=-eq-some (check_crc fields (codes "crc32") (not p.header.multipart) p) _ e3 in
    let (_, c2, e5) = >>=-eq-some (check_crc fields (codes "pcrc32") true q) _ e4 in
    let (_, _, e6) = >>=-eq-some (guard (not p.header.multipart || has_part fields p)) _ e5 in
    let complete = guard-eq-some _ g in
    let same = check_crc-SamePart fields (codes "crc32") (not p.header.multipart) p c1 in
    (subst (SamePart p) (some-injective _ _ e6) same, ground arith)

record IsComplete (expected : ℕ) (p q : YencPart) : Type 0 where
  header : q.header ≡ p.header
  first : q.first ≡ p.first
  last : q.last ≡ p.last
  size : length q.bytes ≡ expected

IsComplete-SamePart :
    {expected : ℕ} {p q : YencPart}
    → SamePart p q
    → length p.bytes ≡ expected
    → IsComplete expected p q
IsComplete-SamePart s e = record {
  header = s.header;
  first = s.first;
  last = s.last;
  size = ap length s.bytes ∙ e;
}

with_bytes : YencPart → Bytes → YencPart
with_bytes p bytes = record p { bytes = bytes }

IsComplete-with_bytes :
    {expected : ℕ} {p q : YencPart} (bytes : Bytes)
    → IsComplete expected (with_bytes p bytes) q
    → IsComplete expected p q
unfolding with_bytes
IsComplete-with_bytes bytes c = record {
  header = c.header;
  first = c.first;
  last = c.last;
  size = c.size;
}

lines_loop-IsComplete :
    (f expected : ℕ) (p : YencPart) (text : Bytes) {out : YencPart}
    → lines_loop f expected p text ≡ some out
    → IsComplete expected p out
unfolding lines_loop with_bytes
lines_loop-IsComplete zero expected p text e = cc
lines_loop-IsComplete (suc f) expected p text {out} e = elim (Bool-cases (length text == 0)) [
  | inl empty ↦ absurd (ground arith)
  | inr present ↦ elim (Bool-cases (starts_with (next_line text).0 (codes "=yend "))) [
    | inl at_end ↦
        let ended : finish expected p (next_line text).0 ≡ some out = ground arith in
        let (same, complete) = finish_lem expected p (next_line text).0 ended in
        IsComplete-SamePart same complete
    | inr at_data ↦
        let continued : (decode_line expected p.bytes (next_line text).0 >>= λ d.
        lines_loop f expected (with_bytes p d) (next_line text).1)
            ≡ some out =
          ground arith in
        let (decoded, _, later) =
          >>=-eq-some (decode_line expected p.bytes (next_line text).0) _ continued in
        IsComplete-with_bytes decoded
          (lines_loop-IsComplete f expected (with_bytes p decoded) (next_line text).1 later)
  ]
]

-- A part's bytes are those of its extent: the whole file, or what the =ypart line names.
pub record IsWhole (p : YencPart) : Type 0 where
  pub size : length p.bytes + p.first ≡ p.last + 1
  pub extent :
      ((p.header.multipart ≡ false) × (p.first ≡ 1) × (p.last ≡ p.header.size))
      ⊎ ((p.header.multipart ≡ true)
          × (1 ≤ p.first)
          × (p.first ≤ p.last)
          × (p.last ≤ p.header.size))

within_lem :
    (size first last : ℕ) {extent : ℕ × ℕ}
    → within size first last ≡ some extent
    → (1 ≤ extent.0) × (extent.0 ≤ extent.1) × (extent.1 ≤ size)
within_lem size first last {extent} e =
    elim (Bool-cases (not (first == 0) && (leb first last && leb last size))) [
      | inr refused ↦ absurd (ground arith)
      | inl accepted ↦
          let found : some (first, last) ≡ some extent = ground arith in
          let bounds : (1 ≤ first) × (first ≤ last) × (last ≤ size) =
            (ground arith, ground arith, ground arith) in
          subst (λ x. (1 ≤ x.0) × (x.0 ≤ x.1) × (x.1 ≤ size)) (some-injective _ _ found) bounds
    ]

read_extent_lem :
    (h : YencHeader) (line : Bytes) {extent : ℕ × ℕ}
    → read_extent h line ≡ some extent
    → (1 ≤ extent.0) × (extent.0 ≤ extent.1) × (extent.1 ≤ h.size)
unfolding read_extent
read_extent_lem h line e =
    let (_, _, e1) = >>=-eq-some (guard (starts_with line (codes "=ypart "))) _ e in
    let (fields, _, e2) = >>=-eq-some (parse_fields (drop 7 line) false) _ e1 in
    let (first, _, e3) = >>=-eq-some (number 10 u64_max fields (codes "begin")) _ e2 in
    let (last, _, e4) = >>=-eq-some (number 10 u64_max fields (codes "end")) _ e3 in
    within_lem h.size first last e4

whole :
    {h : YencHeader} {out : YencPart}
    → h.multipart ≡ false
    → IsComplete h.size (start h (1, h.size)) out
    → IsWhole out
whole {h} {out} single c =
    let same = c.header in
    let first = c.first in
    let last = c.last in
    let size = c.size in
    record { extent = inl (ground arith, ground arith, ground arith); size = ground arith }

of_extent :
    {h : YencHeader} {extent : ℕ × ℕ} {out : YencPart}
    → h.multipart ≡ true
    → (1 ≤ extent.0) × (extent.0 ≤ extent.1) × (extent.1 ≤ h.size)
    → IsComplete (extent.1 - extent.0 + 1) (start h extent) out
    → IsWhole out
of_extent {h} {extent} {out} multiple bounds c =
    let same = c.header in
    let first = c.first in
    let last = c.last in
    let size = c.size in
    let (low, order, high) = bounds in
    record {
      extent = inr (ground arith, ground arith, ground arith, ground arith);
      size = ground arith;
    }

decode_part-IsWhole :
    (h : YencHeader) (text : Bytes) {out : YencPart} → decode_part h text ≡ some out → IsWhole out
unfolding decode_part
decode_part-IsWhole h text {out} e = elim (Bool-cases h.multipart) [
  | inr single ↦
      let run : lines_loop (suc (length text)) h.size (start h (1, h.size)) text ≡ some out =
        ground arith in
      whole single (lines_loop-IsComplete (suc (length text)) h.size _ text run)
  | inl multiple ↦
      let behind = (next_line text).1 in
      let run : (read_extent h (next_line text).0 >>= λ x.
      lines_loop (suc (length (next_line text).1)) (x.1 - x.0 + 1) (start h x) (next_line text).1)
          ≡ some out =
        ground arith in
      let (extent, found, later) = >>=-eq-some (read_extent h (next_line text).0) _ run in
      of_extent multiple (read_extent_lem h (next_line text).0 found)
        (lines_loop-IsComplete (suc (length behind)) (extent.1 - extent.0 + 1) _ behind later)
]

-- A part that is decoded is whole: its bytes are as many as its extent, which is all of the file
-- for a file of one part, and lies in the file, and is not empty, for a part of several.
pub yenc_decode-IsWhole :
    (text : Bytes) {out : YencPart} → yenc_decode text ≡ some out → IsWhole out
unfolding yenc_decode
yenc_decode-IsWhole text e =
    let (found, _, later) = >>=-eq-some (find_header (suc (length text)) text) _ e in
    decode_part-IsWhole found.0 found.1 later
