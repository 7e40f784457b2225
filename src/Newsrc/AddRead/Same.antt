-- ===== src/Newsrc/AddRead/Same.antt =====
-- `add_art_num` and `was_read_group` of libtrn/rcln.cpp, which both scan the line.
use trn.Base.{
  ℕ, zero, suc, ◌-◌, ◌≤◌, Bool, true, false, not, ◌≡◌, ◌≢◌, refl, ◌∙◌, sym, Option, none, some, [],
  ◌∷◌, Bytes, ◌==◌, Bool-cases, inl, inr, length, drop, min, arith, length-drop, leb,
}
use trn.Base.Int.{ℤ, pos, eqb_ℤ, ltb_ℤ, eqb_ℤ_iff}
use trn.Newsrc.AddRead.{raise_max, start_place, scan_and_enter, enter_if_known, add_art_num}
use trn.Newsrc.Insert.{Place, Scan, already_read, insert_at, out_of_fuel, scan}
use trn.Newsrc.Lookup.{was_read_loop, was_read_group}
use trn.Newsrc.Lookup.Total.{length-skip_while-le}
use trn.Newsrc.ToRead.{Active, Totals}
use trn.Newsrc.{NewsgroupData, tr_bogus, rc_numbers, set_byte}
use trn.Text.Find.{drop-find_or_end, drop-length, drop-nil}
use trn.Text.{
  is_digit, remove_one, skip_eq, skip_digits, skip_non_digits, digits_end, next_digit, parse_long,
}

-- What a scan says of the article.
abbrev answer : Scan → Option Bool
answer already_read = some true
answer (insert_at p) = some false
answer out_of_fuel = none

drop-suc : (n : ℕ) (s : Bytes) → drop (suc n) s ≡ remove_one (drop n s)
drop-suc zero [] = refl
drop-suc zero (c ∷ s) = refl
drop-suc (suc n) [] = refl
drop-suc (suc n) (c ∷ s) = drop-suc n s

not-not : (b : Bool) → b ≡ not (not b)
not-not true = refl
not-not false = refl

drop-digits_end :
    (line : Bytes) (off : ℕ) → drop (digits_end line off) line ≡ skip_digits (drop off line)
drop-digits_end line off = drop-find_or_end is_digit (λ c. not (is_digit c)) (λ c. refl) off line

drop-next_digit :
    (line : Bytes) (off : ℕ) → drop (next_digit line off) line ≡ skip_non_digits (drop off line)
drop-next_digit line off =
    drop-find_or_end (λ c. not (is_digit c)) is_digit (λ c. not-not (is_digit c)) off line

-- The scan over offsets and the scan over the rest of the text give the same answer.
scan-was_read_loop :
    (f : ℕ) (line : Bytes) (art_num : ℤ) (p : Place)
    → answer (scan f line art_num p) ≡ was_read_loop f art_num (drop p.s_offset line)
unfolding scan was_read_loop
scan-was_read_loop zero line art_num p = refl
scan-was_read_loop (suc f) line art_num p =
    let low = parse_long (drop p.s_offset line) in
    let behind = digits_end line p.s_offset in
    let range = suc behind in
    let next_range = next_digit line (digits_end line range) in
    let next_single = next_digit line behind in
    let e1 = drop-digits_end line p.s_offset in
    let e2 = drop-suc behind line in
    let e3 = drop-next_digit line (digits_end line range) in
    let e4 = drop-digits_end line range in
    let e5 = drop-next_digit line behind in
    let r1 = scan-was_read_loop f line art_num (record {
      s_offset = next_range;
      t_offset = next_range;
      max_offset = some range;
      lastnum = parse_long (drop range line);
      low = low;
    }) in
    let r2 = scan-was_read_loop f line art_num (record {
      s_offset = next_single;
      t_offset = next_single;
      max_offset = none;
      lastnum = low;
      low = low;
    }) in
    ground (arith, e1, e2, e3, e4, e5, r1, r2)

-- More fuel does not change an answer.
was_read_loop-more :
    (f k : ℕ) (art_num : ℤ) (s : Bytes) (b : Bool)
    → f ≤ k
    → was_read_loop f art_num s ≡ some b
    → was_read_loop k art_num s ≡ some b
unfolding was_read_loop
was_read_loop-more zero k art_num s b le h = cc
was_read_loop-more (suc f) zero art_num s b le h = absurd (omega arith)
was_read_loop-more (suc f) (suc k) art_num s b le h =
    let behind = skip_digits s in
    ground (
      arith,
      was_read_loop-more f k art_num (skip_non_digits behind) b,
      was_read_loop-more f k art_num (skip_non_digits (skip_digits (remove_one behind))) b,
    )

drop-min : (n : ℕ) (s : Bytes) → drop (min n (length s)) s ≡ drop n s
drop-min n s = elim (Bool-cases (leb n (length s))) [
  | inl short ↦ let e : min n (length s) ≡ n = ground arith in rw e
  | inr long ↦
      let e : min n (length s) ≡ length s = ground arith in
      rw (e, drop-length) (sym (drop-beyond n s (ground arith)))
]
  where
    drop-beyond : (m : ℕ) (t : Bytes) → length t ≤ m → drop m t ≡ []
    drop-beyond m [] h = drop-nil m
    drop-beyond zero (c ∷ t) h = absurd (omega arith)
    drop-beyond (suc m) (c ∷ t) h = drop-beyond m t (omega arith)

-- The scan that `add_art_num` starts answers as the lookup does, for the fuel of either.
scan-was_read_group :
    (np : NewsgroupData) (art_num : ℤ) (b : Bool)
    → (let numbers = skip_eq (rc_numbers np) b' ' in
        was_read_loop (suc (length numbers)) art_num numbers ≡ some b)
    → answer (scan (suc (length np.rc_line)) np.rc_line art_num (start_place np)) ≡ some b
unfolding rc_numbers
scan-was_read_group np art_num b h =
    let numbers = skip_eq (drop np.num_offset np.rc_line) b' ' in
    let same = drop-min np.num_offset np.rc_line in
    let shorter = length-skip_while-le (λ c. c == b' ') (drop np.num_offset np.rc_line) in
    let begins =
      drop-find_or_end (λ c. c == b' ') (λ c. not (c == b' ')) (λ c. refl) np.num_offset
        np.rc_line in
    scan-was_read_loop (suc (length np.rc_line)) np.rc_line art_num (start_place np)
    ∙ rw begins (
        was_read_loop-more (suc (length numbers)) (suc (length np.rc_line)) art_num numbers b
          (omega (arith, shorter, length-drop {0} np.num_offset np.rc_line)) (rw same at h))

scan_and_enter-read :
    (np : NewsgroupData) (art_num : ℤ)
    → answer (scan (suc (length np.rc_line)) np.rc_line art_num (start_place np)) ≡ some true
    → scan_and_enter art_num np ≡ some np
unfolding scan_and_enter
scan_and_enter-read np art_num h = ground arith

-- The scan that `add_art_num` starts ends at the place.
abbrev pub IsPlace : NewsgroupData → ℤ → Place → Type 0
IsPlace np art_num p =
    scan (suc (length np.rc_line)) np.rc_line art_num (start_place np) ≡ insert_at p

module _ (np : NewsgroupData) (art_num : ℤ) where
  enter_if_known-read :
      eqb_ℤ art_num (pos 0) ≡ false
      → (np.num_offset == 0) ≡ false
      → was_read_group art_num (some np) ≡ some true
      → enter_if_known art_num np ≡ some np
  unfolding was_read_group enter_if_known raise_max
  enter_if_known-read nz off h = elim (Bool-cases (eqb_ℤ np.to_read tr_bogus)) [
    | inl bogus ↦ rw bogus
    | inr known ↦ elim (Bool-cases (ltb_ℤ np.ng_max art_num)) [
      | inl higher ↦ cc (rw (nz, off, known, higher) at h)
      | inr within ↦
          rw (known, within)
            (scan_and_enter-read np art_num
              (scan-was_read_group np art_num true (rw (nz, off, known, within) at h)))
    ]
  ]

  -- The line with the mark, or with a NUL in its place.
  abbrev pub with_mark : ℕ → Bytes → Bytes
  with_mark c line = set_byte line (np.num_offset - 1) c

-- An article that `was_read_group` reports as read is not entered again: in a group whose articles
-- have been looked at before, `add_art_num` then changes neither the group nor the totals.
pub add_art_num-read :
    (dp : ℕ) (art_num : ℤ) (active : Active) (g : Totals) (np : NewsgroupData)
    → np.abs_first ≢ pos 0
    → was_read_group art_num (some np) ≡ some true
    → add_art_num dp art_num active g np ≡ some (np, g)
unfolding add_art_num
add_art_num-read dp art_num active g np seen h =
    let first_test : eqb_ℤ np.abs_first (pos 0) ≡ false =
      ground (arith, eqb_ℤ_iff np.abs_first (pos 0)) in
    rw first_test (ground (arith, enter_if_known-read np art_num))
